-- ===== src/LcdApp/System.antt =====
-- The program, its file functions and the gpio-sysfs driver together, down to the GPIO lines.
use mad_devicedriver.Prelude.{
  ℕ, zero, suc, ◌<◌, ◌≡◌, subst, List, [], ◌∷◌, ◌++◌, Option, length, take,
}
use mad_devicedriver.Kernel.{Errno, value, TextApi, done}
use mad_devicedriver.Lcd.Bus.{Line, Event}
use mad_devicedriver.Lcd.Controller.{Levels, settle}
use mad_devicedriver.Lcd.Latch.{Sends, IsText}
use mad_devicedriver.Lcd.Screen.{set_up}
use mad_devicedriver.GpioSysfs.{GpioApi, GpioLaws, GpiodevPrivateData}
use mad_devicedriver.LcdApp.Panel.{text_buffer_size}
use mad_devicedriver.LcdApp.Main.{NoConversion, VsprintfLaws, Tm, main}
use mad_devicedriver.LcdApp.Loop.{rounds_shown, AllTm, main_displayed}
use mad_devicedriver.LcdApp.Driven.{AllWrites, Grants, Follows, level, bit, run, lines_driven}
use mad_devicedriver.LcdApp.Writes.{OutcomeWrites, main-OutcomeWrites}

AllWrites-take : (n : ℕ) (es : List Event) → AllWrites es → AllWrites (take n es)
AllWrites-take zero es w = tt
AllWrites-take (suc n) [] w = tt
AllWrites-take (suc n) (e ∷ es) w = (w.0, AllWrites-take n es w.1)

-- The files are there, their texts are read as documented, and every line is an output with the level
-- `l` gives it, EN low; the message, which vsprintf takes as a format, has 1 to 31 characters and no '%'
-- among them; the address is a text, and the dates and times are in their documented ranges up to the
-- year 9999. Then for any number of rounds the program leaves no buffer, and its writes, taken by the
-- driver's store functions in order, after any number of them have each line an output that is driven at
-- the level that the controller sees; from these levels the controller receives exactly the set-up, and
-- in each round the printable characters of the message, with one shift for each of its characters behind
-- the sixteenth, the address, the date with its month counted from 0, and the time, between lines of
-- stars.
pub program_drives_panel :
    {Desc : Type 0} (g : GpioApi Desc) (api : TextApi) (opening : List ℕ → Option Errno)
    {vsprintf : List ℕ → List ℕ} (l : Levels) (lines : Line → GpiodevPrivateData Desc)
    (msg : List ℕ) (c : ℕ) (cs rest : List ℕ) (ts : List Tm) (n : ℕ) (line : Line)
    → GpioLaws g
    → VsprintfLaws vsprintf
    → Grants g api opening
    → Follows g api l lines
    → l.en ≡ 0
    → NoConversion msg
    → 0 < length msg
    → length msg < text_buffer_size
    → IsText (c ∷ cs)
    → AllTm ts
    → (es : List Event) × (main vsprintf msg ((c ∷ cs) ++ 0 ∷ rest) ts ≡ done es)
      × Sends l es (set_up ++ rounds_shown msg (c ∷ cs) ts)
      × (let d = run g api opening lines (take n es) line in
          (g.get_direction d.desc ≡ value 0)
          × (g.out_level d.desc ≡ bit (level (settle l (take n es)) line)))
program_drives_panel g api opening {vsprintf} l lines msg c cs rest ts n line laws format grants
      follows idle plain typed fits text v =
    let (es, run', sends) = main_displayed format msg c cs rest ts l idle plain fits text v in
    let writes =
      subst OutcomeWrites run' (main-OutcomeWrites vsprintf msg ((c ∷ cs) ++ 0 ∷ rest) ts) in
    (
      es,
      run',
      sends,
      lines_driven g api laws opening grants (take n es) l lines (AllWrites-take n es writes)
          follows line,
    )
