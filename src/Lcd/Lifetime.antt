-- ===== src/Lcd/Lifetime.antt =====
-- lcd_platform_driver.c: what a bound LCD shows and holds, and what it still holds once unbound.
use mad_devicedriver.Prelude.{
  ℕ, zero, suc, ◌+◌, ◌≤◌, ◌<◌, ◌≡◌, refl, arith, List, [], ◌∷◌, ◌++◌, map, true, false, none, drop,
}
use mad_devicedriver.Kernel.{Ret, value, done}
use mad_devicedriver.Setup.{
  Call, acquire, release, remove, step, Resource, device, line, holds, Ledger, replay, nothing,
  replay-append,
}
use mad_devicedriver.Lcd.Bus.{Event}
use mad_devicedriver.Lcd.Panel.{lcd_init}
use mad_devicedriver.Lcd.Controller.{Levels, character, settle}
use mad_devicedriver.Lcd.Latch.{Sends, Sends-append}
use mad_devicedriver.Lcd.Screen.{set_up, init_received, text_received}
use mad_devicedriver.Lcd.Probe.{Answers, lcd_lines, get_lines, any_failed, lcd_probe, lcd_remove}

abbrev pub all_lines : List Resource
all_lines = line 6 ∷ line 5 ∷ line 4 ∷ line 3 ∷ line 2 ∷ line 1 ∷ line 0 ∷ []

abbrev pub Granted : Answers → Type 0
Granted k = (i : ℕ) → i < lcd_lines → k.gpiod_get i ≡ none

probe_calls :
    (k : Answers)
    → Granted k
    → (any_failed k lcd_lines 0 ≡ false)
      × (replay (get_lines k lcd_lines 0) nothing ≡ record { held = all_lines; stray = [] })
unfolding get_lines any_failed
probe_calls k all = ground (arith, all 0, all 1, all 2, all 3, all 4, all 5, all 6)

abbrev pub demo_text : List ℕ
demo_text =
    b'1' ∷ b'6' ∷ b'x' ∷ b'2' ∷ b' ' ∷ b'L' ∷ b'C' ∷ b'D' ∷ b' ' ∷ b'D' ∷ b'r' ∷ b'i' ∷ b'v' ∷ b'e'
    ∷ b'r' ∷ b' ' ∷ b'd' ∷ b'e' ∷ b'm' ∷ b'o' ∷ []

abbrev demo_tail : List ℕ
demo_tail = drop 1 demo_text

-- If every line and the device are granted and EN is low, the probe returns 0, the controller
-- receives the set-up and then the text "16x2 LCD Driver demo", and the seven lines and the device
-- are held.
pub probe_shows_demo :
    (k : Answers) (l : Levels)
    → Granted k
    → k.device_create_with_groups ≡ none
    → l.en ≡ 0
    → (es : List Event) × (lcd_probe k
        ≡ done (value 0, get_lines k lcd_lines 0 ++ acquire (device 0) ∷ [], es))
      × Sends l es (set_up ++ map character demo_text)
      × ((replay (get_lines k lcd_lines 0 ++ acquire (device 0) ∷ []) nothing).held
          ≡ device 0 ∷ all_lines)
unfolding lcd_probe
probe_shows_demo k l all made idle =
    let (none_failed, calls) = probe_calls k all in
    let first = init_received l idle in
    let (es, run, sends) =
      text_received b'1' demo_tail [] (settle l lcd_init) first.low (omega arith) in
    (
      lcd_init ++ es,
      ground (arith),
      Sends-append first sends,
      rw (replay-append (get_lines k lcd_lines 0) (acquire (device 0) ∷ []) nothing, calls) refl,
    )

get_lines-keeps :
    (k : Answers) (n j : ℕ) (l : Ledger) (r : Resource)
    → holds l.held r ≡ true
    → holds (replay (get_lines k n j) l).held r ≡ true
unfolding get_lines
get_lines-keeps k zero j l r h = h
get_lines-keeps k (suc n) j l r h = ground (
  arith,
  get_lines-keeps k n (suc j) l r,
  get_lines-keeps k n (suc j) (record l { held = line j ∷ l.held }) r,
)

get_lines-holds :
    (k : Answers) (n j : ℕ) (l : Ledger) (i : ℕ)
    → j ≤ i
    → i < n + j
    → k.gpiod_get i ≡ none
    → holds (replay (get_lines k n j) l).held (line i) ≡ true
unfolding get_lines
get_lines-holds k zero j l i lo hi e = absurd (omega arith)
get_lines-holds k (suc n) j l i lo hi e =
    let l' : Ledger = record l { held = line j ∷ l.held } in
    ground (
      arith,
      get_lines-keeps k n (suc j) l' (line i),
      get_lines-holds k n (suc j) l i,
      get_lines-holds k n (suc j) l' i,
    )

line_not_removed :
    (i : ℕ) (qs : List Resource) → holds (remove (device 0) qs) (line i) ≡ holds qs (line i)
line_not_removed i [] = refl
line_not_removed i (q ∷ qs) = ground (arith, line_not_removed i qs)

release-keeps :
    (i : ℕ) (l : Ledger)
    → holds l.held (line i) ≡ true
    → holds (step l (release (device 0))).held (line i) ≡ true
release-keeps i l h = ground (arith, line_not_removed i l.held)

-- A line that was granted is held after the probe, whether it fails or not, and still held after
-- the remove function.
pub lines_never_put :
    (k : Answers) (i : ℕ) {r : Ret} {calls : List Call} {es : List Event}
    → i < lcd_lines
    → k.gpiod_get i ≡ none
    → lcd_probe k ≡ done (r, calls, es)
    → (holds (replay calls nothing).held (line i) ≡ true)
      × (holds (replay (calls ++ lcd_remove.1) nothing).held (line i) ≡ true)
unfolding lcd_probe lcd_remove
lines_never_put k i {r} {calls} {es} lt e run =
    let got = get_lines-holds k lcd_lines 0 nothing i (omega arith) (omega arith) e in
    let kept : holds (replay calls nothing).held (line i) ≡ true =
      ground
        (arith, got, replay-append (get_lines k lcd_lines 0) (acquire (device 0) ∷ []) nothing) in
    (
      kept,
      rw (replay-append calls (release (device 0) ∷ []) nothing)
          (release-keeps i (replay calls nothing) kept),
    )
