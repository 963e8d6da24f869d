-- ===== src/LcdApp/Tests.antt =====
-- Runs of the program, on GPIO lines that keep what is set.
use mad_devicedriver.Prelude.{
  ℕ, zero, suc, ◌-◌, ◌≡◌, refl, arith, List, [], ◌∷◌, ◌++◌, Bool, false, Option, none, ◌==◌,
  if◌then◌else◌, take, replicate,
}
use mad_devicedriver.Prelude.Int.{pos}
use mad_devicedriver.Kernel.{Errno, value, TextApi, parsed, done, overrun}
use mad_devicedriver.Lcd.Bus.{Line, lcd_en, Event}
use mad_devicedriver.Lcd.Controller.{Levels, settle}
use mad_devicedriver.Lcd.Latch.{Sends}
use mad_devicedriver.Lcd.Screen.{set_up}
use mad_devicedriver.Lcd.Panel
use mad_devicedriver.GpioSysfs.{GpioApi, GpioLaws, GpiodevPrivateData}
use mad_devicedriver.LcdApp.Panel as AppPanel
use mad_devicedriver.LcdApp.Panel.{lcd_printf}
use mad_devicedriver.LcdApp.Gpio.{gpio_lcd}
use mad_devicedriver.LcdApp.Main.{NoConversion, VsprintfLaws, Tm, init_gpios, main}
use mad_devicedriver.LcdApp.Alike.{Alike, AlikeOutcome, panels_agree}
use mad_devicedriver.LcdApp.Shown.{printed}
use mad_devicedriver.LcdApp.Loop.{rounds_shown, long_message_leaves_buffer}
use mad_devicedriver.LcdApp.Driven.{Grants, Follows, level, bit, run}
use mad_devicedriver.LcdApp.System.{program_drives_panel}

-- The direction, 0 for an output, and the level.
abbrev Desc : Type 0
Desc = ℕ × ℕ

abbrev latch : GpioApi Desc
latch = record {
  get_direction = λ d. value d.0;
  get_value = λ d. pos d.1;
  direction_input = λ d. (none, (1, d.1));
  direction_output = λ d v. (none, (0, bit v));
  set_value = λ d v. if d.0 == 0 then (d.0, bit v) else d;
  out_level = λ d. d.1;
}

latch_laws : GpioLaws latch
latch_laws = record {
  input_set = λ d ok. refl;
  output_set = λ d v ok. refl;
  drives_low = λ d out. ground arith;
  drives_high = λ d v out high. ground arith;
}

-- Text functions that know numbers and directions by their first letter.
abbrev first_alike : List ℕ → List ℕ → Bool
first_alike (x ∷ xs) (y ∷ ys) = x == y
first_alike _ _ = false

abbrev api : TextApi
api = record {
  kstrtol = λ buf base. elim buf [ [] ↦ parsed (pos 0) | c ∷ cs ↦ parsed (pos (c - 48)) ];
  sysfs_streq = first_alike;
}

abbrev there : List ℕ → Option Errno
there path = none

latch-Grants : Grants latch api there
latch-Grants = record {
  file_there = λ line a. refl;
  zero_parsed = refl;
  one_parsed = refl;
  not_in = refl;
  is_out = refl;
  output_granted = λ d. refl;
  output_low = λ d. refl;
  value_output = λ d v out. ground arith;
}

abbrev dark : Levels
dark = record { rs = 0; rw = 0; en = 0; d4 = 0; d5 = 0; d6 = 0; d7 = 0 }

abbrev probed : Line → GpiodevPrivateData Desc
probed line = record { label = gpio_lcd line; desc = (0, 0) }

probed-Follows : Follows latch api dark probed
probed-Follows line = (refl, ground arith)

-- A vsprintf that knows no conversions.
abbrev verbatim : List ℕ → List ℕ
verbatim format = format

verbatim_laws : VsprintfLaws verbatim
verbatim_laws = record { copies = λ format plain. refl }

xs : (n : ℕ) → NoConversion (replicate n b'x')
xs zero = tt
xs (suc n) = (omega arith, xs n)

abbrev hello : List ℕ
hello = b'H' ∷ b'i' ∷ []

abbrev noon : Tm
noon = record { tm_year = 126; tm_mon = 10; tm_mday = 26; tm_hour = 12; tm_min = 0; tm_sec = 9 }

program_drives_panel_example :
    (es : List Event) × (main verbatim hello (b'1' ∷ b'0' ∷ 0 ∷ []) (noon ∷ []) ≡ done es)
    × Sends dark es (set_up ++ rounds_shown hello (b'1' ∷ b'0' ∷ []) (noon ∷ []))
    × (let d = run latch api there probed (take 500 es) lcd_en in
        (latch.get_direction d.desc ≡ value 0)
        × (latch.out_level d.desc ≡ bit (level (settle dark (take 500 es)) lcd_en)))
program_drives_panel_example =
    program_drives_panel latch api there dark probed hello b'1' (b'0' ∷ []) [] (noon ∷ []) 500
      lcd_en latch_laws verbatim_laws latch-Grants probed-Follows refl
      (omega arith, (omega arith, tt)) (omega arith) (omega arith) (omega arith)
      (
        record {
          year = omega arith;
          mon = omega arith;
          mday = omega arith;
          hour = omega arith;
          minute = omega arith;
          sec = omega arith;
        },
        tt,
      )

long_message_leaves_buffer_example : main verbatim (replicate 32 b'x') [] (noon ∷ []) ≡ overrun
long_message_leaves_buffer_example =
    long_message_leaves_buffer verbatim_laws (replicate 32 b'x') [] noon [] (xs 32) (omega arith)

panels_agree_example :
    Alike (AppPanel.lcd_send_command 1) (Panel.lcd_send_command 1)
    × Alike (AppPanel.lcd_print_char 1) (Panel.lcd_print_char 1)
    × Alike (AppPanel.lcd_set_cursor 2 16) (Panel.lcd_set_cursor 2 16)
    × AlikeOutcome (AppPanel.lcd_print_string (65 ∷ 0 ∷ [])) (Panel.lcd_print_string (65 ∷ 0 ∷ []))
    × Alike AppPanel.lcd_deinit Panel.lcd_deinit
    × Alike (init_gpios ++ AppPanel.lcd_init) Panel.lcd_init
panels_agree_example = panels_agree 1 2 16 (65 ∷ 0 ∷ [])

-- A tab is skipped, and the text ends at the newline.
printed_runs : printed (b'a' ∷ 9 ∷ b'b' ∷ 10 ∷ b'c' ∷ []) ≡ b'a' ∷ b'b' ∷ []
printed_runs = refl
