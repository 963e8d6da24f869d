-- ===== src/Lcd/Tests.antt =====
-- Runs of the LCD driver, and its theorems at concrete inputs.
use mad_devicedriver.Prelude.{
  ℕ, ◌+◌, ◌-◌, ◌*◌, ◌≡◌, refl, arith, List, [], ◌∷◌, none, some, Bool, true, false, ◌==◌,
  if◌then◌else◌, ◌&&◌,
}
use mad_devicedriver.Prelude.Int.{pos}
use mad_devicedriver.Prelude.Decimal.{digits}
use mad_devicedriver.Kernel.{value, error, einval, done, overrun, TextApi, Parsed, parsed}
use mad_devicedriver.Lcd.Bus.{Event}
use mad_devicedriver.Lcd.Panel.{lcd_send_command, lcd_print_string, lcd_set_cursor, lcd_init}
use mad_devicedriver.Lcd.Controller.{Levels, command, character, watch, bytes}
use mad_devicedriver.Lcd.Latch.{Sends}
use mad_devicedriver.Lcd.Screen.{text_received, set_up, init_received}
use mad_devicedriver.Lcd.Attributes.{LcdPrivateData, lcdxy_store, lcdxy_put}
use mad_devicedriver.Lcd.Probe.{Answers, lcd_lines, get_lines, lcd_probe}

abbrev quiet : Levels
quiet = record { rs = 1; rw = 1; en = 0; d4 = 1; d5 = 0; d6 = 1; d7 = 0 }

-- A small kstrtol: decimal digits up to a newline or the terminator.
abbrev digits_value : ℕ → List ℕ → Parsed
digits_value acc [] = parsed (pos acc)
digits_value acc (c ∷ cs) =
    if c == b'\n' then parsed (pos acc) else digits_value (acc * 10 + (c - b'0')) cs

abbrev same_text : List ℕ → List ℕ → Bool
same_text [] [] = true
same_text [] (b ∷ bs) = false
same_text (a ∷ at) [] = a == b'\n'
same_text (a ∷ at) (b ∷ bs) = a == b && same_text at bs

abbrev api : TextApi
api = record { kstrtol = λ buf base. digits_value 0 buf; sysfs_streq = same_text }

abbrev fresh : LcdPrivateData
fresh = record { lcd_scroll = 0; lcdxy = b'(' ∷ b'1' ∷ b',' ∷ b'1' ∷ b')' ∷ 0 ∷ 0 ∷ 0 ∷ [] }

-- "25", a newline
abbrev place : List ℕ
place = b'2' ∷ b'5' ∷ b'\n' ∷ []

command_bytes : bytes (watch quiet (lcd_send_command 0x28)) ≡ command 0x28 ∷ []
unfolding lcd_send_command
command_bytes = refl

-- The loop of `lcd_print_string` tests the terminator only after a character: an empty text is
-- printed as its terminator, and the read goes on behind it.
empty_text_overruns : lcd_print_string (0 ∷ []) ≡ overrun
unfolding lcd_print_string
empty_text_overruns = refl

text_received_example :
    (es : List Event) × (lcd_print_string (b'O' ∷ b'K' ∷ 0 ∷ []) ≡ done es)
    × Sends quiet es (character b'O' ∷ character b'K' ∷ [])
text_received_example = text_received b'O' (b'K' ∷ []) [] quiet refl (omega arith)

init_received_example : Sends quiet lcd_init set_up
init_received_example = init_received quiet refl

-- Three bytes are written, and the call returns 5.
place_stored :
    lcdxy_store api fresh place 3
    ≡ done (
      value 5,
      record fresh { lcdxy = b'(' ∷ b'2' ∷ b',' ∷ b'5' ∷ b')' ∷ 0 ∷ 0 ∷ 0 ∷ [] },
      lcd_set_cursor 2 5,
    )
unfolding lcdxy_store lcdxy_put digits
place_stored = refl

abbrev all_granted : Answers
all_granted = record { gpiod_get = λ i. none; device_create_with_groups = none }

-- Another driver holds the line EN.
abbrev en_busy : Answers
en_busy = record {
  gpiod_get = λ i. if i == 2 then some 16 else none;
  device_create_with_groups = none;
}

en_busy_run : lcd_probe en_busy ≡ done (error einval, get_lines en_busy lcd_lines 0, [])
unfolding lcd_probe
en_busy_run = refl
