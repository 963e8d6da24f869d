-- ===== src/Lcd/Controller.antt =====
-- The other end of the lines, described by itself: an HD44780 on a 4-bit bus takes the data lines,
-- with RS and RW, at each falling edge of EN, and a byte is two such nibbles, the high one first.
use mad_devicedriver.Prelude.{ℕ, ◌+◌, ◌*◌, List, [], ◌∷◌, ◌++◌, ◌&&◌, ◌==◌, if◌then◌else◌}
use mad_devicedriver.Lcd.Bus.{
  Line, lcd_rs, lcd_rw, lcd_en, lcd_d4, lcd_d5, lcd_d6, lcd_d7, Event, set_value, direction_output,
  direction_input, delay,
}

-- The level on each line.
pub record Levels : Type 0 where
  pub rs : ℕ
  pub rw : ℕ
  pub en : ℕ
  pub d4 : ℕ
  pub d5 : ℕ
  pub d6 : ℕ
  pub d7 : ℕ

pub record Nibble : Type 0 where
  pub rs : ℕ
  pub rw : ℕ
  pub bits : ℕ

abbrev pub drive : Levels → Line → ℕ → Levels
drive l lcd_rs v = record l { rs = v }
drive l lcd_rw v = record l { rw = v }
drive l lcd_en v = record l { en = v }
drive l lcd_d4 v = record l { d4 = v }
drive l lcd_d5 v = record l { d5 = v }
drive l lcd_d6 v = record l { d6 = v }
drive l lcd_d7 v = record l { d7 = v }

abbrev pub sampled : Levels → Nibble
sampled l = record { rs = l.rs; rw = l.rw; bits = l.d4 + 2 * l.d5 + 4 * l.d6 + 8 * l.d7 }

-- What the controller takes when a line goes to a level.
abbrev pub taken : Levels → Line → ℕ → List Nibble
taken l lcd_en v = if l.en == 1 && v == 0 then sampled l ∷ [] else []
taken l _ v = []

abbrev pub levels_after : Levels → Event → Levels
levels_after l (set_value line v) = drive l line v
levels_after l (direction_output line v) = drive l line v
levels_after l (direction_input line) = l
levels_after l (delay n) = l

abbrev pub taken_at : Levels → Event → List Nibble
taken_at l (set_value line v) = taken l line v
taken_at l (direction_output line v) = taken l line v
taken_at l (direction_input line) = []
taken_at l (delay n) = []

-- The nibbles that the controller takes during a run, and the levels after it.
abbrev pub watch : Levels → List Event → List Nibble
watch l [] = []
watch l (e ∷ es) = taken_at l e ++ watch (levels_after l e) es

abbrev pub settle : Levels → List Event → Levels
settle l [] = l
settle l (e ∷ es) = settle (levels_after l e) es

-- A byte of the instruction register (`rs` 0) or the data register (`rs` 1).
pub data Received : Type 0 where
  command : ℕ → Received
  character : ℕ → Received
  other : Received

abbrev pub received : Nibble → Nibble → Received
received h l =
    if h.rw == 0 && l.rw == 0
    then if h.rs == 0 && l.rs == 0
      then command (h.bits * 16 + l.bits)
      else if h.rs == 1 && l.rs == 1
      then character (h.bits * 16 + l.bits)
      else other
    else other

abbrev pub bytes : List Nibble → List Received
bytes [] = []
bytes (h ∷ []) = []
bytes (h ∷ l ∷ rest) = received h l ∷ bytes rest
