-- ===== src/LcdApp/Gpio.antt =====
-- custom_drivers/007_gpio_sysfs_lcd/gpio.c: what the program writes to which attribute file. The file
-- system is code outside the repository: `opening` is its answer by path, an error number or nothing.
use mad_devicedriver.Prelude.{
  ℕ, ◌+◌, ◌≤◌, ◌≡◌, arith, List, [], ◌∷◌, ◌++◌, Bool, ◌&&◌, ◌||◌, Option, none, some, ◌==◌, leb,
  if◌then◌else◌, take,
}
use mad_devicedriver.Kernel.{Errno, Ret, value, error, Outcome, done, overrun}
use mad_devicedriver.Lcd.Bus.{Line, lcd_rs, lcd_rw, lcd_en, lcd_d4, lcd_d5, lcd_d6, lcd_d7}

abbrev pub some_bytes : ℕ
some_bytes = 100

-- "/sys/class/bone_gpios"
abbrev pub sys_gpio_path : List ℕ
sys_gpio_path =
    b'/' ∷ b's' ∷ b'y' ∷ b's' ∷ b'/' ∷ b'c' ∷ b'l' ∷ b'a' ∷ b's' ∷ b's' ∷ b'/' ∷ b'b' ∷ b'o' ∷ b'n'
    ∷ b'e' ∷ b'_' ∷ b'g' ∷ b'p' ∷ b'i' ∷ b'o' ∷ b's' ∷ []

-- The attributes direction and value, by name.
pub data Attribute : Type 0 where
  direction value_file : Attribute

abbrev pub file_name : Attribute → List ℕ
file_name direction = b'd' ∷ b'i' ∷ b'r' ∷ b'e' ∷ b'c' ∷ b't' ∷ b'i' ∷ b'o' ∷ b'n' ∷ []
file_name value_file = b'v' ∷ b'a' ∷ b'l' ∷ b'u' ∷ b'e' ∷ []

-- `snprintf(buf, sizeof(buf), SYS_GPIO_PATH "/%s/<attribute>", gpio_label)` cuts a longer text.
unfoldable pub path_of : List ℕ → Attribute → List ℕ
path_of gpio_label a = take 99 (sys_gpio_path ++ (b'/' ∷ gpio_label ++ (b'/' ∷ file_name a)))

-- The bytes of a `write` to the file of that path.
pub record Write : Type 0 where
  pub path : List ℕ
  pub buf : List ℕ

-- Opening, writing and closing one file: what is returned, and the write, whose result is not looked
-- at.
abbrev pub write_file : (List ℕ → Option Errno) → List ℕ → List ℕ → Ret × List Write
write_file opening path buf = elim (opening path) [
  | some e ↦ (error e, [])
  | none ↦ (value 0, record { path = path; buf = buf } ∷ [])
]

-- The terminators are written as well.
abbrev pub direction_text : ℕ → List ℕ
direction_text dir_value =
    if dir_value == 0 then b'i' ∷ b'n' ∷ 0 ∷ [] else b'o' ∷ b'u' ∷ b't' ∷ 0 ∷ []

abbrev pub value_text : ℕ → List ℕ
value_text out_value = if out_value == 0 then b'0' ∷ 0 ∷ [] else b'1' ∷ 0 ∷ []

unfoldable pub gpio_configure_dir : (List ℕ → Option Errno) → List ℕ → ℕ → Ret × List Write
unfolding path_of
gpio_configure_dir opening gpio_label dir_value =
    write_file opening (path_of gpio_label direction) (direction_text dir_value)

unfoldable pub gpio_write_value : (List ℕ → Option Errno) → List ℕ → ℕ → Ret × List Write
unfolding path_of
gpio_write_value opening gpio_label out_value =
    write_file opening (path_of gpio_label value_file) (value_text out_value)

-- A character that atoi reads on from: a blank, a sign, or a digit.
abbrev pub reads_on : ℕ → Bool
reads_on c =
    c == b' ' || (leb 9 c && leb c 13) || c == b'+' || c == b'-' || (leb b'0' c && leb c b'9')

-- `reading` is the byte that the file gives. atoi is called on this one byte, behind which there is no
-- terminator: it leaves the byte unless that cannot stand in a number.
unfoldable pub gpio_read_value : (List ℕ → Option Errno) → (List ℕ → ℕ) → List ℕ → Outcome Ret
gpio_read_value opening reading gpio_label = elim (opening (path_of gpio_label value_file)) [
  | some e ↦ done (error e)
  | none ↦ if reads_on (reading (path_of gpio_label value_file)) then overrun else done (value 0)
]

-- `fd` is the descriptor that open gives.
unfoldable pub gpio_file_open : (List ℕ → Option Errno) → ℕ → List ℕ → Ret
gpio_file_open opening fd gpio_label = elim (opening (path_of gpio_label value_file)) [
  | some e ↦ error e
  | none ↦ value fd
]

-- The answer of close.
abbrev pub gpio_file_close : Ret → Ret
gpio_file_close closed = closed

-- Each of the two values that a driver of GPIOs shows is read past.
pub levels_read_past :
    (opening : List ℕ → Option Errno) (reading : List ℕ → ℕ) (gpio_label : List ℕ) (level : ℕ)
    → level ≤ 1
    → opening (path_of gpio_label value_file) ≡ none
    → reading (path_of gpio_label value_file) ≡ b'0' + level
    → gpio_read_value opening reading gpio_label ≡ overrun
unfolding gpio_read_value
levels_read_past opening reading gpio_label level h o r = rw (gpio_read_value, o, r) (ground arith)

-- "gpio2."
abbrev pub bank : List ℕ
bank = b'g' ∷ b'p' ∷ b'i' ∷ b'o' ∷ b'2' ∷ b'.' ∷ []

-- The labels of lcd.h.
abbrev pub gpio_lcd : Line → List ℕ
gpio_lcd lcd_rs = bank ++ b'2' ∷ []
gpio_lcd lcd_rw = bank ++ b'7' ∷ []
gpio_lcd lcd_en = bank ++ b'8' ∷ []
gpio_lcd lcd_d4 = bank ++ b'9' ∷ []
gpio_lcd lcd_d5 = bank ++ b'1' ∷ b'0' ∷ []
gpio_lcd lcd_d6 = bank ++ b'1' ∷ b'1' ∷ []
gpio_lcd lcd_d7 = bank ++ b'1' ∷ b'2' ∷ []
