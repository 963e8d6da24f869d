-- ===== src/Lcd/Probe.antt =====
-- custom_drivers/008lcd_platform_driver/lcd_platform_driver.c: binding the LCD's device, and the
-- module's init and exit functions.
use mad_devicedriver.Prelude.{
  ℕ, zero, suc, List, [], ◌∷◌, ◌++◌, Bool, true, false, ◌||◌, Option, none, some,
}
use mad_devicedriver.Kernel.{Errno, einval, Ret, value, error, Outcome, done, overrun}
use mad_devicedriver.Setup.{class, device, line, driver, Call, acquire, release}
use mad_devicedriver.Lcd.Bus.{Event}
use mad_devicedriver.Lcd.Panel.{lcd_init, lcd_print_string, lcd_deinit}

-- How the kernel answers: `gpiod_get` by the index of the line.
pub record Answers : Type 0 where
  pub gpiod_get : ℕ → Option Errno
  pub device_create_with_groups : Option Errno

-- LCD_LINES
abbrev pub lcd_lines : ℕ
lcd_lines = 7

abbrev pub failed : Option Errno → Bool
failed none = false
failed (some e) = true

-- The calls of gpiod_get from line `i` on, `n` of them; a failed one acquires nothing.
unfoldable pub get_lines : Answers → ℕ → ℕ → List Call
get_lines k zero i = []
get_lines k (suc n) i =
    let later = get_lines k n (suc i) in
    elim (k.gpiod_get i) [ none ↦ acquire (line i) ∷ later | some e ↦ later ]

-- The test of the descriptors with IS_ERR.
unfoldable pub any_failed : Answers → ℕ → ℕ → Bool
any_failed k zero i = false
any_failed k (suc n) i = failed (k.gpiod_get i) || any_failed k n (suc i)

-- "16x2 LCD Driver demo", with its terminator.
abbrev pub demo : List ℕ
demo =
    b'1' ∷ b'6' ∷ b'x' ∷ b'2' ∷ b' ' ∷ b'L' ∷ b'C' ∷ b'D' ∷ b' ' ∷ b'D' ∷ b'r' ∷ b'i' ∷ b'v' ∷ b'e'
    ∷ b'r' ∷ b' ' ∷ b'd' ∷ b'e' ∷ b'm' ∷ b'o' ∷ 0 ∷ []

abbrev pub device_create_files : Answers → Ret
device_create_files k = elim k.device_create_with_groups [ none ↦ value 0 | some e ↦ error e ]

-- What is returned, the calls, and what happened on the lines. `lcd_init` always returns 0.
unfoldable pub lcd_probe : Answers → Outcome (Ret × List Call × List Event)
unfolding get_lines any_failed
lcd_probe k = elim (any_failed k lcd_lines 0) [
  | true ↦ done (error einval, get_lines k lcd_lines 0, [])
  | false ↦ elim (device_create_files k) [
    | error e ↦ done (error e, get_lines k lcd_lines 0, lcd_init)
    | value n ↦ elim (lcd_print_string demo) [
      | overrun ↦ overrun
      | done es ↦ done (value 0, get_lines k lcd_lines 0 ++ acquire (device 0) ∷ [], lcd_init ++ es)
    ]
  ]
]

unfoldable pub lcd_remove : Ret × List Call × List Event
lcd_remove = (value 0, release (device 0) ∷ [], lcd_deinit)

-- `class_create` and `platform_driver_register` are not tested: `none` is success.
unfoldable pub lcd_sysfs_init : Option Errno → Option Errno → Ret × List Call
lcd_sysfs_init class_create register = (
  value 0,
  elim class_create [ none ↦ acquire class ∷ [] | some e ↦ [] ]
      ++ elim register [ none ↦ acquire driver ∷ [] | some e ↦ [] ],
)

unfoldable pub lcd_sysfs_exit : List Call
lcd_sysfs_exit = release driver ∷ release class ∷ []
