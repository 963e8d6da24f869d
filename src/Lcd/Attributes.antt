-- ===== src/Lcd/Attributes.antt =====
-- custom_drivers/008lcd_platform_driver/lcd_platform_driver.c: the sysfs attributes lcdcmd, lcdtext,
-- lcdscroll and lcdxy. A buffer is the list of its bytes up to and with the terminator.
use mad_devicedriver.Prelude.{ℕ, ◌+◌, List, [], ◌∷◌, ◌++◌, length, leb, ◌==◌, if◌then◌else◌, splice}
use mad_devicedriver.Prelude.Int.{ℤ}
use mad_devicedriver.Prelude.Decimal.{decimal, div10, mod10, to_int, to_u8}
use mad_devicedriver.Kernel.{
  einval, Ret, value, error, Outcome, done, overrun, TextApi, parsed, refused,
}
use mad_devicedriver.Lcd.Bus.{Event}
use mad_devicedriver.Lcd.Panel.{lcd_send_command, lcd_print_string, lcd_set_cursor}

-- `struct lcd_private_data`, but for its device pointer and descriptors. `lcdxy` has 8 bytes.
pub record LcdPrivateData : Type 0 where
  pub lcd_scroll : ℕ
  pub lcdxy : List ℕ

abbrev pub on : List ℕ
on = b'o' ∷ b'n' ∷ []

abbrev pub off : List ℕ
off = b'o' ∷ b'f' ∷ b'f' ∷ []

-- `%s` of a buffer: the bytes before its terminator.
abbrev pub c_string : List ℕ → List ℕ
c_string [] = []
c_string (c ∷ cs) = if c == 0 then [] else c ∷ c_string cs

-- What a show function leaves in `buf`, and the length that it returns.
abbrev pub shown : List ℕ → Ret × List ℕ
shown text = (value (length text), text)

unfoldable pub lcdscroll_show : LcdPrivateData → Ret × List ℕ
lcdscroll_show d = if d.lcd_scroll == 0 then shown (off ++ b'\n' ∷ []) else shown (on ++ b'\n' ∷ [])

unfoldable pub lcdxy_show : LcdPrivateData → Ret × List ℕ
lcdxy_show d = shown (c_string d.lcdxy ++ b'\n' ∷ [])

-- `sprintf(lcdxy, "(%d,%d)", x, y)`
abbrev pub xy_text : ℤ → ℤ → List ℕ
xy_text x y = b'(' ∷ (decimal x ++ b',' ∷ (decimal y ++ b')' ∷ []))

-- The part of `lcdxy_store` below the division. `overrun` where the text and its terminator do not
-- fit in `lcdxy`.
unfoldable pub lcdxy_put : LcdPrivateData → ℤ → ℤ → Outcome (Ret × LcdPrivateData × List Event)
lcdxy_put d x y =
    let text : List ℕ = xy_text x y in
    if leb (length text + 1) (length d.lcdxy)
    then done (
      value (length text),
      record d { lcdxy = splice d.lcdxy 0 (text ++ 0 ∷ []) },
      lcd_set_cursor (to_u8 x) (to_u8 y),
    )
    else overrun

unfoldable pub lcdcmd_store : TextApi → List ℕ → ℕ → Ret × List Event
lcdcmd_store api buf size = elim (api.kstrtol buf 0) [
  | parsed n ↦ (value size, lcd_send_command (to_u8 n))
  | refused e ↦ (error e, [])
]

-- sysfs never passes a null `buf`.
unfoldable pub lcdtext_store : List ℕ → ℕ → Outcome (Ret × List Event)
lcdtext_store buf size = elim (lcd_print_string buf) [
  | done es ↦ done (value size, es)
  | overrun ↦ overrun
]

unfoldable pub lcdscroll_store :
    TextApi → LcdPrivateData → List ℕ → ℕ → Ret × LcdPrivateData × List Event
lcdscroll_store api d buf size =
    if api.sysfs_streq buf on
    then (value size, record d { lcd_scroll = 1 }, lcd_send_command 0x18)
    else if api.sysfs_streq buf off
    then (value size, record d { lcd_scroll = 0 }, lcd_send_command 0x2 ++ lcd_send_command 0x10)
    else (error einval, d, [])

-- The size that was written is not looked at.
unfoldable pub lcdxy_store :
    TextApi → LcdPrivateData → List ℕ → ℕ → Outcome (Ret × LcdPrivateData × List Event)
lcdxy_store api d buf size = elim (api.kstrtol buf 10) [
  | refused e ↦ done (error e, d, [])
  | parsed n ↦ lcdxy_put d (to_int (div10 n)) (to_int (mod10 n))
]
