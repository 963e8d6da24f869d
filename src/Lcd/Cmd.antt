-- ===== src/Lcd/Cmd.antt =====
-- custom_drivers/008lcd_platform_driver/lcd.h: the commands of the LCD.
use mad_devicedriver.Prelude.{ℕ}

abbrev pub four_bits_two_lines : ℕ
four_bits_two_lines = 0x28

abbrev pub display_on_cursor_on : ℕ
display_on_cursor_on = 0x0e

abbrev pub inc_add : ℕ
inc_add = 0x06

abbrev pub dis_clear : ℕ
dis_clear = 0x01

abbrev pub dis_return_home : ℕ
dis_return_home = 0x02

abbrev pub set_ddram_address : ℕ
set_ddram_address = 0x80
