-- ===== src/Lcd/Panel.antt =====
-- custom_drivers/008lcd_platform_driver/lcd.c: commands and characters as GPIO events.
use Prim.Native.Nat.{bit_or}
use mad_devicedriver.Prelude.{ℕ, ◌+◌, ◌*◌, ◌/◌, ◌%◌, ◌^◌, List, [], ◌∷◌, ◌++◌, ◌==◌, if◌then◌else◌}
use mad_devicedriver.Kernel.{Outcome, done, overrun}
use mad_devicedriver.Lcd.Cmd
use mad_devicedriver.Lcd.Bus.{
  lcd_rs, lcd_rw, lcd_en, lcd_d4, lcd_d5, lcd_d6, lcd_d7, Event, delay, gpio_configure_dir,
  gpio_write_value,
}

-- mdelay and udelay, in microseconds.
abbrev mdelay : ℕ → List Event
mdelay n = delay (n * 1000) ∷ []

abbrev udelay : ℕ → List Event
udelay n = delay n ∷ []

unfoldable pub lcd_enable : List Event
lcd_enable =
    gpio_write_value lcd_en 0
    ++ udelay 10
    ++ gpio_write_value lcd_en 1
    ++ udelay 10
    ++ gpio_write_value lcd_en 0
    ++ udelay 100

-- `data` is a `uint8_t`; `(data >> k) & 0x1` is `data / 2 ^ k % 2`.
unfoldable pub write_4_bits : ℕ → List Event
unfolding lcd_enable
write_4_bits n =
    gpio_write_value lcd_d4 (n / 2 ^ 0 % 2)
    ++ gpio_write_value lcd_d5 (n / 2 ^ 1 % 2)
    ++ gpio_write_value lcd_d6 (n / 2 ^ 2 % 2)
    ++ gpio_write_value lcd_d7 (n / 2 ^ 3 % 2)
    ++ lcd_enable

unfoldable pub lcd_send_command : ℕ → List Event
unfolding write_4_bits
lcd_send_command command =
    gpio_write_value lcd_rs 0
    ++ gpio_write_value lcd_rw 0
    ++ write_4_bits (command / 2 ^ 4)
    ++ write_4_bits command

unfoldable pub lcd_print_char : ℕ → List Event
unfolding write_4_bits
lcd_print_char n =
    gpio_write_value lcd_rs 1
    ++ gpio_write_value lcd_rw 0
    ++ write_4_bits (n / 2 ^ 4)
    ++ write_4_bits n

-- `overrun` if the loop reads past the memory that `message` points into.
unfoldable pub lcd_print_string : List ℕ → Outcome (List Event)
unfolding lcd_print_char
lcd_print_string [] = overrun
lcd_print_string (c ∷ []) = overrun
lcd_print_string (c ∷ b ∷ rest) =
    let later = lcd_print_string (b ∷ rest) in
    if b == 0
    then done (lcd_print_char c)
    else elim later [ done es ↦ done (lcd_print_char c ++ es) | overrun ↦ overrun ]

unfoldable pub lcd_display_clear : List Event
unfolding lcd_send_command
lcd_display_clear = lcd_send_command Cmd.dis_clear ++ mdelay 2

unfoldable pub lcd_display_return_home : List Event
unfolding lcd_send_command
lcd_display_return_home = lcd_send_command Cmd.dis_return_home ++ mdelay 2

unfoldable pub lcd_deinit : List Event
unfolding lcd_display_clear lcd_display_return_home
lcd_deinit = lcd_display_clear ++ lcd_display_return_home

-- `row` and `column` are of type `u8`: `column--` wraps at 0.
unfoldable pub lcd_set_cursor : ℕ → ℕ → List Event
lcd_set_cursor row column =
    let column' : ℕ = (column + 255) % 256 in
    if row == 1
    then lcd_send_command (bit_or column' Cmd.set_ddram_address)
    else if row == 2
    then lcd_send_command (bit_or column' (bit_or Cmd.set_ddram_address 0x40))
    else []

-- The first part of `lcd_init`: the lines become outputs, and go low.
unfoldable pub lcd_init_lines : List Event
lcd_init_lines =
    gpio_configure_dir lcd_rs 1
    ++ gpio_configure_dir lcd_rw 1
    ++ gpio_configure_dir lcd_en 1
    ++ gpio_configure_dir lcd_d4 1
    ++ gpio_configure_dir lcd_d5 1
    ++ gpio_configure_dir lcd_d6 1
    ++ gpio_configure_dir lcd_d7 1
    ++ gpio_write_value lcd_rs 0
    ++ gpio_write_value lcd_en 0
    ++ gpio_write_value lcd_d4 0
    ++ gpio_write_value lcd_d5 0
    ++ gpio_write_value lcd_d6 0
    ++ gpio_write_value lcd_d7 0
    ++ mdelay 40
    ++ gpio_write_value lcd_rs 0
    ++ gpio_write_value lcd_rw 0

-- The wake-up nibbles.
unfoldable pub lcd_init_nibbles : List Event
unfolding write_4_bits
lcd_init_nibbles =
    write_4_bits 0x03
    ++ mdelay 5
    ++ write_4_bits 0x03
    ++ udelay 150
    ++ write_4_bits 0x03
    ++ write_4_bits 0x02

unfoldable pub lcd_init_commands : List Event
unfolding lcd_send_command lcd_display_clear
lcd_init_commands =
    lcd_send_command Cmd.four_bits_two_lines
    ++ lcd_send_command Cmd.display_on_cursor_on
    ++ lcd_display_clear
    ++ lcd_send_command Cmd.inc_add

unfoldable pub lcd_init : List Event
unfolding lcd_init_lines lcd_init_nibbles lcd_init_commands
lcd_init = lcd_init_lines ++ (lcd_init_nibbles ++ lcd_init_commands)
