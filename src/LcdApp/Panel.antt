-- ===== src/LcdApp/Panel.antt =====
-- custom_drivers/007_gpio_sysfs_lcd/lcd.c: commands, characters and texts as writes to the lines. A
-- `gpio_write_value` on one of the labels of lcd.h is a `set_value` of that line.
use Prim.Native.Nat.{bit_or}
use mad_devicedriver.Prelude.{
  ℕ, ◌+◌, ◌*◌, ◌/◌, ◌%◌, ◌^◌, List, [], ◌∷◌, ◌++◌, ◌==◌, ◌&&◌, ltb, if◌then◌else◌, length,
}
use mad_devicedriver.Kernel.{Outcome, done, overrun}
use mad_devicedriver.LcdApp.Cmd
use mad_devicedriver.Lcd.Bus.{
  Line, lcd_rs, lcd_rw, lcd_en, lcd_d4, lcd_d5, lcd_d6, lcd_d7, Event, set_value, delay,
}

abbrev pub high_value : ℕ
high_value = 1

abbrev pub low_value : ℕ
low_value = 0

abbrev pub ddram_first_line_base_addr : ℕ
ddram_first_line_base_addr = 0x80

abbrev pub ddram_second_line_base_addr : ℕ
ddram_second_line_base_addr = bit_or 0x80 0x40

-- The event stands for the call, also where the file cannot be opened: `Gpio.gpio_write_value` has what
-- the call writes, which is then nothing, and `Driven.run` what the writes do. Its result is not looked
-- at.
abbrev pub write_value : Line → ℕ → List Event
write_value line out_value = set_value line out_value ∷ []

abbrev pub usleep : ℕ → List Event
usleep n = delay n ∷ []

abbrev pub sleep : ℕ → List Event
sleep n = delay (n * 1000000) ∷ []

unfoldable pub lcd_enable : List Event
lcd_enable =
    write_value lcd_en low_value
    ++ usleep 1
    ++ write_value lcd_en high_value
    ++ usleep 1
    ++ write_value lcd_en low_value
    ++ usleep 100

-- `n` is a `uint8_t`; `(n >> k) & 0x1` is `n / 2 ^ k % 2`.
unfoldable pub write_4_bits : ℕ → List Event
unfolding lcd_enable
write_4_bits n =
    write_value lcd_d4 (n / 2 ^ 0 % 2)
    ++ write_value lcd_d5 (n / 2 ^ 1 % 2)
    ++ write_value lcd_d6 (n / 2 ^ 2 % 2)
    ++ write_value lcd_d7 (n / 2 ^ 3 % 2)
    ++ lcd_enable

unfoldable pub lcd_send_command : ℕ → List Event
unfolding write_4_bits
lcd_send_command command =
    write_value lcd_rs low_value
    ++ write_value lcd_rw low_value
    ++ write_4_bits (command / 2 ^ 4)
    ++ write_4_bits command

unfoldable pub lcd_print_char : ℕ → List Event
unfolding write_4_bits
lcd_print_char n =
    write_value lcd_rs high_value
    ++ write_value lcd_rw low_value
    ++ write_4_bits (n / 2 ^ 4)
    ++ write_4_bits n

-- `overrun` if the loop reads past the memory that `message` points into.
unfoldable pub lcd_print_string : List ℕ → Outcome (List Event)
unfolding lcd_print_char
lcd_print_string [] = overrun
lcd_print_string (c ∷ []) = overrun
lcd_print_string (c ∷ b ∷ rest) =
    let later = lcd_print_string (b ∷ rest) in
    if b == 0
    then done (lcd_print_char c)
    else elim later [ done es ↦ done (lcd_print_char c ++ es) | overrun ↦ overrun ]

unfoldable pub lcd_display_clear : List Event
unfolding lcd_send_command
lcd_display_clear = lcd_send_command Cmd.dis_clear ++ usleep 2000

unfoldable pub lcd_display_return_home : List Event
unfolding lcd_send_command
lcd_display_return_home = lcd_send_command Cmd.dis_return_home ++ usleep 2000

unfoldable pub lcd_deinit : List Event
unfolding lcd_display_clear lcd_display_return_home
lcd_deinit = lcd_display_clear ++ lcd_display_return_home

-- `row` and `column` are of type `uint8_t`: `column--` wraps at 0.
unfoldable pub lcd_set_cursor : ℕ → ℕ → List Event
lcd_set_cursor row column =
    let column' : ℕ = (column + 255) % 256 in
    if row == 1
    then lcd_send_command (bit_or column' ddram_first_line_base_addr)
    else if row == 2
    then lcd_send_command (bit_or column' ddram_second_line_base_addr)
    else []

-- The wake-up nibbles; the lines are set up by `init_gpios` of lcd_app.c.
unfoldable pub lcd_init_nibbles : List Event
unfolding write_4_bits
lcd_init_nibbles =
    usleep (40 * 1000)
    ++ write_value lcd_rs low_value
    ++ write_value lcd_rw low_value
    ++ write_4_bits 0x03
    ++ usleep (5 * 1000)
    ++ write_4_bits 0x03
    ++ usleep 100
    ++ write_4_bits 0x03
    ++ write_4_bits 0x02

unfoldable pub lcd_init_commands : List Event
unfolding lcd_send_command lcd_display_clear
lcd_init_commands =
    lcd_send_command Cmd.four_bits_two_lines
    ++ lcd_send_command Cmd.display_on_cursor_on
    ++ lcd_display_clear
    ++ lcd_send_command Cmd.inc_add

unfoldable pub lcd_init : List Event
unfolding lcd_init_nibbles lcd_init_commands
lcd_init = lcd_init_nibbles ++ lcd_init_commands

-- The size of `text_buffer`.
abbrev pub text_buffer_size : ℕ
text_buffer_size = 32

-- The loop of `lcd_printf`. A `char` above 0x7f is not below 0x80 as a `uint32_t` either, with its
-- sign extended or not.
unfoldable pub print_loop : List ℕ → List Event
unfolding lcd_print_char
print_loop [] = []
print_loop (letter ∷ rest) =
    let later = print_loop rest in
    if letter == 10
    then []
    else if ltb 0x1f letter && ltb letter 0x80
    then lcd_print_char letter ++ later
    else later

-- `text` is what vsprintf, which is code outside the repository, makes of the format and its arguments: it
-- and its terminator go to `text_buffer`.
unfoldable pub lcd_printf : List ℕ → Outcome (List Event)
unfolding print_loop
lcd_printf text = if ltb (length text) text_buffer_size then done (print_loop text) else overrun
