-- ===== src/LcdApp/Main.antt =====
-- custom_drivers/007_gpio_sysfs_lcd/lcd_app.c: the program. `set_value` and `direction_output` are its
-- writes to the files of a line.
use mad_devicedriver.Prelude.{◌≡◌, ◌≢◌, ℕ, zero, suc, ◌+◌, ◌-◌, ◌*◌, List, [], ◌∷◌, ◌++◌, length}
use mad_devicedriver.Prelude.Int.{pos}
use mad_devicedriver.Prelude.Decimal.{decimal}
use mad_devicedriver.Kernel.{Outcome, done, overrun}
use mad_devicedriver.Lcd.Bus.{
  Line, lcd_rs, lcd_rw, lcd_en, lcd_d4, lcd_d5, lcd_d6, lcd_d7, Event, direction_output,
}
use mad_devicedriver.LcdApp.Panel.{
  low_value, write_value, usleep, sleep, ddram_first_line_base_addr, ddram_second_line_base_addr,
  lcd_send_command, lcd_print_char, lcd_print_string, lcd_display_clear, lcd_display_return_home,
  lcd_set_cursor, lcd_init, lcd_printf,
}

-- `gpio_configure_dir(label, GPIO_DIR_OUT)`: the driver makes the line an output at level 0.
abbrev pub configure_out : Line → List Event
configure_out line = direction_output line 0 ∷ []

unfoldable pub init_gpios : List Event
init_gpios =
    configure_out lcd_rs
    ++ configure_out lcd_rw
    ++ configure_out lcd_en
    ++ configure_out lcd_d4
    ++ configure_out lcd_d5
    ++ configure_out lcd_d6
    ++ configure_out lcd_d7
    ++ write_value lcd_rs low_value
    ++ write_value lcd_en low_value
    ++ write_value lcd_rw low_value
    ++ write_value lcd_d4 low_value
    ++ write_value lcd_d5 low_value
    ++ write_value lcd_d6 low_value
    ++ write_value lcd_d7 low_value

-- What `localtime` gives.
pub record Tm : Type 0 where
  pub tm_year : ℕ
  pub tm_mon : ℕ
  pub tm_mday : ℕ
  pub tm_hour : ℕ
  pub tm_min : ℕ
  pub tm_sec : ℕ

-- A sequence of calls of which each may leave a buffer.
infixl 4 ◌and_then◌
abbrev pub ◌and_then◌ : Outcome (List Event) → Outcome (List Event) → Outcome (List Event)
done xs and_then done ys = done (xs ++ ys)
done xs and_then overrun = overrun
overrun and_then _ = overrun

-- The texts of the formats "%d-%d-%d" and "%d:%d:%d".
abbrev pub three_numbers : ℕ → ℕ → ℕ → ℕ → List ℕ
three_numbers separator a b c =
    decimal (pos a) ++ (separator ∷ decimal (pos b) ++ (separator ∷ decimal (pos c)))

unfoldable pub print_time_and_date : Tm → Outcome (List Event)
print_time_and_date timeinfo =
    done (lcd_send_command ddram_first_line_base_addr)
    and_then lcd_printf
        (three_numbers b'-' (1900 + timeinfo.tm_year) timeinfo.tm_mon timeinfo.tm_mday)
    and_then done (lcd_send_command ddram_second_line_base_addr)
    and_then lcd_printf (three_numbers b':' timeinfo.tm_hour timeinfo.tm_min timeinfo.tm_sec)

-- "usb0", with its terminator.
abbrev pub iface : List ℕ
iface = b'u' ∷ b's' ∷ b'b' ∷ b'0' ∷ 0 ∷ []

-- `address` is the memory that inet_ntoa gives, with the text of the address in it.
unfoldable pub print_ip_address : List ℕ → Outcome (List Event)
print_ip_address address =
    done (lcd_send_command ddram_first_line_base_addr)
    and_then lcd_print_string iface
    and_then done (lcd_send_command ddram_second_line_base_addr)
    and_then lcd_print_string address

-- One character of a line of stars, and the pause behind it, `n` times.
abbrev pub star_loop : ℕ → List Event
star_loop zero = []
star_loop (suc n) = lcd_print_char b'*' ++ (usleep (75 * 1000) ++ star_loop n)

-- The two lines of stars: the second one from the right, with the cursor moving left (0x04).
abbrev pub line_loop : ℕ → List Event
line_loop zero = []
line_loop (suc n) = star_loop 16 ++ (lcd_set_cursor 2 16 ++ (lcd_send_command 0x04 ++ line_loop n))

unfoldable pub transition_graphics : List Event
transition_graphics =
    sleep 1
    ++ (lcd_set_cursor 1 1
        ++ (lcd_display_clear
            ++ (line_loop 2
                ++ (lcd_set_cursor 1 1
                    ++ (lcd_send_command 0x06 ++ (usleep (450 * 1000) ++ lcd_display_clear))))))

-- The loop that shifts the display to the left, with `n` rounds to go.
abbrev pub shift_loop : ℕ → List Event
shift_loop zero = []
shift_loop (suc n) = lcd_send_command 0x18 ++ (usleep (500 * 1000) ++ shift_loop n)

-- No conversion of vsprintf stands in a format.
abbrev pub NoConversion : List ℕ → Type 0
NoConversion [] = Unit
NoConversion (c ∷ cs) = (c ≢ b'%') × NoConversion cs

-- The documented behaviour of vsprintf for a format that is given without arguments: one without a
-- conversion is copied as it stands. What becomes of any other is left open.
pub record VsprintfLaws (vsprintf : List ℕ → List ℕ) : Type 0 where
  pub copies : (format : List ℕ) → NoConversion format → vsprintf format ≡ format

-- The program: `vsprintf` is the text that vsprintf makes of a format alone, and `msg` the text in
-- `msg_buf`: the line that scanf took, or what stood there before if the line was empty.
module _ (vsprintf : List ℕ → List ℕ) where
  -- What `main` does with the message in one round of its loop, up to the return to home. The message
  -- is the format of the call.
  unfoldable pub show_message : List ℕ → Outcome (List Event)
  show_message msg =
      done lcd_display_clear
      and_then lcd_printf (vsprintf msg)
      and_then done (sleep 1 ++ shift_loop (length msg - 16))
      and_then done (lcd_display_clear ++ lcd_display_return_home)

  -- One round of the loop of `main`.
  unfoldable pub main_round : List ℕ → List ℕ → Tm → Outcome (List Event)
  unfolding show_message
  main_round msg address timeinfo =
      show_message msg
      and_then done transition_graphics
      and_then print_ip_address address
      and_then done (sleep 1 ++ transition_graphics)
      and_then print_time_and_date timeinfo
      and_then done (sleep 1 ++ transition_graphics)

-- Before the loop: the lines and the panel are set up.
unfoldable pub main_start : List Event
main_start = init_gpios ++ lcd_init ++ sleep 1

module _ (vsprintf : List ℕ → List ℕ) where
  -- The loop as far as it got: `moments` has what `localtime` gave in each round. The loop of the
  -- program does not end.
  unfoldable pub main_rounds : List ℕ → List ℕ → List Tm → Outcome (List Event)
  unfolding main_round
  main_rounds msg address [] = done []
  main_rounds msg address (timeinfo ∷ moments) =
      main_round vsprintf msg address timeinfo and_then main_rounds msg address moments

  unfoldable pub main : List ℕ → List ℕ → List Tm → Outcome (List Event)
  unfolding main_start main_rounds
  main msg address moments = done main_start and_then main_rounds msg address moments
