-- ===== src/LcdApp/Round.antt =====
-- One round of the loop of `main`: what the controller receives, in full, and the messages that leave
-- their buffer.
use mad_devicedriver.Prelude.{
  ℕ, zero, suc, ◌-◌, ◌*◌, ◌<◌, ◌≡◌, sym, subst, arith, List, [], ◌∷◌, ◌++◌, map, length, replicate,
}
use mad_devicedriver.Kernel.{Outcome, done}
use mad_devicedriver.Lcd.Bus.{Event, delay}
use mad_devicedriver.Lcd.Controller.{Received, command, character}
use mad_devicedriver.Lcd.Latch.{delay-Sends, IsText}
use mad_devicedriver.LcdApp.Panel.{
  lcd_send_command, lcd_print_char, lcd_display_clear, lcd_set_cursor, lcd_printf, text_buffer_size,
}
use mad_devicedriver.LcdApp.Main.{
  ◌and_then◌, print_ip_address, star_loop, line_loop, transition_graphics, shift_loop, show_message,
}
use mad_devicedriver.LcdApp.Shown.{
  Sending, Sending-nil, Sending-append, lcd_send_command-Sending, lcd_print_char-Sending,
  lcd_display_clear-Sending, lcd_display_return_home-Sending, printed, Displays, Displays-done,
  Displays-and_then, lcd_print_string-Displays, lcd_printf-Displays,
}

pub wait-Sending :
    (n : ℕ) (es : List Event) (rs : List Received) → Sending es rs → Sending (delay n ∷ es) rs
wait-Sending n es rs s = Sending-append (delay n ∷ []) es [] rs (λ l idle. delay-Sends l n idle) s

star_loop-Sending : (n : ℕ) → Sending (star_loop n) (replicate n (character b'*'))
star_loop-Sending zero = Sending-nil
star_loop-Sending (suc n) =
    Sending-append (lcd_print_char b'*') _ (character b'*' ∷ []) _
      (lcd_print_char-Sending b'*' (omega arith))
      (wait-Sending (75 * 1000) (star_loop n) _ (star_loop-Sending n))

shift_loop-Sending : (n : ℕ) → Sending (shift_loop n) (replicate n (command 0x18))
shift_loop-Sending zero = Sending-nil
shift_loop-Sending (suc n) =
    Sending-append (lcd_send_command 0x18) _ (command 0x18 ∷ []) _
      (lcd_send_command-Sending 0x18 (omega arith))
      (wait-Sending (500 * 1000) (shift_loop n) _ (shift_loop-Sending n))

cursor-Sending :
    Sending (lcd_set_cursor 1 1) (command 0x80 ∷ [])
    × Sending (lcd_set_cursor 2 16) (command 0xcf ∷ [])
unfolding lcd_set_cursor
cursor-Sending =
    (lcd_send_command-Sending 0x80 (omega arith), lcd_send_command-Sending 0xcf (omega arith))

-- Lines of stars, behind each the cursor set to the right end of the second line, moving left.
abbrev pub star_lines : ℕ → List Received
star_lines zero = []
star_lines (suc n) = replicate 16 (character b'*') ++ (command 0xcf ∷ command 0x04 ∷ star_lines n)

line_loop-Sending : (n : ℕ) → Sending (line_loop n) (star_lines n)
line_loop-Sending zero = Sending-nil
line_loop-Sending (suc n) =
    Sending-append (star_loop 16) _ (replicate 16 (character b'*')) _ (star_loop-Sending 16) (
      Sending-append (lcd_set_cursor 2 16) _ (command 0xcf ∷ []) _ cursor-Sending.1 (
        Sending-append (lcd_send_command 0x04) _ (command 0x04 ∷ []) _
          (lcd_send_command-Sending 0x04 (omega arith)) (line_loop-Sending n)))

-- Home, clear, two lines of stars, home, the cursor moving right again, clear.
abbrev pub stars : List Received
stars =
    command 0x80 ∷ command 0x01 ∷ star_lines 2 ++ (command 0x80 ∷ command 0x06 ∷ command 0x01 ∷ [])

pub transition_graphics-Sending : Sending transition_graphics stars
unfolding transition_graphics
transition_graphics-Sending =
    let back = Sending-append (lcd_set_cursor 1 1) _ (command 0x80 ∷ []) _ cursor-Sending.0 (
      Sending-append (lcd_send_command 0x06) _ (command 0x06 ∷ []) _
        (lcd_send_command-Sending 0x06 (omega arith))
        (wait-Sending (450 * 1000) lcd_display_clear _ lcd_display_clear-Sending)) in
    wait-Sending 1000000 _ _ (
      Sending-append (lcd_set_cursor 1 1) _ (command 0x80 ∷ []) _ cursor-Sending.0 (
        Sending-append lcd_display_clear _ (command 0x01 ∷ []) _ lcd_display_clear-Sending
          (Sending-append (line_loop 2) _ (star_lines 2) _ (line_loop-Sending 2) back)))

-- Clear, the message, the shifts to the left, clear, home.
abbrev pub message_shown : List ℕ → List Received
message_shown msg =
    command 0x01 ∷ map character (printed msg)
    ++ replicate (length msg - 16) (command 0x18)
    ++ (command 0x01 ∷ command 0x02 ∷ [])

pub show_message-Displays :
    (vsprintf : List ℕ → List ℕ) (msg : List ℕ)
    → vsprintf msg ≡ msg
    → length msg < text_buffer_size
    → Displays (show_message vsprintf msg) (message_shown msg)
unfolding show_message
show_message-Displays vsprintf msg copied fits =
    let line =
      subst (λ t. Displays (lcd_printf t) (map character (printed msg))) (sym copied)
        (lcd_printf-Displays msg fits) in
    let shifts =
      wait-Sending 1000000 (shift_loop (length msg - 16)) _
        (shift_loop-Sending (length msg - 16)) in
    let ends =
      Sending-append lcd_display_clear _ (command 0x01 ∷ []) _ lcd_display_clear-Sending
        lcd_display_return_home-Sending in
    Displays-and_then _ _ _ _
      (Displays-and_then _ _ _ _
        (Displays-and_then _ _ _ _ (Displays-done _ _ lcd_display_clear-Sending) line)
        (Displays-done _ _ shifts))
      (Displays-done _ _ ends)

-- Two texts on the two lines of the panel.
abbrev pub two_lines : List ℕ → List ℕ → List Received
two_lines a b = command 0x80 ∷ map character a ++ (command 0xc0 ∷ []) ++ map character b

pub two_lines-Displays :
    (r t : Outcome (List Event)) (a b : List ℕ)
    → Displays r (map character a)
    → Displays t (map character b)
    → Displays
        (done (lcd_send_command 0x80) and_then r and_then done (lcd_send_command 0xc0) and_then t)
        (two_lines a b)
two_lines-Displays r t a b p q =
    let first = Displays-done _ _ (lcd_send_command-Sending 0x80 (omega arith)) in
    let second = Displays-done _ _ (lcd_send_command-Sending 0xc0 (omega arith)) in
    Displays-and_then _ _ _ _ (Displays-and_then _ _ _ _ (Displays-and_then _ _ _ _ first p) second)
      q

pub print_ip_address-Displays :
    (c : ℕ) (cs rest : List ℕ)
    → IsText (c ∷ cs)
    → Displays
        (print_ip_address ((c ∷ cs) ++ 0 ∷ rest))
        (two_lines (b'u' ∷ b's' ∷ b'b' ∷ b'0' ∷ []) (c ∷ cs))
unfolding print_ip_address
print_ip_address-Displays c cs rest t =
    two_lines-Displays _ _ (b'u' ∷ b's' ∷ b'b' ∷ b'0' ∷ []) (c ∷ cs)
      (lcd_print_string-Displays b'u' (b's' ∷ b'b' ∷ b'0' ∷ []) [] (omega arith))
      (lcd_print_string-Displays c cs rest t)
