-- ===== src/LcdApp/Writes.antt =====
-- The program does nothing to the lines but make them outputs and write to them, whatever its message.
use mad_devicedriver.Prelude.{
  ℕ, zero, suc, ◌+◌, ◌-◌, arith, List, [], ◌∷◌, ◌++◌, Bool, true, false, ◌==◌, ◌&&◌, ltb,
  if◌then◌else◌, length,
}
use mad_devicedriver.Kernel.{Outcome, done, overrun}
use mad_devicedriver.Lcd.Bus.{Event, delay}
use mad_devicedriver.LcdApp.Panel.{
  lcd_send_command, lcd_print_char, lcd_print_string, lcd_display_clear, lcd_display_return_home,
  lcd_set_cursor, lcd_init, print_loop, lcd_printf,
}
use mad_devicedriver.LcdApp.Main.{
  ◌and_then◌, Tm, init_gpios, three_numbers, print_time_and_date, iface, print_ip_address,
  star_loop, line_loop, transition_graphics, shift_loop, show_message, main_round, main_start,
  main_rounds, main,
}
use mad_devicedriver.LcdApp.Driven.{AllWrites}

AllWrites-append : (xs ys : List Event) → AllWrites xs → AllWrites ys → AllWrites (xs ++ ys)
AllWrites-append [] ys p q = q
AllWrites-append (x ∷ xs) ys p q = (p.0, AllWrites-append xs ys p.1 q)

lcd_send_command-AllWrites : (c : ℕ) → AllWrites (lcd_send_command c)
unfolding lcd_send_command
lcd_send_command-AllWrites c = ground arith

lcd_print_char-AllWrites : (c : ℕ) → AllWrites (lcd_print_char c)
unfolding lcd_print_char
lcd_print_char-AllWrites c = ground arith

main_start-AllWrites : AllWrites main_start
unfolding main_start init_gpios lcd_init
main_start-AllWrites = ground arith

ends-AllWrites : AllWrites (lcd_display_clear ++ lcd_display_return_home)
unfolding lcd_display_clear lcd_display_return_home
ends-AllWrites = ground arith

lcd_display_clear-AllWrites : AllWrites lcd_display_clear
unfolding lcd_display_clear
lcd_display_clear-AllWrites = ground arith

lcd_set_cursor-AllWrites : AllWrites (lcd_set_cursor 1 1) × AllWrites (lcd_set_cursor 2 16)
unfolding lcd_set_cursor
lcd_set_cursor-AllWrites = (lcd_send_command-AllWrites 0x80, lcd_send_command-AllWrites 0xcf)

star_loop-AllWrites : (n : ℕ) → AllWrites (star_loop n)
star_loop-AllWrites zero = tt
star_loop-AllWrites (suc n) =
    AllWrites-append (lcd_print_char b'*') _ (lcd_print_char-AllWrites b'*')
      (tt, star_loop-AllWrites n)

shift_loop-AllWrites : (n : ℕ) → AllWrites (shift_loop n)
shift_loop-AllWrites zero = tt
shift_loop-AllWrites (suc n) =
    AllWrites-append (lcd_send_command 0x18) _ (lcd_send_command-AllWrites 0x18)
      (tt, shift_loop-AllWrites n)

line_loop-AllWrites : (n : ℕ) → AllWrites (line_loop n)
line_loop-AllWrites zero = tt
line_loop-AllWrites (suc n) = AllWrites-append (star_loop 16) _ (star_loop-AllWrites 16) (
    AllWrites-append (lcd_set_cursor 2 16) _ lcd_set_cursor-AllWrites.1 (
      AllWrites-append (lcd_send_command 0x04) _ (lcd_send_command-AllWrites 0x04)
        (line_loop-AllWrites n)))

transition_graphics-AllWrites : AllWrites transition_graphics
unfolding transition_graphics
transition_graphics-AllWrites = (
  tt,
  AllWrites-append (lcd_set_cursor 1 1) _ lcd_set_cursor-AllWrites.0 (
      AllWrites-append lcd_display_clear _ lcd_display_clear-AllWrites (
        AllWrites-append (line_loop 2) _ (line_loop-AllWrites 2) (
          AllWrites-append (lcd_set_cursor 1 1) _ lcd_set_cursor-AllWrites.0 (
            AllWrites-append (lcd_send_command 0x06) _ (lcd_send_command-AllWrites 0x06)
              (tt, lcd_display_clear-AllWrites))))),
)

AllWrites-if :
    (b : Bool) (xs ys : List Event) → AllWrites xs → AllWrites ys → AllWrites (if b then xs else ys)
AllWrites-if true xs ys p q = p
AllWrites-if false xs ys p q = q

print_loop-AllWrites : (text : List ℕ) → AllWrites (print_loop text)
unfolding print_loop
print_loop-AllWrites [] = tt
print_loop-AllWrites (c ∷ cs) =
    let shown =
      AllWrites-append (lcd_print_char c) (print_loop cs) (lcd_print_char-AllWrites c)
        (print_loop-AllWrites cs) in
    AllWrites-if (c == 10) _ _ tt
      (AllWrites-if (ltb 0x1f c && ltb c 0x80) _ _ shown (print_loop-AllWrites cs))

-- A run that leaves a buffer has no events to speak of.
abbrev pub OutcomeWrites : Outcome (List Event) → Type 0
OutcomeWrites (done es) = AllWrites es
OutcomeWrites overrun = Unit

OutcomeWrites-and_then :
    (r t : Outcome (List Event)) → OutcomeWrites r → OutcomeWrites t → OutcomeWrites (r and_then t)
OutcomeWrites-and_then (done xs) (done ys) p q = AllWrites-append xs ys p q
OutcomeWrites-and_then (done xs) overrun p q = tt
OutcomeWrites-and_then overrun t p q = tt

OutcomeWrites-if :
    (b : Bool) (r t : Outcome (List Event))
    → OutcomeWrites r
    → OutcomeWrites t
    → OutcomeWrites (if b then r else t)
OutcomeWrites-if true r t p q = p
OutcomeWrites-if false r t p q = q

OutcomeWrites-after :
    (xs : List Event) (r : Outcome (List Event))
    → AllWrites xs
    → OutcomeWrites r
    → OutcomeWrites (elim r [ done es ↦ done (xs ++ es) | overrun ↦ overrun ])
OutcomeWrites-after xs (done es) p q = AllWrites-append xs es p q
OutcomeWrites-after xs overrun p q = tt

lcd_printf-OutcomeWrites : (text : List ℕ) → OutcomeWrites (lcd_printf text)
unfolding lcd_printf
lcd_printf-OutcomeWrites text =
    OutcomeWrites-if (ltb (length text) 32) _ _ (print_loop-AllWrites text) tt

lcd_print_string-OutcomeWrites : (text : List ℕ) → OutcomeWrites (lcd_print_string text)
unfolding lcd_print_string
lcd_print_string-OutcomeWrites [] = tt
lcd_print_string-OutcomeWrites (c ∷ []) = tt
lcd_print_string-OutcomeWrites (c ∷ b ∷ rest) =
    let first = lcd_print_char-AllWrites c in
    OutcomeWrites-if (b == 0) _ _ first (
      OutcomeWrites-after (lcd_print_char c) (lcd_print_string (b ∷ rest)) first
        (lcd_print_string-OutcomeWrites (b ∷ rest)))

two_lines-OutcomeWrites :
    (r t : Outcome (List Event))
    → OutcomeWrites r
    → OutcomeWrites t
    → OutcomeWrites
        (done (lcd_send_command 0x80) and_then r and_then done (lcd_send_command 0xc0) and_then t)
two_lines-OutcomeWrites r t p q =
    let step = OutcomeWrites-and_then in
    step _ t
      (step _ (done (lcd_send_command 0xc0))
        (step (done (lcd_send_command 0x80)) r (lcd_send_command-AllWrites 0x80) p)
        (lcd_send_command-AllWrites 0xc0))
      q

print_ip_address-OutcomeWrites : (address : List ℕ) → OutcomeWrites (print_ip_address address)
unfolding print_ip_address
print_ip_address-OutcomeWrites address =
    two_lines-OutcomeWrites (lcd_print_string iface) (lcd_print_string address)
      (lcd_print_string-OutcomeWrites iface) (lcd_print_string-OutcomeWrites address)

print_time_and_date-OutcomeWrites : (t : Tm) → OutcomeWrites (print_time_and_date t)
unfolding print_time_and_date
print_time_and_date-OutcomeWrites t =
    two_lines-OutcomeWrites _ _
      (lcd_printf-OutcomeWrites (three_numbers b'-' (1900 + t.tm_year) t.tm_mon t.tm_mday))
      (lcd_printf-OutcomeWrites (three_numbers b':' t.tm_hour t.tm_min t.tm_sec))

show_message-OutcomeWrites :
    (vsprintf : List ℕ → List ℕ) (msg : List ℕ) → OutcomeWrites (show_message vsprintf msg)
unfolding show_message
show_message-OutcomeWrites vsprintf msg =
    let step = OutcomeWrites-and_then in
    step _ (done (lcd_display_clear ++ lcd_display_return_home))
      (step _ (done (delay 1000000 ∷ shift_loop (length msg - 16)))
        (step (done lcd_display_clear) (lcd_printf (vsprintf msg)) lcd_display_clear-AllWrites
          (lcd_printf-OutcomeWrites (vsprintf msg)))
        (tt, shift_loop-AllWrites (length msg - 16)))
      ends-AllWrites

main_round-OutcomeWrites :
    (vsprintf : List ℕ → List ℕ) (msg address : List ℕ) (t : Tm)
    → OutcomeWrites (main_round vsprintf msg address t)
unfolding main_round
main_round-OutcomeWrites vsprintf msg address t =
    let step = OutcomeWrites-and_then in
    let stars = transition_graphics-AllWrites in
    let pause = done (delay 1000000 ∷ transition_graphics) in
    step _ pause
      (step _ (print_time_and_date t)
        (step _ pause
          (step _ (print_ip_address address)
            (step (show_message vsprintf msg) (done transition_graphics)
              (show_message-OutcomeWrites vsprintf msg) stars)
            (print_ip_address-OutcomeWrites address))
          (tt, stars))
        (print_time_and_date-OutcomeWrites t))
      (tt, stars)

main_rounds-OutcomeWrites :
    (vsprintf : List ℕ → List ℕ) (msg address : List ℕ) (ts : List Tm)
    → OutcomeWrites (main_rounds vsprintf msg address ts)
unfolding main_rounds
main_rounds-OutcomeWrites vsprintf msg address [] = tt
main_rounds-OutcomeWrites vsprintf msg address (t ∷ ts) =
    OutcomeWrites-and_then _ (main_rounds vsprintf msg address ts)
      (main_round-OutcomeWrites vsprintf msg address t)
      (main_rounds-OutcomeWrites vsprintf msg address ts)

pub main-OutcomeWrites :
    (vsprintf : List ℕ → List ℕ) (msg address : List ℕ) (ts : List Tm)
    → OutcomeWrites (main vsprintf msg address ts)
unfolding main
main-OutcomeWrites vsprintf msg address ts =
    OutcomeWrites-and_then (done main_start) (main_rounds vsprintf msg address ts)
      main_start-AllWrites (main_rounds-OutcomeWrites vsprintf msg address ts)
