-- ===== src/LcdApp/Loop.antt =====
-- The whole run of the program, from the set-up on: what the controller receives, and the messages
-- that leave their buffer.
use mad_devicedriver.Prelude.{ℕ, ◌+◌, ◌≤◌, ◌<◌, ◌≡◌, refl, List, [], ◌∷◌, ◌++◌, length}
use mad_devicedriver.Kernel.{done, overrun}
use mad_devicedriver.Lcd.Controller.{Levels, Received}
use mad_devicedriver.Lcd.Bus.{Event}
use mad_devicedriver.Lcd.Latch.{Sends, IsText}
use mad_devicedriver.Lcd.Screen.{set_up, init_received}
use mad_devicedriver.LcdApp.Panel.{text_buffer_size}
use mad_devicedriver.LcdApp.Main.{
  NoConversion, VsprintfLaws, Tm, three_numbers, main_round, main_start, main_rounds, main,
}
use mad_devicedriver.LcdApp.Alike.{init-Alike}
use mad_devicedriver.LcdApp.Shown.{
  Sending, Sending-nil, Sending-delay, Alike-Sending, Displays, Displays-done, Displays-and_then,
  lcd_printf-overrun,
}
use mad_devicedriver.LcdApp.Round.{
  wait-Sending, stars, transition_graphics-Sending, message_shown, show_message-Displays, two_lines,
  print_ip_address-Displays,
}
use mad_devicedriver.LcdApp.Clock.{IsTm, print_time_and_date-Displays}

abbrev pub date_text : Tm → List ℕ
date_text t = three_numbers b'-' (1900 + t.tm_year) t.tm_mon t.tm_mday

abbrev pub time_text : Tm → List ℕ
time_text t = three_numbers b':' t.tm_hour t.tm_min t.tm_sec

-- One round: the message, and then with stars before and behind each of them the interface with its
-- address, and the date with the time.
abbrev pub round_shown : List ℕ → List ℕ → Tm → List Received
round_shown msg address t =
    message_shown msg
    ++ stars
    ++ two_lines (b'u' ∷ b's' ∷ b'b' ∷ b'0' ∷ []) address
    ++ stars
    ++ two_lines (date_text t) (time_text t)
    ++ stars

abbrev pub rounds_shown : List ℕ → List ℕ → List Tm → List Received
rounds_shown msg address [] = []
rounds_shown msg address (t ∷ ts) = round_shown msg address t ++ rounds_shown msg address ts

abbrev pub AllTm : List Tm → Type 0
AllTm [] = Unit
AllTm (t ∷ ts) = IsTm t × AllTm ts

module _ (vsprintf : List ℕ → List ℕ) (msg : List ℕ) (c : ℕ) (cs rest : List ℕ)
    (copied : vsprintf msg ≡ msg) (fits : length msg < text_buffer_size)
    (address : IsText (c ∷ cs)) where
  main_round-Displays :
      (t : Tm)
      → IsTm t
      → Displays (main_round vsprintf msg ((c ∷ cs) ++ 0 ∷ rest) t) (round_shown msg (c ∷ cs) t)
  unfolding main_round
  main_round-Displays t v =
      let graphics = transition_graphics-Sending in
      let pause = wait-Sending 1000000 _ _ graphics in
      Displays-and_then _ _ _ _
        (Displays-and_then _ _ _ _
          (Displays-and_then _ _ _ _
            (Displays-and_then _ _ _ _
              (Displays-and_then _ _ _ _ (show_message-Displays vsprintf msg copied fits)
                (Displays-done _ _ graphics))
              (print_ip_address-Displays c cs rest address))
            (Displays-done _ _ pause))
          (print_time_and_date-Displays t v))
        (Displays-done _ _ pause)

  main_rounds-Displays :
      (ts : List Tm)
      → AllTm ts
      → Displays (main_rounds vsprintf msg ((c ∷ cs) ++ 0 ∷ rest) ts) (rounds_shown msg (c ∷ cs) ts)
  unfolding main_rounds
  main_rounds-Displays [] v = Displays-done [] [] Sending-nil
  main_rounds-Displays (t ∷ ts) v =
      Displays-and_then _ _ _ _ (main_round-Displays t v.0) (main_rounds-Displays ts v.1)

main_start-Sending : Sending main_start set_up
unfolding main_start
main_start-Sending =
    Sending-delay 1000000 _ _ (Alike-Sending _ _ _ init-Alike (λ l idle. init_received l idle))

-- A message of at most 31 characters without a '%', a text of at least one character as the address, and
-- dates and times in their documented ranges up to the year 9999, with EN low at the start: for any
-- number of rounds the program leaves no buffer, and the controller receives exactly the set-up, and in
-- each round the printable characters of the message, one shift for each character behind the sixteenth,
-- and the address and the date and the time on two lines each, between lines of stars.
pub main_displayed :
    {vsprintf : List ℕ → List ℕ} (format : VsprintfLaws vsprintf) (msg : List ℕ) (c : ℕ)
    (cs rest : List ℕ) (ts : List Tm) (l : Levels)
    → l.en ≡ 0
    → NoConversion msg
    → length msg < text_buffer_size
    → IsText (c ∷ cs)
    → AllTm ts
    → (es : List Event) × (main vsprintf msg ((c ∷ cs) ++ 0 ∷ rest) ts ≡ done es)
      × Sends l es (set_up ++ rounds_shown msg (c ∷ cs) ts)
unfolding main
main_displayed {vsprintf} format msg c cs rest ts l idle plain fits address v =
    Displays-and_then _ _ _ _ (Displays-done _ _ main_start-Sending)
      (main_rounds-Displays vsprintf msg c cs rest (format.copies msg plain) fits address ts v) l
      idle

-- The program takes messages of up to 80 characters, and the text of one goes into a buffer of 32: with
-- 32 characters or more, and no '%' among them, its first round leaves the buffer.
pub long_message_leaves_buffer :
    {vsprintf : List ℕ → List ℕ} (format : VsprintfLaws vsprintf) (msg address : List ℕ) (t : Tm)
    (ts : List Tm)
    → NoConversion msg
    → text_buffer_size ≤ length msg
    → main vsprintf msg address (t ∷ ts) ≡ overrun
unfolding main
long_message_leaves_buffer {vsprintf} format msg address t ts plain long =
    rw (main, format.copies msg plain, lcd_printf-overrun msg long) refl
