-- ===== src/LcdApp/Shown.antt =====
-- What the controller receives from the parts of the program.
use mathlib.Core.List.{append-nil}
use mad_devicedriver.Prelude.{
  ℕ, ◌≤◌, ◌<◌, ◌≡◌, ◌≢◌, refl, subst, arith, List, [], ◌∷◌, ◌++◌, map, false, Bool-cases, inl, inr,
  ◌==◌, ◌&&◌, leb, if◌then◌else◌, length,
}
use mad_devicedriver.Kernel.{Outcome, done, overrun}
use mad_devicedriver.Lcd.Bus.{Event, delay}
use mad_devicedriver.Lcd.Controller.{Levels, Received, command, character, settle}
use mad_devicedriver.Lcd.Latch.{Sends, Sends-append, delay-Sends, IsText}
use mad_devicedriver.Lcd.Latch
use mad_devicedriver.LcdApp.Panel.{
  lcd_send_command, lcd_print_char, lcd_print_string, lcd_display_clear, lcd_display_return_home,
  text_buffer_size, print_loop, lcd_printf,
}
use mad_devicedriver.LcdApp.Main.{◌and_then◌}
use mad_devicedriver.LcdApp.Alike.{
  Alike, AlikeOutcome, lcd_send_command-Alike, lcd_print_char-Alike, lcd_print_string-Alike,
}

-- Started with EN low, a run sends just the bytes `rs`.
abbrev pub Sending : List Event → List Received → Type 0
Sending es rs = (l : Levels) → l.en ≡ 0 → Sends l es rs

pub Alike-Sending :
    (xs ys : List Event) (rs : List Received) → Alike xs ys → Sending ys rs → Sending xs rs
Alike-Sending xs ys rs same s l idle = record {
  takes = λ later. rw (same l).0 ((s l idle).takes later);
  low = rw (same l).1 (s l idle).low;
}

pub Sending-append :
    (xs ys : List Event) (rs ss : List Received)
    → Sending xs rs
    → Sending ys ss
    → Sending (xs ++ ys) (rs ++ ss)
Sending-append xs ys rs ss p q l idle = Sends-append (p l idle) (q _ (p l idle).low)

pub Sending-nil : Sending [] []
Sending-nil l idle = record { takes = λ later. refl; low = idle }

pub Sending-delay :
    (n : ℕ) (xs : List Event) (rs : List Received) → Sending xs rs → Sending (xs ++ delay n ∷ []) rs
Sending-delay n xs rs p l idle =
    subst (λ ss. Sends l (xs ++ delay n ∷ []) ss) (append-nil rs)
      (Sends-append (p l idle) (delay-Sends _ n (p l idle).low))

pub lcd_send_command-Sending : (c : ℕ) → c < 256 → Sending (lcd_send_command c) (command c ∷ [])
lcd_send_command-Sending c byte =
    Alike-Sending _ _ _ (lcd_send_command-Alike c)
      (λ l idle. Latch.lcd_send_command-Sends l c idle byte)

pub lcd_print_char-Sending : (c : ℕ) → c < 256 → Sending (lcd_print_char c) (character c ∷ [])
lcd_print_char-Sending c byte =
    Alike-Sending _ _ _ (lcd_print_char-Alike c)
      (λ l idle. Latch.lcd_print_char-Sends l c idle byte)

pub lcd_display_clear-Sending : Sending lcd_display_clear (command 0x01 ∷ [])
unfolding lcd_display_clear
lcd_display_clear-Sending = Sending-delay 2000 _ _ (lcd_send_command-Sending 0x01 (omega arith))

pub lcd_display_return_home-Sending : Sending lcd_display_return_home (command 0x02 ∷ [])
unfolding lcd_display_return_home
lcd_display_return_home-Sending =
    Sending-delay 2000 _ _ (lcd_send_command-Sending 0x02 (omega arith))

-- The texts that lcd_printf shows: the printable characters of the first line.
abbrev pub first_line : List ℕ → List ℕ
first_line [] = []
first_line (c ∷ cs) = if c == b'\n' then [] else c ∷ first_line cs

abbrev pub printable_in : List ℕ → List ℕ
printable_in [] = []
printable_in (c ∷ cs) = if leb 0x20 c && leb c 0x7f then c ∷ printable_in cs else printable_in cs

abbrev pub printed : List ℕ → List ℕ
printed text = printable_in (first_line text)

print_loop-nil : print_loop [] ≡ []
unfolding print_loop
print_loop-nil = refl

print_loop-newline : (cs : List ℕ) → print_loop (b'\n' ∷ cs) ≡ []
unfolding print_loop
print_loop-newline cs = refl

print_loop-printable :
    (c : ℕ) (cs : List ℕ)
    → 0x20 ≤ c
    → c ≤ 0x7f
    → (print_loop (c ∷ cs) ≡ lcd_print_char c ++ print_loop cs)
      × (printed (c ∷ cs) ≡ c ∷ printed cs)
unfolding print_loop
print_loop-printable c cs lo hi = (ground arith, ground arith)

print_loop-skipped :
    (c : ℕ) (cs : List ℕ)
    → c ≢ b'\n'
    → (leb 0x20 c && leb c 0x7f) ≡ false
    → (print_loop (c ∷ cs) ≡ print_loop cs) × (printed (c ∷ cs) ≡ printed cs)
unfolding print_loop
print_loop-skipped c cs h k = (ground arith, ground arith)

pub print_loop-Sending : (text : List ℕ) → Sending (print_loop text) (map character (printed text))
print_loop-Sending [] = rw print_loop-nil Sending-nil
print_loop-Sending (c ∷ cs) = elim (Bool-cases (c == b'\n')) [
  | inl e ↦ let nl : c ≡ b'\n' = ground arith in rw (nl, print_loop-newline cs) Sending-nil
  | inr e ↦ elim (Bool-cases (leb 0x20 c && leb c 0x7f)) [
    | inl f ↦
        let (run, text) = print_loop-printable c cs (ground arith) (ground arith) in
        rw (run, text)
          (Sending-append (lcd_print_char c) (print_loop cs) (character c ∷ [])
            (map character (printed cs)) (lcd_print_char-Sending c (ground arith))
            (print_loop-Sending cs))
    | inr f ↦
        let (run, text) = print_loop-skipped c cs (ground arith) f in
        rw (run, text) (print_loop-Sending cs)
  ]
]

-- A run that stays inside its buffers, and sends just the bytes `rs`.
abbrev pub Displays : Outcome (List Event) → List Received → Type 0
Displays r rs = (l : Levels) → l.en ≡ 0 → (es : List Event) × (r ≡ done es) × Sends l es rs

pub Displays-done : (es : List Event) (rs : List Received) → Sending es rs → Displays (done es) rs
Displays-done es rs s l idle = (es, refl, s l idle)

pub Displays-and_then :
    (r t : Outcome (List Event)) (rs ss : List Received)
    → Displays r rs
    → Displays t ss
    → Displays (r and_then t) (rs ++ ss)
Displays-and_then r t rs ss p q l idle =
    let (es, run, sends) = p l idle in
    let (fs, run', sends') = q (settle l es) sends.low in
    (es ++ fs, rw (run, run') refl, Sends-append sends sends')

AlikeOutcome-done :
    (r : Outcome (List Event)) (es : List Event)
    → AlikeOutcome r (done es)
    → (fs : List Event) × (r ≡ done fs) × Alike fs es
AlikeOutcome-done (done fs) es same = (fs, refl, same)
AlikeOutcome-done overrun es same = absurd same

-- A text in memory, with its terminator.
pub lcd_print_string-Displays :
    (c : ℕ) (cs rest : List ℕ)
    → IsText (c ∷ cs)
    → Displays (lcd_print_string ((c ∷ cs) ++ 0 ∷ rest)) (map character (c ∷ cs))
lcd_print_string-Displays c cs rest t l idle =
    let text = (c ∷ cs) ++ 0 ∷ rest in
    let (es, run, sends) = Latch.lcd_print_string-done c cs rest l idle t in
    let same =
      subst (λ r. AlikeOutcome (lcd_print_string text) r) run (lcd_print_string-Alike text) in
    let (fs, run', alike) = AlikeOutcome-done (lcd_print_string text) es same in
    (
      fs,
      run',
      record {
        takes = λ later. rw (alike l).0 (sends.takes later);
        low = rw (alike l).1 sends.low;
      },
    )

-- A formatted text that fits its buffer; a longer one leaves it.
pub lcd_printf-Displays :
    (text : List ℕ)
    → length text < text_buffer_size
    → Displays (lcd_printf text) (map character (printed text))
unfolding lcd_printf
lcd_printf-Displays text fits l idle =
    (print_loop text, ground arith, print_loop-Sending text l idle)

pub lcd_printf-overrun :
    (text : List ℕ) → text_buffer_size ≤ length text → lcd_printf text ≡ overrun
unfolding lcd_printf
lcd_printf-overrun text long = ground arith
