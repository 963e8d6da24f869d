-- ===== src/Lcd/Latch.antt =====
-- What the controller receives from lcd.c: the bytes that were meant, in order and nothing else.
use mathlib.Core.List.{append_assoc}
use mad_devicedriver.Prelude.{ℕ, ◌<◌, ◌≡◌, refl, ap, ◌∙◌, arith, List, [], ◌∷◌, ◌++◌, map}
use mad_devicedriver.Kernel.{done}
use mad_devicedriver.Lcd.Bus.{Event, delay}
use mad_devicedriver.Lcd.Panel.{lcd_send_command, lcd_print_char, lcd_print_string}
use mad_devicedriver.Lcd.Controller.{
  Levels, levels_after, Nibble, Received, command, character, watch, settle, bytes,
}

pub watch-append :
    (xs : List Event) (l : Levels) (ys : List Event)
    → watch l (xs ++ ys) ≡ watch l xs ++ watch (settle l xs) ys
watch-append [] l ys = refl
watch-append (x ∷ xs) l ys = simp (watch-append xs (levels_after l x) ys, append_assoc)

pub settle-append :
    (xs : List Event) (l : Levels) (ys : List Event) → settle l (xs ++ ys) ≡ settle (settle l xs) ys
settle-append [] l ys = refl
settle-append (x ∷ xs) l ys = settle-append xs _ ys

-- Started at levels `l`, the controller takes just the bytes `rs` (whatever nibbles follow), and EN
-- is low at the end.
pub record Sends (l : Levels) (es : List Event) (rs : List Received) : Type 0 where
  pub takes : (later : List Nibble) → bytes (watch l es ++ later) ≡ rs ++ bytes later
  pub low : (settle l es).en ≡ 0

pub lcd_send_command-Sends :
    (l : Levels) (c : ℕ) → l.en ≡ 0 → c < 256 → Sends l (lcd_send_command c) (command c ∷ [])
unfolding lcd_send_command
lcd_send_command-Sends l c idle byte = record { takes = λ later. ground arith; low = ground arith }

pub lcd_print_char-Sends :
    (l : Levels) (c : ℕ) → l.en ≡ 0 → c < 256 → Sends l (lcd_print_char c) (character c ∷ [])
unfolding lcd_print_char
lcd_print_char-Sends l c idle byte = record { takes = λ later. ground arith; low = ground arith }

pub Sends-append :
    {l : Levels} {xs ys : List Event} {rs ss : List Received}
    → Sends l xs rs
    → Sends (settle l xs) ys ss
    → Sends l (xs ++ ys) (rs ++ ss)
Sends-append {l} {xs} {ys} {rs} {ss} p q = record {
  takes = λ later.
      simp (watch-append xs l ys, append_assoc)
        (p.takes (watch (settle l xs) ys ++ later) ∙ ap (λ r. rs ++ r) (q.takes later));
  low = rw (settle-append xs l ys) q.low;
}

pub delay-Sends : (l : Levels) (n : ℕ) → l.en ≡ 0 → Sends l (delay n ∷ []) []
delay-Sends l n idle = record { takes = λ later. refl; low = idle }

-- The bytes of a text, each within a byte and none of them the terminator.
abbrev pub IsText : List ℕ → Type 0
IsText [] = Unit
IsText (c ∷ cs) = (0 < c) × (c < 256) × IsText cs

-- A text in memory, with its terminator.
pub lcd_print_string-done :
    (c : ℕ) (cs rest : List ℕ) (l : Levels)
    → l.en ≡ 0
    → IsText (c ∷ cs)
    → (es : List Event) × (lcd_print_string ((c ∷ cs) ++ 0 ∷ rest) ≡ done es)
      × Sends l es (map character (c ∷ cs))
unfolding lcd_print_string
lcd_print_string-done c [] rest l idle t =
    (lcd_print_char c, refl, lcd_print_char-Sends l c idle t.1)
lcd_print_string-done c (b ∷ bs) rest l idle t =
    let first = lcd_print_char-Sends l c idle t.1 in
    let (es, run, sends) =
      lcd_print_string-done b bs rest (settle l (lcd_print_char c)) first.low t.2 in
    (lcd_print_char c ++ es, ground arith, Sends-append first sends)
