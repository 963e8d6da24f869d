-- ===== src/Prelude/Scan.antt =====
-- The kernel's `sscanf` with "%d": blanks, a minus sign, and digits; and what it makes of a number that
-- `sprintf` printed.
use Prim.Native.Nat.{ℕ, zero, suc, ◌+◌, ◌-◌, ◌*◌, ◌/◌, ◌^◌, ◌≤◌, ◌<◌}
use mathlib.Core.Path.{◌≡◌, refl, ap, ◌∙◌}
use mathlib.Core.Bool.{Bool, true, false, ◌&&◌, ◌||◌}
use mathlib.Core.Logic.{inl, inr}
use mathlib.Core.List.{List, [], ◌∷◌, ◌++◌}
use mathlib.Core.Option.{Option, none, some}
use native.Mathlib.Omega.{arith}
use native.Mathlib.Nat.{pow-suc}
use mad_devicedriver.Prelude.Lists.{length}
use mad_devicedriver.Prelude.Tests.{ltb, leb, ◌==◌, if◌then◌else◌, Bool-cases}
use mad_devicedriver.Prelude.Int.{ℤ, pos, negsuc, pos_part, neg_part}
use mad_devicedriver.Prelude.Decimal.{
  digits, decimal, neg, length-digits_pos, length-digits_one, length-digits_more,
}

abbrev pub is_digit : ℕ → Bool
is_digit c = leb b'0' c && leb c b'9'

-- A blank, a tab, a newline and the like.
abbrev pub is_space : ℕ → Bool
is_space c = c == b' ' || (leb 9 c && leb c 13)

-- The value of the digits at the start of a text, behind those that gave `n`.
abbrev pub scan_digits : ℕ → List ℕ → ℕ
scan_digits n [] = n
scan_digits n (c ∷ cs) =
    let rest = scan_digits (n * 10 + (c - b'0')) cs in if is_digit c then rest else n

-- Nothing if no digit is there.
abbrev pub scan_number : List ℕ → Option ℕ
scan_number [] = none
scan_number (c ∷ cs) = if is_digit c then some (scan_digits 0 (c ∷ cs)) else none

abbrev pub scan_signed : List ℕ → Option ℤ
scan_signed [] = none
scan_signed (c ∷ cs) =
    if c == b'-'
    then elim (scan_number cs) [ none ↦ none | some n ↦ some (neg n) ]
    else elim (scan_number (c ∷ cs)) [ none ↦ none | some n ↦ some (pos n) ]

unfoldable pub scan_int : List ℕ → Option ℤ
scan_int [] = none
scan_int (c ∷ cs) = let rest = scan_int cs in if is_space c then rest else scan_signed (c ∷ cs)

-- A text of digits.
abbrev AllDigits : List ℕ → Type 0
AllDigits [] = Unit
AllDigits (c ∷ cs) = (is_digit c ≡ true) × AllDigits cs

AllDigits-append : (xs ys : List ℕ) → AllDigits xs → AllDigits ys → AllDigits (xs ++ ys)
AllDigits-append [] ys h k = k
AllDigits-append (x ∷ xs) ys h k = (h.0, AllDigits-append xs ys h.1 k)

digits-AllDigits : (f n : ℕ) → AllDigits (digits f n)
unfolding digits
digits-AllDigits zero n = tt
digits-AllDigits (suc f) n = elim (Bool-cases (ltb n 10)) [
  | inl one ↦ rw one (ground arith, tt)
  | inr more ↦
      rw more
        (AllDigits-append (digits f (n / 10)) _ (digits-AllDigits f (n / 10)) (ground arith, tt))
]

scan_digits-append :
    (n : ℕ) (xs ys : List ℕ)
    → AllDigits xs
    → scan_digits n (xs ++ ys) ≡ scan_digits (scan_digits n xs) ys
scan_digits-append n [] ys h = refl
scan_digits-append n (x ∷ xs) ys h = rw h.0 (scan_digits-append (n * 10 + (x - b'0')) xs ys h.1)

pub scan_digits-digits : (f n : ℕ) → n < 10 ^ f → scan_digits 0 (digits f n) ≡ n
unfolding digits
scan_digits-digits zero n h = omega arith
scan_digits-digits (suc f) n h = elim (Bool-cases (ltb n 10)) [
  | inl one ↦ rw one (ground arith)
  | inr more ↦
      let front = scan_digits-digits f (n / 10) (omega (arith, pow-suc 10 f)) in
      rw more (
        scan_digits-append 0 (digits f (n / 10)) _ (digits-AllDigits f (n / 10))
        ∙ rw front (ground arith))
]

-- The end of a line behind the digits.
scan_digits-line :
    (n : ℕ) (xs : List ℕ) → AllDigits xs → scan_digits n (xs ++ b'\n' ∷ []) ≡ scan_digits n xs
scan_digits-line n xs h = scan_digits-append n xs _ h

scan_number-line :
    (xs : List ℕ)
    → AllDigits xs
    → 0 < length xs
    → scan_number (xs ++ b'\n' ∷ []) ≡ some (scan_digits 0 xs)
scan_number-line [] h k = absurd (omega arith)
scan_number-line (x ∷ xs) h k = rw h.0 (ap some (scan_digits-line (0 * 10 + (x - b'0')) xs h.1))

scan_int-number :
    (xs : List ℕ)
    → AllDigits xs
    → 0 < length xs
    → scan_int (xs ++ b'\n' ∷ []) ≡ some (pos (scan_digits 0 xs))
unfolding scan_int
scan_int-number [] h k = absurd (omega arith)
scan_int-number (x ∷ xs) h k =
    let digit = h.0 in
    let no_space : is_space x ≡ false = ground (arith, digit) in
    let no_minus : x == b'-' ≡ false = ground (arith, digit) in
    rw (no_space, no_minus, digit)
      (ap (λ m. some (pos m)) (scan_digits-line (0 * 10 + (x - b'0')) xs h.1))

scan_int-negated :
    (xs : List ℕ)
    → AllDigits xs
    → 0 < length xs
    → scan_int (b'-' ∷ xs ++ b'\n' ∷ []) ≡ some (neg (scan_digits 0 xs))
unfolding scan_int
scan_int-negated xs h k = rw (scan_number-line xs h k) refl

-- A line that holds a number of at most 20 digits gives the number.
pub scan_int-decimal :
    (z : ℤ)
    → pos_part z < 10 ^ 20
    → neg_part z < 10 ^ 20
    → scan_int (decimal z ++ b'\n' ∷ []) ≡ some z
scan_int-decimal (pos n) h k =
    scan_int-number (digits 20 n) (digits-AllDigits 20 n) (length-digits_pos 19 n)
    ∙ ap (λ m. some (pos m)) (scan_digits-digits 20 n h)
scan_int-decimal (negsuc n) h k =
    scan_int-negated (digits 20 (suc n)) (digits-AllDigits 20 (suc n))
      (length-digits_pos 19 (suc n))
    ∙ ap (λ m. some (neg m)) (scan_digits-digits 20 (suc n) k)

-- A number below 10^(f + 1) has at most f + 1 digits.
pub length-digits_le : (f g n : ℕ) → n < 10 ^ suc f → length (digits g n) ≤ suc f
unfolding digits
length-digits_le f zero n h = omega arith
length-digits_le zero (suc g) n h = omega (arith, length-digits_one g n)
length-digits_le (suc f) (suc g) n h = elim (Bool-cases (ltb n 10)) [
  | inl one ↦ ground (arith, length-digits_one g n)
  | inr more ↦
      let rest = length-digits_le f g (n / 10) (omega (arith, pow-suc 10 (suc f))) in
      let many : 10 ≤ n = ground arith in omega (arith, rest, length-digits_more g n many)
]
