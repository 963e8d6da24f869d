-- ===== src/Prelude/Decimal.antt =====
-- What `%d` prints, and how C divides: towards zero.
use Prim.Native.Nat.{ℕ, zero, suc, ◌+◌, ◌-◌, ◌/◌, ◌%◌, ◌^◌, ◌≤◌, ◌<◌}
use mathlib.Core.Path.{◌≡◌}
use mathlib.Core.List.{List, [], ◌∷◌, ◌++◌}
use native.Mathlib.Omega.{arith}
use mad_devicedriver.Prelude.Tests.{ltb, if◌then◌else◌}
use mad_devicedriver.Prelude.Lists.{length, length-append}
use mad_devicedriver.Prelude.Int.{ℤ, pos, negsuc}

-- The decimal digits of `n`, as ASCII codes; `f` digits at most, 20 are enough for 64 bits.
unfoldable pub digits : ℕ → ℕ → List ℕ
digits zero n = []
digits (suc f) n =
    let front = digits f (n / 10) in
    if ltb n 10 then (b'0' + n) ∷ [] else front ++ (b'0' + n % 10) ∷ []

abbrev pub decimal : ℤ → List ℕ
decimal (pos n) = digits 20 n
decimal (negsuc n) = b'-' ∷ digits 20 (suc n)

abbrev pub neg : ℕ → ℤ
neg zero = pos 0
neg (suc n) = negsuc n

-- `value / 10` and `value % 10`.
abbrev pub div10 : ℤ → ℤ
div10 (pos n) = pos (n / 10)
div10 (negsuc n) = neg (suc n / 10)

abbrev pub mod10 : ℤ → ℤ
mod10 (pos n) = pos (n % 10)
mod10 (negsuc n) = neg (suc n % 10)

-- Conversions of a `long` to `int` and to `u8` keep the low bits.
abbrev pub to_int : ℤ → ℤ
to_int (pos n) =
    if ltb (n % 2 ^ 32) (2 ^ 31) then pos (n % 2 ^ 32) else negsuc (2 ^ 32 - n % 2 ^ 32 - 1)
to_int (negsuc n) =
    if ltb (n % 2 ^ 32) (2 ^ 31) then negsuc (n % 2 ^ 32) else pos (2 ^ 32 - n % 2 ^ 32 - 1)

abbrev pub to_u8 : ℤ → ℕ
to_u8 (pos n) = n % 256
to_u8 (negsuc n) = 255 - n % 256

pub length-digits_one : (f n : ℕ) → n < 10 → length (digits (suc f) n) ≡ 1
unfolding digits
length-digits_one f n h = ground arith

pub length-digits_more :
    (f n : ℕ) → 10 ≤ n → length (digits (suc f) n) ≡ suc (length (digits f (n / 10)))
unfolding digits
length-digits_more f n h = ground (arith, length-append (digits f (n / 10)) ((b'0' + n % 10) ∷ []))

-- Three digits are enough exactly below 1000.
pub length-digits_le_three : (f n : ℕ) → n < 1000 → length (digits (suc (suc (suc f))) n) ≤ 3
length-digits_le_three f n h = ground (
  arith,
  length-digits_one (suc (suc f)) n,
  length-digits_more (suc (suc f)) n,
  length-digits_one (suc f) (n / 10),
  length-digits_more (suc f) (n / 10),
  length-digits_one f (n / 10 / 10),
)

pub length-digits_pos : (f n : ℕ) → 0 < length (digits (suc f) n)
length-digits_pos f n = ground (arith, length-digits_one f n, length-digits_more f n)

pub length-digits_gt_three : (f n : ℕ) → 1000 ≤ n → 3 < length (digits (suc (suc (suc (suc f)))) n)
length-digits_gt_three f n h = ground (
  arith,
  length-digits_more (suc (suc (suc f))) n,
  length-digits_more (suc (suc f)) (n / 10),
  length-digits_more (suc f) (n / 10 / 10),
  length-digits_pos f (n / 10 / 10 / 10),
)
