-- ===== src/Prelude/Text.antt =====
-- Texts as C keeps them: bytes up to a NUL, and the bytes of a user's memory.
use mad_devicedriver.Prelude.Tests.{◌==◌, if◌then◌else◌, Bool-cases}
use mad_devicedriver.Prelude.Lists.{length, splice}
use Prim.Native.Nat.{ℕ, zero, suc, ◌≤◌, ◌<◌}
use mathlib.Core.Path.{◌≡◌, refl, ap}
use mathlib.Core.Logic.{inl, inr}
use mathlib.Core.List.{List, [], ◌∷◌, ◌++◌}
use native.Mathlib.Omega.{arith}

-- The bytes before the first NUL: what "%s" prints.
abbrev pub c_string : List ℕ → List ℕ
c_string [] = []
c_string (c ∷ cs) = if c == 0 then [] else c ∷ c_string cs

-- The `n` bytes that the user has from index `i` on.
abbrev pub span : (ℕ → ℕ) → ℕ → ℕ → List ℕ
span user i zero = []
span user i (suc n) = user i ∷ span user (suc i) n

pub length-span : (user : ℕ → ℕ) (i n : ℕ) → length (span user i n) ≡ n
length-span user i zero = refl
length-span user i (suc n) = ap suc (length-span user (suc i) n)

pub splice-one :
    (pre rest : List ℕ) (x y : ℕ) → splice (pre ++ x ∷ rest) (length pre) (y ∷ []) ≡ pre ++ y ∷ rest
splice-one [] [] x y = refl
splice-one [] (z ∷ rest) x y = refl
splice-one (p ∷ pre) rest x y = ap (λ l. p ∷ l) (splice-one pre rest x y)

-- A text ends at its first NUL, and what stands behind a NUL does not matter.
pub c_string-append : (xs rest : List ℕ) → c_string (xs ++ 0 ∷ rest) ≡ c_string xs
c_string-append [] rest = refl
c_string-append (x ∷ xs) rest = ground (arith, c_string-append xs rest)

pub length-c_string : (xs : List ℕ) → length (c_string xs) ≤ length xs
length-c_string [] = omega arith
length-c_string (x ∷ xs) = ground (arith, length-c_string xs)

abbrev pub NoNul : List ℕ → Type 0
NoNul [] = Unit
NoNul (x ∷ xs) = (0 < x) × NoNul xs

pub NoNul-append : (xs ys : List ℕ) → NoNul xs → NoNul ys → NoNul (xs ++ ys)
NoNul-append [] ys h k = k
NoNul-append (x ∷ xs) ys h k = (h.0, NoNul-append xs ys h.1 k)

pub c_string-NoNul : (xs : List ℕ) → NoNul (c_string xs)
c_string-NoNul [] = tt
c_string-NoNul (x ∷ xs) = elim (Bool-cases (x == 0)) [
  | inl nul ↦ rw nul tt
  | inr more ↦ rw more (ground arith, c_string-NoNul xs)
]
