-- ===== src/Prelude/Lists.antt =====
-- Lists measured and indexed by native numbers, under the library's names, and the replacement of
-- a stretch of a list: what a copy into a buffer does.
use Prim.Native.Nat.{ℕ, zero, suc, ◌+◌, ◌-◌, ◌≤◌, ◌<◌, min}
use mathlib.Core.Path.{◌≡◌, refl, ap}
use mathlib.Core.List.{List, [], ◌∷◌, ◌++◌, map}
use mathlib.Core.Option.{Option, none, some}
use native.Mathlib.Omega.{arith}

module _ {ℓ} {A : Type ℓ} where
  abbrev pub length : List A → ℕ
  length [] = 0
  length (x ∷ xs) = suc (length xs)

  abbrev pub get_elem? : List A → ℕ → Option A
  get_elem? [] i = none
  get_elem? (x ∷ xs) zero = some x
  get_elem? (x ∷ xs) (suc i) = get_elem? xs i

  abbrev pub take : ℕ → List A → List A
  take zero xs = []
  take (suc n) [] = []
  take (suc n) (x ∷ xs) = x ∷ take n xs

  abbrev pub drop : ℕ → List A → List A
  drop zero xs = xs
  drop (suc n) [] = []
  drop (suc n) (x ∷ xs) = drop n xs

  abbrev pub replicate : ℕ → A → List A
  replicate zero a = []
  replicate (suc n) a = a ∷ replicate n a

  -- The `n` items from index `i` on.
  abbrev pub slice : List A → ℕ → ℕ → List A
  slice xs i n = take n (drop i xs)

  -- `xs` with the items from index `i` on replaced by `ys`, as far as `xs` reaches.
  abbrev pub splice : List A → ℕ → List A → List A
  splice [] i ys = []
  splice (x ∷ xs) (suc i) ys = x ∷ splice xs i ys
  splice (x ∷ xs) zero [] = x ∷ xs
  splice (x ∷ xs) zero (y ∷ ys) = y ∷ splice xs zero ys

  pub length-append : (xs ys : List A) → length (xs ++ ys) ≡ length xs + length ys
  length-append [] ys = omega arith
  length-append (x ∷ xs) ys = omega (arith, length-append xs ys)

  pub length-take : (n : ℕ) (xs : List A) → length (take n xs) ≡ min n (length xs)
  length-take zero xs = omega arith
  length-take (suc n) [] = omega arith
  length-take (suc n) (x ∷ xs) = omega (arith, length-take n xs)

  pub take-all : (n : ℕ) (xs : List A) → length xs ≤ n → take n xs ≡ xs
  take-all zero [] h = refl
  take-all zero (x ∷ xs) h = absurd (omega arith)
  take-all (suc n) [] h = refl
  take-all (suc n) (x ∷ xs) h = ap (λ l. x ∷ l) (take-all n xs (omega arith))

  pub length-drop : (n : ℕ) (xs : List A) → length (drop n xs) ≡ length xs - n
  length-drop zero xs = omega arith
  length-drop (suc n) [] = omega arith
  length-drop (suc n) (x ∷ xs) = omega (arith, length-drop n xs)

  pub length-replicate : (n : ℕ) (a : A) → length (replicate n a) ≡ n
  length-replicate zero a = refl
  length-replicate (suc n) a = ap suc (length-replicate n a)

module _ {ℓ κ} {A : Type ℓ} {B : Type κ} where
  pub length-map : (xs : List A) (f : A → B) → length (map f xs) ≡ length xs
  length-map [] f = refl
  length-map (x ∷ xs) f = ap suc (length-map xs f)

module _ {ℓ} {A : Type ℓ} where
  pub length-slice : (xs : List A) (i n : ℕ) → i + n ≤ length xs → length (slice xs i n) ≡ n
  length-slice xs i n h = omega (arith, length-take n (drop i xs), length-drop i xs)

  pub length-splice : (xs : List A) (i : ℕ) (ys : List A) → length (splice xs i ys) ≡ length xs
  length-splice [] i ys = refl
  length-splice (x ∷ xs) (suc i) ys = ap suc (length-splice xs i ys)
  length-splice (x ∷ xs) zero [] = refl
  length-splice (x ∷ xs) zero (y ∷ ys) = ap suc (length-splice xs zero ys)

  -- What was put in is found there.
  pub slice-splice :
      (xs : List A) (i : ℕ) (ys : List A)
      → i + length ys ≤ length xs
      → slice (splice xs i ys) i (length ys) ≡ ys
  slice-splice [] zero [] h = refl
  slice-splice [] (suc i) [] h = refl
  slice-splice [] i (y ∷ ys) h = absurd (omega arith)
  slice-splice (x ∷ xs) (suc i) ys h = slice-splice xs i ys (omega arith)
  slice-splice (x ∷ xs) zero [] h = refl
  slice-splice (x ∷ xs) zero (y ∷ ys) h = ap (λ l. y ∷ l) (slice-splice xs zero ys (omega arith))

  -- Every other item stays.
  pub get_elem?-splice_before :
      (xs : List A) (i : ℕ) (ys : List A) (j : ℕ)
      → j < i
      → get_elem? (splice xs i ys) j ≡ get_elem? xs j
  get_elem?-splice_before [] i ys j h = refl
  get_elem?-splice_before (x ∷ xs) zero ys j h = absurd (omega arith)
  get_elem?-splice_before (x ∷ xs) (suc i) ys zero h = refl
  get_elem?-splice_before (x ∷ xs) (suc i) ys (suc j) h =
      get_elem?-splice_before xs i ys j (omega arith)

  pub get_elem?-splice_after :
      (xs : List A) (i : ℕ) (ys : List A) (j : ℕ)
      → i + length ys ≤ j
      → get_elem? (splice xs i ys) j ≡ get_elem? xs j
  get_elem?-splice_after [] i ys j h = refl
  get_elem?-splice_after (x ∷ xs) (suc i) ys zero h = refl
  get_elem?-splice_after (x ∷ xs) (suc i) ys (suc j) h =
      get_elem?-splice_after xs i ys j (omega arith)
  get_elem?-splice_after (x ∷ xs) zero [] j h = refl
  get_elem?-splice_after (x ∷ xs) zero (y ∷ ys) zero h = absurd (omega arith)
  get_elem?-splice_after (x ∷ xs) zero (y ∷ ys) (suc j) h =
      get_elem?-splice_after xs zero ys j (omega arith)
