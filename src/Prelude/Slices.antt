-- ===== src/Prelude/Slices.antt =====
-- Stretches of a list: how they split, and what is found of a stretch put at the start.
use Prim.Native.Nat.{ℕ, zero, suc, ◌+◌, ◌-◌, ◌≤◌}
use mathlib.Core.Path.{◌≡◌, refl, sym, ap, ◌∙◌}
use mathlib.Core.List.{List, [], ◌∷◌, ◌++◌}
use native.Mathlib.Omega.{arith}
use mad_devicedriver.Prelude.Lists.{length, take, drop, slice, splice}

module _ {ℓ} {A : Type ℓ} where
  take-splice_start :
      (buffer bytes : List A)
      → length bytes ≤ length buffer
      → take (length bytes) (splice buffer 0 bytes) ≡ bytes
  take-splice_start buffer [] h = refl
  take-splice_start [] (b ∷ bytes) h = absurd (omega arith)
  take-splice_start (a ∷ buffer) (b ∷ bytes) h =
      ap (λ l. b ∷ l) (take-splice_start buffer bytes (omega arith))

  take-none : (n : ℕ) → take {A = A} n [] ≡ []
  take-none zero = refl
  take-none (suc n) = refl

  take-split : (n m : ℕ) (xs : List A) → n ≤ m → take m xs ≡ take n xs ++ take (m - n) (drop n xs)
  take-split zero m xs h = ap (λ k. take k xs) (omega arith)
  take-split (suc n) zero xs h = absurd (omega arith)
  take-split (suc n) (suc m) [] h = sym (take-none _)
  take-split (suc n) (suc m) (x ∷ xs) h =
      let same : suc m - suc n ≡ m - n = omega arith in
      rw same (ap (λ l. x ∷ l) (take-split n m xs (omega arith)))

  drop-none : (n : ℕ) → drop {A = A} n [] ≡ []
  drop-none zero = refl
  drop-none (suc n) = refl

  drop-add : (n m : ℕ) (xs : List A) → drop (n + m) xs ≡ drop m (drop n xs)
  drop-add zero m xs = ap (λ k. drop k xs) (omega arith)
  drop-add (suc n) m [] = drop-none (suc n + m) ∙ sym (drop-none m)
  drop-add (suc n) m (x ∷ xs) = ap (λ k. drop k (x ∷ xs)) moved ∙ drop-add n m xs
    where
      moved : suc n + m ≡ suc (n + m)
      moved = omega arith

  -- A stretch splits at any point of it.
  pub slice-split :
      (xs : List A) (i n m : ℕ) → n ≤ m → slice xs i m ≡ slice xs i n ++ slice xs (i + n) (m - n)
  slice-split xs i n m h =
      take-split n m (drop i xs) h
      ∙ ap (λ l. slice xs i n ++ take (m - n) l) (sym (drop-add i n xs))

  pub slice-splice_start :
      (buffer bytes : List A) (c : ℕ)
      → c ≡ 0
      → length bytes ≤ length buffer
      → slice (splice buffer 0 bytes) c (length bytes - c) ≡ bytes
  slice-splice_start buffer bytes c z h =
      let whole : length bytes - 0 ≡ length bytes = omega arith in
      rw (z, whole) (take-splice_start buffer bytes h)
