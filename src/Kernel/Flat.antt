-- ===== src/Kernel/Flat.antt =====
-- A user memory for the tests: bytes from address 0 on, with a fault past the end. It shows that the
-- assumptions on the user space accessors can be met.
use mad_devicedriver.Prelude.{
  ℕ, ◌+◌, ◌≡◌, refl, arith, List, [], ◌∷◌, leb, if◌then◌else◌, length, slice, splice, replicate,
  length-slice, slice-splice, length-replicate,
}
use mad_devicedriver.Kernel.{Uaccess, UaccessLaws}

abbrev pub flat : Uaccess (List ℕ)
flat = record {
  peek = slice;
  copy_to_user =
      λ m a bs. if leb (a + length bs) (length m) then (0, splice m a bs) else (length bs, m);
  copy_from_user = λ m a n. if leb (a + n) (length m) then (0, slice m a n) else (n, replicate n 0);
}

nil_of_length : (bs : List ℕ) → length bs ≡ 0 → bs ≡ []
nil_of_length [] h = refl
nil_of_length (b ∷ bs) h = absurd (omega arith)

flat_to_user :
    (m : List ℕ) (a : ℕ) (bs : List ℕ)
    → (flat.copy_to_user m a bs).0 ≡ 0
    → flat.peek (flat.copy_to_user m a bs).1 a (length bs) ≡ bs
flat_to_user m a bs h = ground (arith, slice-splice m a bs, nil_of_length bs)

flat_from_user :
    (m : List ℕ) (a n : ℕ)
    → (flat.copy_from_user m a n).0 ≡ 0
    → (flat.copy_from_user m a n).1 ≡ flat.peek m a n
flat_from_user m a n h = ground arith

flat_from_length : (m : List ℕ) (a n : ℕ) → length (flat.copy_from_user m a n).1 ≡ n
flat_from_length m a n = ground (arith, length-slice m a n, length-replicate {A = ℕ} n 0)

pub flat_laws : UaccessLaws flat
flat_laws = record {
  to_user_all = flat_to_user;
  from_user_all = flat_from_user;
  from_user_length = flat_from_length;
}
