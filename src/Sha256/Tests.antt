-- ===== src/Sha256/Tests.antt =====
-- A digest shown by sha256_drv.c: sixteen times the bytes 0x0a and 0xb7.
use mad_devicedriver.Prelude.{ℕ, ◌≡◌, refl, List, [], ◌∷◌, ◌++◌, map, replicate}
use mad_devicedriver.Kernel.{done}
use mad_devicedriver.Sha256.{first_digit, show_hash_result, half_is_shown}

abbrev two : List ℕ
two = 0x0a ∷ 0xb7 ∷ []

abbrev eight : List ℕ
eight = two ++ two ++ two ++ two

abbrev digest : List ℕ
digest = eight ++ eight ++ eight ++ eight

half_is_shown_example :
    (rest : List ℕ) × (show_hash_result (replicate 65 7) digest
      ≡ done (map first_digit digest ++ 0 ∷ rest))
half_is_shown_example = half_is_shown (replicate 65 7) digest refl refl

shows_ab : map first_digit two ≡ b'a' ∷ b'b' ∷ []
shows_ab = refl
