-- ===== src/DevRead/Names.antt =====
-- The name of the file that dev_read.c opens, against those of the devices of pcd_n.c beside it.
use mad_devicedriver.Prelude.{ℕ, List, [], ◌∷◌}

-- "pcdev-0", of "/dev/pcdev-0".
abbrev pub file_name : List ℕ
file_name = b'p' ∷ b'c' ∷ b'd' ∷ b'e' ∷ b'v' ∷ b'-' ∷ b'0' ∷ []

-- The character behind "pcdev-".
abbrev number_in : List ℕ → ℕ
number_in (c1 ∷ c2 ∷ c3 ∷ c4 ∷ c5 ∷ c6 ∷ c ∷ cs) = c
number_in _ = 0
