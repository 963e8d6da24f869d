-- ===== src/PenDrv/Tests.antt =====
-- Runs of usb_drv.c.
use mad_devicedriver.Prelude.{ℕ, ◌≡◌, refl, List, [], ◌∷◌, replicate}
use mad_devicedriver.Kernel.{Errno, value}
use mad_devicedriver.Kernel.Flat.{flat}
use mad_devicedriver.PenDrv.{pen_read, pen_write}

abbrev blank : List ℕ
blank = replicate 512 0

abbrev user : List ℕ
user = 1 ∷ 2 ∷ 3 ∷ 4 ∷ []

-- Two bytes of a packet of three.
two_of_three : (pen_read flat blank (0, 7 ∷ 8 ∷ 9 ∷ []) user 1 2).0 ≡ value 2
unfolding pen_read
two_of_three = refl

-- A device that takes nothing, and says so.
abbrev stalled : List ℕ → Errno × ℕ
stalled packet = (32, 0)

-- The write returns what went out, and not the error.
stalled_runs : (pen_write flat blank stalled user 0 4).0 ≡ value 0
unfolding pen_write
stalled_runs = refl
