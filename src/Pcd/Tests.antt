-- ===== src/Pcd/Tests.antt =====
-- Runs of the shared file operations on small devices, and the theorems at concrete inputs.
use mad_devicedriver.Prelude.{
  ℕ, ◌+◌, ◌-◌, ◌^◌, ◌≤◌, ◌<◌, min, ◌≡◌, ◌⊎◌, refl, arith, List, [], ◌∷◌, length, get_elem?, slice,
}
use mad_devicedriver.Prelude.Int.{signed64}
use mad_devicedriver.Kernel.{value, error, einval, enomem, done, overrun}
use mad_devicedriver.Kernel.Flat.{flat, flat_laws}
use mad_devicedriver.Pcd.Core.{seek, seek_cur, read_at, write_at}
use mad_devicedriver.Pcd.Seek.{seek_spec, seek-seek_spec}
use mad_devicedriver.Pcd.Transfer.{
  IsPlaced, read_spec, write_spec, read_at-read_spec, write_at-write_spec,
}
use mad_devicedriver.Pcd.Readback.{write_at_footprint, write_read_back}

abbrev eight : List ℕ
eight = 1 ∷ 2 ∷ 3 ∷ 4 ∷ 5 ∷ 6 ∷ 7 ∷ 8 ∷ []

abbrev user : List ℕ
user = 10 ∷ 20 ∷ 30 ∷ 40 ∷ 0 ∷ 0 ∷ 0 ∷ 0 ∷ []

-- `eight` after a write of two, and of three, bytes of `user`.
abbrev clipped : List ℕ
clipped = 1 ∷ 2 ∷ 3 ∷ 4 ∷ 5 ∷ 6 ∷ 10 ∷ 20 ∷ []

abbrev filled : List ℕ
filled = 1 ∷ 2 ∷ 10 ∷ 20 ∷ 30 ∷ 6 ∷ 7 ∷ 8 ∷ []

abbrev user_after : List ℕ
user_after = 10 ∷ 20 ∷ 30 ∷ 40 ∷ 10 ∷ 20 ∷ 30 ∷ 0 ∷ []

seek_back : seek 512 10 (2 ^ 64 - 3) seek_cur ≡ (value 7, 7)
unfolding seek
seek_back = refl

seek_past : seek 512 10 503 seek_cur ≡ (error einval, 10)
unfolding seek
seek_past = refl

read_clipped :
    read_at flat 8 eight 6 user 4 100 ≡ done (value 2, 8, 10 ∷ 20 ∷ 30 ∷ 40 ∷ 7 ∷ 8 ∷ 0 ∷ 0 ∷ [])
unfolding read_at
read_clipped = refl

write_clipped : write_at flat 8 eight 6 user 0 3 ≡ done (value 2, 8, clipped)
unfolding write_at
write_clipped = refl

write_at_end : write_at flat 8 eight 8 user 0 3 ≡ done (error enomem, 8, eight)
unfolding write_at
write_at_end = refl

-- A shrunk `max_size` below the position makes the adjusted count wrap, and the read overruns.
read_past_shrunk : read_at flat 4 eight 6 user 0 1 ≡ overrun
unfolding read_at
read_past_shrunk = refl

seek-seek_spec_example :
    seek 512 500 (2 ^ 63 - 1) seek_cur ≡ seek_spec 512 500 (signed64 (2 ^ 63 - 1)) seek_cur
seek-seek_spec_example =
    seek-seek_spec 512 500 (2 ^ 63 - 1) seek_cur (omega arith) (omega arith) (omega arith)

placed : IsPlaced 8 eight 6
placed = omega arith

read_at-read_spec_example :
    read_at flat 8 eight 6 user 4 100 ≡ done (read_spec flat 8 eight 6 user 4 100)
read_at-read_spec_example = read_at-read_spec flat 8 eight 6 user 4 100 placed (omega arith)

write_at-write_spec_example :
    write_at flat 8 eight 6 user 0 3 ≡ done (write_spec flat 8 eight 6 user 0 3)
write_at-write_spec_example = write_at-write_spec flat 8 eight 6 user 0 3 placed (omega arith)

write_at_footprint_example :
    (length clipped ≡ length eight)
    × ((j : ℕ) → (j < 6) ⊎ (6 + min 3 (8 - 6) ≤ j) → get_elem? clipped j ≡ get_elem? eight j)
write_at_footprint_example =
    write_at_footprint flat flat_laws 8 eight 6 user 0 3 placed (omega arith) write_clipped

write_middle : write_at flat 8 eight 2 user 0 3 ≡ done (value 3, 5, filled)
unfolding write_at
write_middle = refl

read_middle : read_at flat 8 filled 2 user 4 3 ≡ done (value 3, 5, user_after)
unfolding read_at
read_middle = refl

write_read_back_example :
    (◌≡◌ {A = ℕ} 3 3) × (◌≡◌ {A = ℕ} 5 5) × (slice user_after 4 3 ≡ slice user 0 3)
write_read_back_example =
    write_read_back flat flat_laws 8 eight 2 user 0 3 3 user 4 (omega arith) (omega arith)
      write_middle read_middle
