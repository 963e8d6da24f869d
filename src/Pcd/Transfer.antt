-- ===== src/Pcd/Transfer.antt =====
-- `pcd_read` and `pcd_write` against a description with no machine arithmetic: how many bytes move,
-- which, and where the position ends.
use mad_devicedriver.Prelude.{
  ℕ, ◌+◌, ◌-◌, ◌^◌, ◌≤◌, ◌<◌, min, ◌≡◌, arith, List, ◌==◌, if◌then◌else◌, length, slice, splice,
}
use mad_devicedriver.Kernel.{Ret, value, error, efault, enomem, done, Uaccess}
use mad_devicedriver.Pcd.Core.{read_at, write_at, adjust_count}

-- A position in a device whose buffer holds `max_size` bytes.
pub record IsPlaced (max_size : ℕ) (buffer : List ℕ) (f_pos : ℕ) : Type 0 where
  pub fits_int : max_size < 2 ^ 31
  pub backed : max_size ≤ length buffer
  pub within : f_pos ≤ max_size

adjust_count-eq-min :
    (max_size f_pos count : ℕ)
    → max_size < 2 ^ 31
    → f_pos ≤ max_size
    → count < 2 ^ 63
    → adjust_count max_size f_pos count ≡ min count (max_size - f_pos)
unfolding adjust_count
adjust_count-eq-min max_size f_pos count h k c = ground arith

module _ {Mem : Type 0} (u : Uaccess Mem) where
  abbrev pub read_spec : ℕ → List ℕ → ℕ → Mem → ℕ → ℕ → Ret × ℕ × Mem
  read_spec max_size buffer f_pos mem buff count =
      let n : ℕ = min count (max_size - f_pos) in
      let (left, mem') = u.copy_to_user mem buff (slice buffer f_pos n) in
      if left == 0 then (value n, f_pos + n, mem') else (error efault, f_pos, mem')

  abbrev pub write_spec : ℕ → List ℕ → ℕ → Mem → ℕ → ℕ → Ret × ℕ × List ℕ
  write_spec max_size buffer f_pos mem buff count =
      let n : ℕ = min count (max_size - f_pos) in
      let (left, bytes) = u.copy_from_user mem buff n in
      if n == 0
      then (error enomem, f_pos, buffer)
      else if left == 0
      then (value n, f_pos + n, splice buffer f_pos bytes)
      else (error efault, f_pos, splice buffer f_pos bytes)

  -- For a size that an `int` holds, backed by memory, at every position up to it, and for every
  -- count below 2^63: `pcd_read` stays inside the memory and copies the lesser of the count and
  -- what is left after the position, from the position on; it returns that number and advances by
  -- it, or -EFAULT and stays if the copy is cut short.
  pub read_at-read_spec :
      (max_size : ℕ) (buffer : List ℕ) (f_pos : ℕ) (mem : Mem) (buff count : ℕ)
      → IsPlaced max_size buffer f_pos
      → count < 2 ^ 63
      → read_at u max_size buffer f_pos mem buff count
        ≡ done (read_spec max_size buffer f_pos mem buff count)
  unfolding read_at
  read_at-read_spec max_size buffer f_pos mem buff count v c =
      rw (adjust_count-eq-min max_size f_pos count v.fits_int v.within c) (ground arith)

  -- For a size that an `int` holds, backed by memory, at every position up to it, and for every
  -- count below 2^63: `pcd_write` returns -ENOMEM with nothing changed if no byte is to move, and
  -- else stores the lesser of the count and the room after the position, at the position; it
  -- returns that number and advances by it, or -EFAULT and stays if the copy is cut short.
  pub write_at-write_spec :
      (max_size : ℕ) (buffer : List ℕ) (f_pos : ℕ) (mem : Mem) (buff count : ℕ)
      → IsPlaced max_size buffer f_pos
      → count < 2 ^ 63
      → write_at u max_size buffer f_pos mem buff count
        ≡ done (write_spec max_size buffer f_pos mem buff count)
  unfolding write_at
  write_at-write_spec max_size buffer f_pos mem buff count v c =
      rw (adjust_count-eq-min max_size f_pos count v.fits_int v.within c) (ground arith)
