-- ===== src/Pcd/Seek.antt =====
-- `pcd_lseek` against integer arithmetic: the offset is the integer that its `loff_t` stands for,
-- and the target position is a sum that does not wrap.
use mad_devicedriver.Prelude.{
  ℕ, ◌^◌, ◌≤◌, ◌<◌, ◌≡◌, Option, none, some, arith, leb, ◌==◌, if◌then◌else◌,
}
use mad_devicedriver.Prelude.Int.{ℤ, pos, negsuc, ◌+ℤ◌, signed64}
use mad_devicedriver.Kernel.{Ret, value, error, einval}
use mad_devicedriver.Pcd.Core.{seek, seek_set, seek_cur, seek_end}

-- Where an offset counts from; `none` where `whence` is not one of the three codes.
abbrev pub origin : ℕ → ℕ → ℕ → Option ℤ
origin max_size f_pos whence =
    if whence == seek_set
    then some (pos 0)
    else if whence == seek_cur
    then some (pos f_pos)
    else if whence == seek_end
    then some (pos max_size)
    else none

-- The new position is taken exactly if it lies in `[0, max_size]`.
abbrev pub goto_spec : ℕ → ℕ → ℤ → Ret × ℕ
goto_spec max_size f_pos (pos n) = if leb n max_size then (value n, n) else (error einval, f_pos)
goto_spec max_size f_pos (negsuc n) = (error einval, f_pos)

abbrev pub seek_spec : ℕ → ℕ → ℤ → ℕ → Ret × ℕ
seek_spec max_size f_pos offset whence = elim (origin max_size f_pos whence) [
  | none ↦ (error einval, f_pos)
  | some o ↦ goto_spec max_size f_pos (o +ℤ offset)
]

-- For a size that an `int` holds and a position up to it, `pcd_lseek` moves as integer arithmetic
-- says, for every 64-bit offset and every `whence`: also an offset whose sum with the position
-- wraps is refused, and a refused seek leaves the position.
pub seek-seek_spec :
    (max_size f_pos offset whence : ℕ)
    → max_size < 2 ^ 31
    → f_pos ≤ max_size
    → offset < 2 ^ 64
    → seek max_size f_pos offset whence ≡ seek_spec max_size f_pos (signed64 offset) whence
unfolding seek
seek-seek_spec max_size f_pos offset whence size_fits within word = ground arith
