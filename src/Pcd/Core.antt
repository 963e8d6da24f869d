-- ===== src/Pcd/Core.antt =====
-- The file operations that the pseudo character drivers share, from
-- custom_drivers/003_pseudo_char_driver_multiple/pcd_n.c. The bodies take `max_size` (an `int`, sign
-- extended where it meets a `loff_t`) and the device's buffer; the drivers pass them in.
use mad_devicedriver.Prelude.{
  ℕ, ◌+◌, List, Bool, not, ◌&&◌, ◌||◌, ltb, leb, ◌==◌, if◌then◌else◌, length, slice, splice, add64,
  sub64, sgt64, is_neg64, test_bit,
}
use mad_devicedriver.Kernel.{
  eperm, enomem, efault, einval, Ret, value, error, Outcome, done, overrun, Uaccess,
}

-- SEEK_SET, SEEK_CUR and SEEK_END of <uapi/linux/fs.h>.
abbrev pub seek_set : ℕ
seek_set = 0

abbrev pub seek_cur : ℕ
seek_cur = 1

abbrev pub seek_end : ℕ
seek_end = 2

-- One case of the switch in `pcd_lseek`: the test of the new position, and the assignment.
unfoldable pub seek_to : ℕ → ℕ → ℕ → Ret × ℕ
seek_to max_size f_pos temp =
    if sgt64 temp max_size || is_neg64 temp then (error einval, f_pos) else (value temp, temp)

-- The switch: what is returned, and the new `filp->f_pos`.
unfoldable pub seek : ℕ → ℕ → ℕ → ℕ → Ret × ℕ
unfolding seek_to
seek max_size f_pos offset whence =
    if whence == seek_set
    then seek_to max_size f_pos offset
    else if whence == seek_cur
    then seek_to max_size f_pos (add64 f_pos offset)
    else if whence == seek_end
    then seek_to max_size f_pos (add64 max_size offset)
    else (error einval, f_pos)

-- "Adjust the 'count'". `*f_pos + count` and the comparison are unsigned: `count` is a `size_t`.
unfoldable pub adjust_count : ℕ → ℕ → ℕ → ℕ
adjust_count max_size f_pos count =
    if ltb max_size (add64 f_pos count) then sub64 max_size f_pos else count

-- Whether `count` bytes from index `f_pos` on lie in a buffer. (No byte is touched at count 0.)
abbrev pub in_buffer : List ℕ → ℕ → ℕ → Bool
in_buffer buffer f_pos count = count == 0 || leb (f_pos + count) (length buffer)

module _ {Mem : Type 0} (u : Uaccess Mem) where
  -- `pcd_read`: what is returned, `*f_pos` and user memory afterwards.
  unfoldable pub read_at : ℕ → List ℕ → ℕ → Mem → ℕ → ℕ → Outcome (Ret × ℕ × Mem)
  unfolding adjust_count
  read_at max_size buffer f_pos mem buff count =
      let n : ℕ = adjust_count max_size f_pos count in
      let (left, mem') = u.copy_to_user mem buff (slice buffer f_pos n) in
      if not (in_buffer buffer f_pos n)
      then overrun
      else if not (left == 0)
      then done (error efault, f_pos, mem')
      else done (value n, add64 f_pos n, mem')

  -- `pcd_write`: what is returned, `*f_pos` and the device's buffer afterwards.
  unfoldable pub write_at : ℕ → List ℕ → ℕ → Mem → ℕ → ℕ → Outcome (Ret × ℕ × List ℕ)
  unfolding adjust_count
  write_at max_size buffer f_pos mem buff count =
      let n : ℕ = adjust_count max_size f_pos count in
      let (left, bytes) = u.copy_from_user mem buff n in
      if n == 0
      then done (error enomem, f_pos, buffer)
      else if not (in_buffer buffer f_pos n)
      then overrun
      else if not (left == 0)
      then done (error efault, f_pos, splice buffer f_pos bytes)
      else done (value n, add64 f_pos n, splice buffer f_pos bytes)

-- The permission codes, and the bits of `filp->f_mode` (FMODE_READ 0x1, FMODE_WRITE 0x2).
abbrev pub rdonly : ℕ
rdonly = 0x01

abbrev pub wronly : ℕ
wronly = 0x10

abbrev pub rdwr : ℕ
rdwr = 0x11

abbrev pub fmode_read : ℕ → Bool
fmode_read mode = test_bit 0 mode

abbrev pub fmode_write : ℕ → Bool
fmode_write mode = test_bit 1 mode

-- 0, or the error.
unfoldable pub check_permission : ℕ → ℕ → Ret
check_permission dev_perm acc_mode =
    if dev_perm == rdwr
    then value 0
    else if dev_perm == rdonly && (fmode_read acc_mode && not (fmode_write acc_mode))
    then value 0
    else if dev_perm == wronly && (fmode_write acc_mode && not (fmode_read acc_mode))
    then value 0
    else error eperm
