-- ===== src/PcdLock.antt =====
-- custom_drivers/002pseudo_char_driver/pcd_lock.c: the device of pcd.c, with its reads and writes
-- under a mutex. (`pcd_lseek` is not in
-- `pcd_fops`.)
pub mod Laws
pub mod Deadlock
mod Tests
use mad_devicedriver.Prelude.{
  ℕ, ◌≡◌, ◌≢◌, List, [], ◌∷◌, Bool, true, false, not, ◌==◌, if◌then◌else◌, slice, splice, add64,
}
use mad_devicedriver.Kernel.{Ret, value, error, eintr, enomem, efault, Uaccess}
use mad_devicedriver.Pcd.Core.{adjust_count, in_buffer}
use mad_devicedriver.Setup.{Call}
use mad_devicedriver.PcdSingle
use mad_devicedriver.PcdSingle.{dev_mem_size, Answers}

-- `mutex_lock_interruptible` returns 0, or -EINTR, or has not returned yet.
pub data Attempt : Type 0 where
  acquired interrupted waits : Attempt

-- The kernel's mutex: what an attempt at `moment` gives, by whether the mutex is held. `moment`
-- stands for all else that the answer depends on (signals, other lockers).
pub record MutexApi : Type 0 where
  pub attempt : Bool → ℕ → Attempt

-- The documented behaviour: a mutex that is held is not acquired, and one that is free is.
pub record MutexLaws (m : MutexApi) : Type 0 where
  pub exclusive : (moment : ℕ) → m.attempt true moment ≢ acquired
  pub free : (moment : ℕ) → m.attempt false moment ≡ acquired

-- The memory of the device and `pcd_mutex_lock`.
pub record Device : Type 0 where
  pub device_buffer : List ℕ
  pub locked : Bool

-- A call returns with `*f_pos`, user memory and the device, or is still asleep in the lock.
pub data Result (Mem : Type 0) : Type 0 where
  returns : Ret → ℕ → Mem → Device → Result Mem
  asleep : Result Mem
  overrun : Result Mem

abbrev mutex_unlock : Device → Device
mutex_unlock d = record d { locked = false }

module _ {Mem : Type 0} (u : Uaccess Mem) (m : MutexApi) where
  -- The body of `pcd_read` below the lock.
  pub read_locked : Device → ℕ → Mem → ℕ → ℕ → Result Mem
  unfolding adjust_count
  read_locked d f_pos mem buff count =
      let n : ℕ = adjust_count dev_mem_size f_pos count in
      let (left, mem') = u.copy_to_user mem buff (slice d.device_buffer f_pos n) in
      if not (in_buffer d.device_buffer f_pos n)
      then overrun
      else if not (left == 0)
      then returns (error efault) f_pos mem' (mutex_unlock d)
      else returns (value n) (add64 f_pos n) mem' (mutex_unlock d)

  pub pcd_read : Device → ℕ → ℕ → Mem → ℕ → ℕ → Result Mem
  unfolding read_locked
  pcd_read d moment f_pos mem buff count = elim (m.attempt d.locked moment) [
    | waits ↦ asleep
    | interrupted ↦ returns (error eintr) f_pos mem d
    | acquired ↦ read_locked (record d { locked = true }) f_pos mem buff count
  ]

  -- The body of `pcd_write` below the lock; its `!count` branch returns with the lock held.
  pub write_locked : Device → ℕ → Mem → ℕ → ℕ → Result Mem
  unfolding adjust_count
  write_locked d f_pos mem buff count =
      let n : ℕ = adjust_count dev_mem_size f_pos count in
      let (left, bytes) = u.copy_from_user mem buff n in
      let d' : Device = record d { device_buffer = splice d.device_buffer f_pos bytes } in
      if n == 0
      then returns (error enomem) f_pos mem d
      else if not (in_buffer d.device_buffer f_pos n)
      then overrun
      else if not (left == 0)
      then returns (error efault) f_pos mem (mutex_unlock d')
      else returns (value n) (add64 f_pos n) mem (mutex_unlock d')

  pub pcd_write : Device → ℕ → ℕ → Mem → ℕ → ℕ → Result Mem
  unfolding write_locked
  pcd_write d moment f_pos mem buff count = elim (m.attempt d.locked moment) [
    | waits ↦ asleep
    | interrupted ↦ returns (error eintr) f_pos mem d
    | acquired ↦ write_locked (record d { locked = true }) f_pos mem buff count
  ]

-- The rest is that of pcd.c.
abbrev pub pcd_lseek : ℕ → ℕ → ℕ → Ret × ℕ
pcd_lseek = PcdSingle.pcd_lseek

abbrev pub pcd_open : Ret
pcd_open = PcdSingle.pcd_open

abbrev pub pcd_release : Ret
pcd_release = PcdSingle.pcd_release

abbrev pub pcd_driver_init : Answers → Ret × List Call
pcd_driver_init = PcdSingle.pcd_driver_init

abbrev pub pcd_driver_cleanup : List Call
pcd_driver_cleanup = PcdSingle.pcd_driver_cleanup
