-- ===== src/PcdLock/Laws.antt =====
-- pcd_lock.c, one call: what moves under the lock, and on which branches the lock is given back.
use mad_devicedriver.Prelude.{ℕ, ◌≡◌, arith, List, Bool, false, ◌==◌}
use mad_devicedriver.Kernel.{Ret, value, error, enomem, Outcome, done, Uaccess}
use mad_devicedriver.PcdSingle
use mad_devicedriver.PcdSingle.{dev_mem_size}
use mad_devicedriver.PcdLock.{MutexApi, MutexLaws, Device, Result, returns, pcd_read, pcd_write}

-- The result of the unlocked operation, with the lock as the call leaves it.
abbrev pub of_read : {Mem : Type 0} → Device → Outcome (Ret × ℕ × Mem) → Result Mem
of_read d (done (r, f_pos, mem)) = returns r f_pos mem d
of_read d Outcome.overrun = Result.overrun

abbrev pub is_enomem : Ret → Bool
is_enomem (value n) = false
is_enomem (error e) = e == enomem

abbrev pub of_write : {Mem : Type 0} → Device → Mem → Outcome (Ret × ℕ × List ℕ) → Result Mem
of_write d mem (done (r, f_pos, buffer)) =
    returns r f_pos mem (record { device_buffer = buffer; locked = is_enomem r })
of_write d mem Outcome.overrun = Result.overrun

module _ {Mem : Type 0} (u : Uaccess Mem) (m : MutexApi) (laws : MutexLaws m) where
  module _ (d : Device) (moment f_pos : ℕ) (mem : Mem) (buff count : ℕ) where
    -- With the lock free, a read is the read of pcd.c, and the lock is free again on every branch
    -- that returns.
    pub read_as_unlocked :
        d.locked ≡ false
        → pcd_read u m d moment f_pos mem buff count
          ≡ of_read d (PcdSingle.pcd_read u d.device_buffer f_pos mem buff count)
    unfolding pcd_read PcdSingle.pcd_read
    read_as_unlocked free = ground (arith, laws.free moment)

    -- With the lock free, a write is the write of pcd.c, and the lock is free again exactly if the
    -- write does not return -ENOMEM.
    pub write_as_unlocked :
        d.locked ≡ false
        → pcd_write u m d moment f_pos mem buff count
          ≡ of_write d mem (PcdSingle.pcd_write u d.device_buffer f_pos mem buff count)
    unfolding pcd_write PcdSingle.pcd_write
    write_as_unlocked free = ground (arith, laws.free moment)
