-- ===== src/PcdLock/Tests.antt =====
-- Runs of pcd_lock.c, and the theorems at concrete inputs.
use mad_devicedriver.Prelude.{
  ℕ, ◌≡◌, ◌≢◌, refl, arith, List, [], ◌∷◌, Bool, true, false, none, some, replicate, ◌==◌,
  if◌then◌else◌,
}
use mad_devicedriver.Kernel.{value, error, eintr, enomem}
use mad_devicedriver.Kernel.Flat.{flat}
use mad_devicedriver.PcdSingle.{dev_mem_size}
use mad_devicedriver.PcdLock.{
  Attempt, acquired, interrupted, waits, MutexApi, MutexLaws, Device, returns, pcd_write,
}
use mad_devicedriver.PcdLock.Deadlock.{Op, read, write, Starved, All, run, full_write_deadlocks}

-- A mutex whose waiters sleep for ever, but for one signal at moment 7.
abbrev mutex : MutexApi
mutex = record { attempt = attempt }
  where
    attempt : Bool → ℕ → Attempt
    attempt false moment = acquired
    attempt true moment = if moment == 7 then interrupted else waits

mutex_exclusive : (moment : ℕ) → mutex.attempt true moment ≢ acquired
mutex_exclusive moment = ground arith

mutex_laws : MutexLaws mutex
mutex_laws = record { exclusive = mutex_exclusive; free = λ moment. refl }

abbrev user : List ℕ
user = 10 ∷ 20 ∷ 30 ∷ []

abbrev zeroed : List ℕ
zeroed = replicate 512 0

abbrev idle : Device
idle = record { device_buffer = zeroed; locked = false }

-- After a write that found no space, a reader sleeps and a signalled writer gets -EINTR.
after_full :
    run flat mutex (write 1 0 0 2 ∷ write 2 512 0 2 ∷ read 3 0 0 2 ∷ write 7 0 0 2 ∷ []) user idle
    ≡ some (value 2) ∷ some (error enomem) ∷ none ∷ some (error eintr) ∷ []
unfolding run
after_full = refl

full_write_deadlocks_example :
    (d : Device) × (pcd_write flat mutex idle 1 dev_mem_size user 0 2
      ≡ returns (error enomem) dev_mem_size user d)
    × ((ops : List Op) → All Starved (run flat mutex ops user d))
full_write_deadlocks_example =
    full_write_deadlocks flat mutex mutex_laws zeroed 1 user 0 2 (omega arith)
