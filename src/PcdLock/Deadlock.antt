-- ===== src/PcdLock/Deadlock.antt =====
-- pcd_lock.c, many calls: what a write at the end of the device does to all later ones.
use mad_devicedriver.Prelude.{
  ℕ, ◌^◌, ◌<◌, ◌≡◌, ◌≢◌, ◌⊎◌, inl, inr, refl, sym, arith, List, [], ◌∷◌, true, false, Option, none,
  some,
}
use mathlib.Core.Path.{subst}
use mad_devicedriver.Kernel.{Ret, error, eintr, enomem, Uaccess}
use mad_devicedriver.PcdSingle.{dev_mem_size}
use mad_devicedriver.PcdLock.{
  Attempt, acquired, interrupted, waits, MutexApi, MutexLaws, Device, Result, returns, asleep,
  overrun, pcd_read, pcd_write,
}

-- A call of any process, with its own file position.
pub data Op : Type 0 where
  read : (moment f_pos buff count : ℕ) → Op
  write : (moment f_pos buff count : ℕ) → Op

-- Neither returned a count nor changed the device: still asleep in the lock, or -EINTR.
abbrev pub Starved : Option Ret → Type 0
Starved reply = (reply ≡ none) ⊎ (reply ≡ some (error eintr))

abbrev pub All {ℓ κ} : {A : Type ℓ} → (A → Type κ) → List A → Type κ
All P [] = Unit
All P (x ∷ xs) = P x × All P xs

refused-cases : (a : Attempt) → a ≢ acquired → (a ≡ waits) ⊎ (a ≡ interrupted)
refused-cases acquired h = absurd (h refl)
refused-cases interrupted h = inr refl
refused-cases waits h = inl refl

module _ {Mem : Type 0} (u : Uaccess Mem) (m : MutexApi) where
  unfoldable pub call : Op → Mem → Device → Result Mem
  call (read moment f_pos buff count) mem d = pcd_read u m d moment f_pos mem buff count
  call (write moment f_pos buff count) mem d = pcd_write u m d moment f_pos mem buff count

  abbrev reply : Result Mem → Mem → Device → (Mem → Device → List (Option Ret)) → List (Option Ret)
  reply (returns r f_pos mem' d') mem d later = some r ∷ later mem' d'
  reply asleep mem d later = none ∷ later mem d
  reply overrun mem d later = []

  -- The calls in order, with what each has returned by then; `none` is a call that sleeps.
  unfoldable pub run : List Op → Mem → Device → List (Option Ret)
  unfolding call pcd_read pcd_write
  run [] mem d = []
  run (op ∷ ops) mem d = reply (call op mem d) mem d (run ops)

  module _ (laws : MutexLaws m) where
    refused :
        (moment : ℕ) (d : Device)
        → d.locked ≡ true
        → (m.attempt d.locked moment ≡ waits) ⊎ (m.attempt d.locked moment ≡ interrupted)
    refused moment d held =
        refused-cases (m.attempt d.locked moment) (rw held (laws.exclusive moment))

    -- A call that finds the lock held does not get past it.
    call_starves :
        (op : Op) (mem : Mem) (d : Device)
        → d.locked ≡ true
        → (call op mem d ≡ asleep)
          ⊎ ((f_pos : ℕ) × (call op mem d ≡ returns (error eintr) f_pos mem d))
    unfolding call pcd_read pcd_write
    call_starves (read moment f_pos buff count) mem d held = elim (refused moment d held) [
      | inl e ↦ inl (ground arith)
      | inr e ↦ inr (f_pos, ground arith)
    ]
    call_starves (write moment f_pos buff count) mem d held = elim (refused moment d held) [
      | inl e ↦ inl (ground arith)
      | inr e ↦ inr (f_pos, ground arith)
    ]

    run_starves :
        (ops : List Op) (mem : Mem) (d : Device) → d.locked ≡ true → All Starved (run ops mem d)
    unfolding run
    run_starves [] mem d held = tt
    run_starves (op ∷ ops) mem d held = elim (call_starves op mem d held) [
      | inl e ↦ subst starves (sym e) (inl refl, run_starves ops mem d held)
      | inr (p, e) ↦ subst starves (sym e) (inr refl, run_starves ops mem d held)
    ]
      where
        starves : Result Mem → Type 0
        starves x = All Starved (reply x mem d (run ops))

    -- With the lock free, a write at the end of the memory, of any size below 2^63, returns
    -- -ENOMEM, and in no sequence of later reads and writes does a call get past the lock.
    pub full_write_deadlocks :
        (device_buffer : List ℕ) (moment : ℕ) (mem : Mem) (buff count : ℕ)
        → count < 2 ^ 63
        → (d : Device) × (pcd_write u m
              (record { device_buffer = device_buffer; locked = false })
              moment
              dev_mem_size
              mem
              buff
              count
            ≡ returns (error enomem) dev_mem_size mem d)
          × ((ops : List Op) → All Starved (run ops mem d))
    unfolding pcd_write
    full_write_deadlocks device_buffer moment mem buff count small = (
      record { device_buffer = device_buffer; locked = true },
      ground (arith, laws.free moment),
      λ ops. run_starves ops mem _ refl,
    )
