-- ===== src/GpioSysfs/Unregister.antt =====
-- What gpio_sysfs_remove unregisters, against what gpio_sysfs_probe registered.
use mad_devicedriver.Prelude.{
  ℕ, zero, suc, ◌+◌, ◌-◌, ◌≤◌, ◌≡◌, arith, List, [], ◌∷◌, ◌++◌, length, true, subst, ap, ◌∙◌,
}
use mad_devicedriver.Kernel.{value, done, overrun, Ret, Outcome}
use mad_devicedriver.Setup.{
  Resource, device, Ledger, Call, acquire, replay, nothing, replay-append, holds, remove,
}
use mad_devicedriver.GpioSysfs.{
  Child, Answers, available_children, after_create, create_devices, unregister, gpio_sysfs_probe,
  gpio_sysfs_remove,
}

-- Devices i + n - 1, …, i.
abbrev up : ℕ → ℕ → List Resource
up i zero = []
up i (suc n) = device (n + i) ∷ up i n

abbrev ledger : List Resource → List Resource → Ledger
ledger held stray = record { held = held; stray = stray }

holds-up : (i n : ℕ) → holds (up i (suc n)) (device i) ≡ true
holds-up i zero = ground arith
holds-up i (suc n) = ground (arith, holds-up i n)

remove-up : (i n : ℕ) → remove (device i) (up i (suc n)) ≡ up (suc i) n
remove-up i zero = ground arith
remove-up i (suc n) = ground (arith, remove-up i n)

-- Of `rounds` devices unregistered from `i` on, where the first `n` are there: all go, and the others
-- are stray.
unregister-up :
    (rounds i n : ℕ) (stray : List Resource)
    → n ≤ rounds
    → let l = replay (unregister rounds i) (ledger (up i n) stray) in
      (l.held ≡ []) × (length l.stray ≡ length stray + (rounds - n))
unregister-up zero i zero stray le = ground arith
unregister-up zero i (suc n) stray le = absurd (omega arith)
unregister-up (suc rounds) i zero stray le =
    ground (arith, unregister-up rounds (suc i) 0 (device i ∷ stray))
unregister-up (suc rounds) i (suc n) stray le =
    ground (arith, unregister-up rounds (suc i) n stray, holds-up i n, remove-up i n)

length-available_children : (cs : List Child) → length (available_children cs) ≤ length cs
length-available_children [] = omega arith
length-available_children (c ∷ cs) = ground (arith, length-available_children cs)

after_create-done :
    (i : ℕ) (later : Outcome (Ret × List Call)) {calls : List Call}
    → after_create i later ≡ done (value 0, calls)
    → (rest : List Call) × (later ≡ done (value 0, rest)) × (calls ≡ acquire (device i) ∷ rest)
after_create-done i overrun e = absurd (cc)
after_create-done i (done (ret, rest)) e = (rest, ground arith, ground arith)

create_devices-cons :
    (k : Answers) (c : Child) (cs : List Child) (i : ℕ) {calls : List Call}
    → create_devices k (c ∷ cs) i ≡ done (value 0, calls)
    → after_create i (create_devices k cs (suc i)) ≡ done (value 0, calls)
unfolding create_devices
create_devices-cons k c cs i run = ground arith

create_devices-up :
    (k : Answers) (cs : List Child) (i : ℕ) {calls : List Call}
    → create_devices k cs i ≡ done (value 0, calls)
    → replay calls (ledger (up 0 i) []) ≡ ledger (up 0 (length cs + i)) []
unfolding create_devices
create_devices-up k [] i run = ground arith
create_devices-up k (c ∷ cs) i {calls} run =
    let (rest, later, e) =
      after_create-done i (create_devices k cs (suc i)) (create_devices-cons k c cs i run) in
    let ih = create_devices-up k cs (suc i) later in
    let first : i + 0 ≡ i = omega arith in
    let total : length cs + suc i ≡ suc (length cs) + i = omega arith in
    let ih' = ih ∙ ap (λ m. ledger (up 0 m) []) total in
    rw e (
      subst
        (λ m. replay rest (ledger (device m ∷ up 0 i) []) ≡ ledger (up 0 (suc (length cs) + i)) [])
        first ih')

probe-loop :
    (k : Answers) (children : List Child) {calls : List Call}
    → gpio_sysfs_probe k children ≡ done (value 0, calls)
    → create_devices k (available_children children) 0 ≡ done (value 0, calls)
unfolding gpio_sysfs_probe
probe-loop k children run = ground arith

-- After a probe that returned 0, the remove function unregisters every device that the probe created,
-- and besides one that was never created for every child that is not available.
pub removed_devices :
    (k : Answers) (children : List Child) {calls : List Call}
    → gpio_sysfs_probe k children ≡ done (value 0, calls)
    → let l = replay (calls ++ gpio_sysfs_remove (length children)) nothing in
      (l.held ≡ []) × (length l.stray ≡ length children - length (available_children children))
unfolding gpio_sysfs_remove
removed_devices k children {calls} run =
    let cs : List Child = available_children children in
    let created : replay calls nothing ≡ ledger (up 0 (length cs)) [] =
      create_devices-up k cs 0 (probe-loop k children run)
      ∙ ap (λ m. ledger (up 0 m) []) (omega arith) in
    let (gone, stray) =
      unregister-up (length children) 0 (length cs) [] (length-available_children children) in
    rw (replay-append calls (unregister (length children) 0) nothing, created)
      (gone, omega (arith, stray))
