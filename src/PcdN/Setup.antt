-- ===== src/PcdN/Setup.antt =====
-- pcd_n.c: what its init and exit functions hold, for every pattern of kernel failures.
use mad_devicedriver.Prelude.{
  ℕ, zero, suc, ◌+◌, ◌≤◌, ◌≡◌, ◌≢◌, ◌⊎◌, refl, ap, ◌∙◌, arith, List, [], ◌∷◌, ◌++◌, false,
}
use mad_devicedriver.Kernel.{value, by_return}
use mad_devicedriver.Setup.{
  Resource, region, class, cdev, device, Ledger, holds, replay, nothing, replay-append,
}
use mad_devicedriver.PcdN.{
  Answers, unwind, class_del, add_devices, pcd_driver_init, pcd_driver_cleanup, no_of_devices,
}

-- What is held once the first `i` devices are up.
abbrev pub up : ℕ → List Resource
up zero = class ∷ region ∷ []
up (suc i) = device i ∷ cdev i ∷ up i

abbrev pub ledger : List Resource → List Resource → Ledger
ledger h s = record { held = h; stray = s }

-- Device `j` is not among the first `i`.
up-lacks : (i j : ℕ) → i ≤ j → (holds (up i) (device j) ≡ false) × (holds (up i) (cdev j) ≡ false)
up-lacks zero j h = (refl, refl)
up-lacks (suc i) j h = ground (arith, up-lacks i j)

unwind-up :
    (i : ℕ) (s : List Resource)
    → replay (unwind i) (ledger (up (suc i)) s) ≡ ledger (class ∷ region ∷ []) s
unfolding unwind
unwind-up zero s = refl
unwind-up (suc i) s = ground (arith, unwind-up i s)

-- `cdev_add` of device `i` failed: the loop starts at a device of which nothing is up.
unwind-fresh :
    (i : ℕ)
    → replay (unwind i) (ledger (up i) []) ≡ ledger (class ∷ region ∷ []) (cdev i ∷ device i ∷ [])
unfolding unwind
unwind-fresh zero = refl
unwind-fresh (suc i) =
    ground (arith, up-lacks (suc i) (suc i), unwind-up i (cdev (suc i) ∷ device (suc i) ∷ []))

-- `device_create` of device `i` failed: its cdev is up.
unwind-half :
    (i : ℕ)
    → replay (unwind i) (ledger (cdev i ∷ up i) []) ≡ ledger (class ∷ region ∷ []) (device i ∷ [])
unfolding unwind
unwind-half zero = refl
unwind-half (suc i) = ground (arith, up-lacks (suc i) (suc i), unwind-up i (device (suc i) ∷ []))

-- All is given back, and neither the class nor the region twice.
abbrev pub Undone : Ledger → Type 0
Undone l = (l.held ≡ []) × (holds l.stray class ≡ false) × (holds l.stray region ≡ false)

add_devices-settles :
    (k : Answers) (rounds i : ℕ)
    → let (ret, calls) = add_devices k rounds i in
      let l = replay calls (ledger (up i) []) in
      (ret ≡ value 0 → l ≡ ledger (up (rounds + i)) []) × (ret ≢ value 0 → Undone l)
unfolding add_devices
add_devices-settles k zero i = (λ e. ground arith, λ e. absurd (e refl))
add_devices-settles k (suc rounds) i = ground (
  arith,
  add_devices-settles k rounds (suc i),
  unwind-fresh i,
  unwind-half i,
  replay-append (unwind i) class_del (ledger (up i) []),
  replay-append (unwind i) class_del (ledger (cdev i ∷ up i) []),
)

pcd_driver_init-settles :
    (k : Answers)
    → let (ret, calls) = pcd_driver_init k in
      let l = replay calls nothing in
      (ret ≡ value 0 → l ≡ ledger (up no_of_devices) []) × (ret ≢ value 0 → Undone l)
unfolding pcd_driver_init
pcd_driver_init-settles k = ground (arith, add_devices-settles k no_of_devices 0)

-- Whatever the kernel answers: an init that returns 0 holds the region, the class and the cdev and
-- device of all four devices; one that does not holds nothing, and has not given back the class or
-- the region twice.
pub init_all_devices_or_nothing :
    (k : Answers)
    → let (ret, calls) = pcd_driver_init k in
      let l = replay calls nothing in
      ((ret ≡ value 0) × (l ≡ ledger (up no_of_devices) [])) ⊎ ((ret ≢ value 0) × Undone l)
init_all_devices_or_nothing k =
    let (held, undone) = pcd_driver_init-settles k in by_return (pcd_driver_init k).0 held undone

-- After an init that returned 0 the exit function leaves nothing held, and nothing is released that
-- is not held.
pub cleanup_all_devices :
    (k : Answers)
    → (pcd_driver_init k).0 ≡ value 0
    → replay ((pcd_driver_init k).1 ++ pcd_driver_cleanup) nothing ≡ nothing
unfolding pcd_driver_cleanup
cleanup_all_devices k e =
    replay-append (pcd_driver_init k).1 pcd_driver_cleanup nothing
    ∙ ap (replay pcd_driver_cleanup) ((pcd_driver_init-settles k).0 e)
    ∙ refl
