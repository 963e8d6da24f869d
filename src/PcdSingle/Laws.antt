-- ===== src/PcdSingle/Laws.antt =====
-- pcd.c: its init takes all that it needs or nothing, and its exit gives all of it back.
use mad_devicedriver.Prelude.{◌≡◌, ◌≢◌, ◌⊎◌, arith, [], ◌∷◌, ◌++◌}
use mad_devicedriver.Kernel.{by_return, value}
use mad_devicedriver.Setup.{region, class, cdev, device, replay, nothing}
use mad_devicedriver.PcdSingle.{Answers, pcd_driver_init, pcd_driver_cleanup}

pcd_driver_init-settles :
    (k : Answers)
    → let (r, calls) = pcd_driver_init k in
      let l = replay calls nothing in
      (l.stray ≡ [])
      × (r ≡ value 0 → l.held ≡ device 0 ∷ class ∷ cdev 0 ∷ region ∷ [])
      × (r ≢ value 0 → l.held ≡ [])
unfolding pcd_driver_init
pcd_driver_init-settles k = ground arith

-- Whatever the kernel answers: an init that returns 0 holds the region, the cdev, the class and the
-- device, an init that does not holds nothing, and neither releases what it does not hold.
pub init_all_or_nothing :
    (k : Answers)
    → let (r, calls) = pcd_driver_init k in
      let l = replay calls nothing in
      (l.stray ≡ [])
      × (((r ≡ value 0) × (l.held ≡ device 0 ∷ class ∷ cdev 0 ∷ region ∷ []))
          ⊎ ((r ≢ value 0) × (l.held ≡ [])))
init_all_or_nothing k =
    let (stray, held, undone) = pcd_driver_init-settles k in
    (stray, by_return (pcd_driver_init k).0 held undone)

-- After an init that returned 0 the exit function of the module leaves nothing held, and nothing is
-- released that is not held.
pub cleanup_after_init :
    (k : Answers)
    → (pcd_driver_init k).0 ≡ value 0
    → replay ((pcd_driver_init k).1 ++ pcd_driver_cleanup) nothing ≡ nothing
unfolding pcd_driver_init pcd_driver_cleanup
cleanup_after_init k h = ground arith
