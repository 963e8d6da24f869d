-- ===== src/PcdSysfs/Failure.antt =====
-- A probe of the driver with attributes whose attribute files are refused.
use mad_devicedriver.Prelude.{ℕ, ◌+◌, ◌≡◌, refl, ap, ◌∙◌, arith, [], ◌∷◌, ◌++◌, none, some}
use mad_devicedriver.Kernel.{Errno, value, error, done}
use mad_devicedriver.Setup.{
  cdev, device, files, Ledger, acquire, release, replay, nothing, replay-append,
}
use mad_devicedriver.PcdPlatform
use mad_devicedriver.PcdPlatform.{PcdrvPrivateData, PlatformDevice, Answers, Probed}
use mad_devicedriver.PcdPlatform.Probe.{pcd_platform_driver_probe-IsSettled}
use mad_devicedriver.PcdSysfs.{pcd_platform_driver_probe}

-- What the driver keeps of a device `n` that it has not bound.
pub record IsLeaked (n : ℕ) (e : Errno) (q : Probed) : Type 0 where
  pub ret : q.ret ≡ error e
  pub unbound : q.bound ≡ none
  pub counted : q.drv.total_devices ≡ n + 1
  pub held : (replay q.calls nothing).held ≡ cdev n ∷ []

replay_node :
    (n : ℕ) (l : Ledger)
    → l.held ≡ device n ∷ cdev n ∷ []
    → (replay (release (device n) ∷ []) l).held ≡ cdev n ∷ []
replay_node n l h = ground arith

-- When all of a probe but the attribute files succeeds, and those are refused with an error, the probe
-- returns that error and binds nothing, but the device stays counted and its cdev stays registered.
pub refused_files_leak :
    (drv : PcdrvPrivateData) (k : Answers) (pdev : PlatformDevice) (e : Errno) {p : Probed}
    → PcdPlatform.pcd_platform_driver_probe drv k pdev ≡ done p
    → p.ret ≡ value 0
    → (q : Probed) × (pcd_platform_driver_probe drv k (some e) pdev ≡ done q)
      × IsLeaked drv.total_devices e q
unfolding pcd_platform_driver_probe
refused_files_leak drv k pdev e {p} run ok =
    let s = pcd_platform_driver_probe-IsSettled drv k pdev run in
    let n : ℕ = drv.total_devices in
    let cs = p.calls ++ release (device n) ∷ [] in
    (
      record { ret = error e; drv = p.drv; bound = none; calls = cs },
      rw (run, ok, pcd_platform_driver_probe) refl,
      record {
        ret = refl;
        unbound = refl;
        counted = s.counted ok;
        held =
            ap (λ (l : Ledger). l.held) (replay-append p.calls (release (device n) ∷ []) nothing)
            ∙ replay_node n (replay p.calls nothing) (s.held ok);
      },
    )

-- When the attribute files are taken too, the probe returns 0 with the device bound, and holds the
-- cdev, the node and the files.
pub accepted_files_held :
    (drv : PcdrvPrivateData) (k : Answers) (pdev : PlatformDevice) {p : Probed}
    → PcdPlatform.pcd_platform_driver_probe drv k pdev ≡ done p
    → p.ret ≡ value 0
    → (q : Probed) × (pcd_platform_driver_probe drv k none pdev ≡ done q)
      × (q.ret ≡ value 0)
      × (q.bound ≡ p.bound)
      × ((replay q.calls nothing).held
          ≡ files drv.total_devices ∷ device drv.total_devices ∷ cdev drv.total_devices ∷ [])
unfolding pcd_platform_driver_probe
accepted_files_held drv k pdev {p} run ok =
    let s = pcd_platform_driver_probe-IsSettled drv k pdev run in
    let n : ℕ = drv.total_devices in
    let cs = p.calls ++ acquire (files n) ∷ [] in
    (
      record p { ret = value 0; calls = cs },
      rw (run, ok, pcd_platform_driver_probe)
          (ap (λ r. done (record p { ret = r; calls = cs })) ok),
      refl,
      refl,
      ap (λ (l : Ledger). l.held) (replay-append p.calls (acquire (files n) ∷ []) nothing)
          ∙ ap (λ held. files n ∷ held) (s.held ok),
    )
