-- ===== src/PcdPlatform/Tests.antt =====
-- Runs of the platform driver: two devices bound, the first removed, a third bound.
use mad_devicedriver.Prelude.{
  ℕ, zero, suc, ◌+◌, ◌≡◌, ◌≢◌, ◌⊎◌, ap, ◌∙◌, refl, arith, List, [], ◌∷◌, true, none, some,
}
use mad_devicedriver.Kernel.{value, done}
use mad_devicedriver.Setup.{replay, nothing, acquire, cdev, device}
use mad_devicedriver.PcdPlatform.{
  PcdevPlatformData, PcdevPrivateData, PcdrvPrivateData, DeviceNode, PlatformDevice, Answers,
  Probed, kzalloc, pcd_platform_driver_probe,
}
use mad_devicedriver.PcdPlatform.Probe.{probe_all_or_nothing}
use mad_devicedriver.PcdPlatform.Numbers.{
  Bus, bind, Reach, here, next, loaded, numbers, countdown, numbers_in_order,
}

abbrev all_well : Answers
all_well = record {
  alloc_pdata = true;
  alloc_dev_data = true;
  alloc_buffer = true;
  cdev_add = none;
  device_create = none;
}

abbrev node : DeviceNode
node = record { serial_num = some "PCDEV1"; size = some 4; perm = some 0x11 }

abbrev pdev : PlatformDevice
pdev = record { of_match = some 0; of_node = some node; platform_data = none; id_entry = 0 }

abbrev pdata : PcdevPlatformData
pdata = record { size = 4; perm = 0x11; serial_number = "PCDEV1" }

abbrev dev : ℕ → PcdevPrivateData
dev n = record { pdata = pdata; buffer = kzalloc 4; dev_num = n }

abbrev counted : ℕ → PcdrvPrivateData
counted n = record { total_devices = n }

abbrev bound_as : ℕ → Probed
bound_as n = record {
  ret = value 0;
  drv = counted (n + 1);
  bound = some (dev n);
  calls = acquire (cdev n) ∷ acquire (device n) ∷ [];
}

probe_runs : (n : ℕ) → pcd_platform_driver_probe (counted n) all_well pdev ≡ done (bound_as n)
unfolding pcd_platform_driver_probe
probe_runs n = refl

abbrev devs : ℕ → List PcdevPrivateData
devs zero = []
devs (suc n) = dev n ∷ devs n

abbrev with_devices : ℕ → Bus
with_devices n = record { drv = counted n; devices = devs n }

Reach-with_devices : (n : ℕ) → Reach loaded (with_devices n)
Reach-with_devices zero = here
Reach-with_devices (suc n) = next (Reach-with_devices n) (bind all_well pdev run refl)
  where
    run :
        pcd_platform_driver_probe (counted n) all_well pdev
        ≡ done (record (bound_as n) { drv = counted (suc n) })
    run = probe_runs n ∙ ap (λ m. done (record (bound_as n) { drv = counted m })) (omega arith)

probe_all_or_nothing_example :
    let l = replay (bound_as 3).calls nothing in
    (l.stray ≡ [])
    × ((((bound_as 3).ret ≡ value 0)
          × (((d : PcdevPrivateData) × ((bound_as 3).bound ≡ some d) × (d.dev_num ≡ 3))
              × ((bound_as 3).drv.total_devices ≡ 3 + 1)
              × (l.held ≡ device 3 ∷ cdev 3 ∷ [])))
        ⊎ (((bound_as 3).ret ≢ value 0)
            × (((bound_as 3).bound ≡ none) × ((bound_as 3).drv ≡ counted 3) × (l.held ≡ []))))
probe_all_or_nothing_example = probe_all_or_nothing (counted 3) all_well pdev (probe_runs 3)

numbers_in_order_example : numbers (devs 2) ≡ countdown 2
numbers_in_order_example = numbers_in_order (Reach-with_devices 2)
