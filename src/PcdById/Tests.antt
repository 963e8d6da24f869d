-- ===== src/PcdById/Tests.antt =====
-- Runs of the driver with the four devices of pcd_device_setup.c: two are bound, the first goes and
-- comes back.
use mad_devicedriver.Prelude.{ℕ, ◌+◌, ◌≡◌, refl, arith, List, [], ◌∷◌, ◌++◌, true, none, some}
use mad_devicedriver.Kernel.{value, done}
use mad_devicedriver.Setup.{acquire, cdev, device, replay, nothing}
use mad_devicedriver.PcdPlatform
use mad_devicedriver.PcdPlatform.{
  PcdevPlatformData, PcdevPrivateData, PcdrvPrivateData, Probed, kzalloc,
}
use mad_devicedriver.PcdById.{
  pcdev_platform_init, pcdev_platform_exit, Answers, pcd_platform_driver_probe, platform_pcdev_1,
  platform_pcdev_2,
}
use mad_devicedriver.PcdById.Numbers.{
  Bound, Bus, bind, remove_any, Reach, here, next, loaded, new_nil, new_cons, IsNumbered,
  numbers_distinct,
}

abbrev all_well : Answers
all_well = record {
  alloc_dev_data = true;
  alloc_buffer = true;
  cdev_add = none;
  device_create = none;
}

abbrev counted : ℕ → PcdrvPrivateData
counted n = record { total_devices = n }

abbrev dev_1 : PcdevPrivateData
dev_1 = record {
  pdata = record { size = 512; perm = 0x11; serial_number = "PCDEVABC1111" };
  buffer = kzalloc 512;
  dev_num = 0;
}

abbrev dev_2 : PcdevPrivateData
dev_2 = record {
  pdata = record { size = 1024; perm = 0x11; serial_number = "PCDEVXYZ2222" };
  buffer = kzalloc 1024;
  dev_num = 1;
}

-- The probe of a device that becomes `d`, with `n` devices bound before it.
abbrev bound_as : ℕ → PcdevPrivateData → Probed
bound_as n d = record {
  ret = value 0;
  drv = counted (n + 1);
  bound = some d;
  calls = acquire (cdev d.dev_num) ∷ acquire (device d.dev_num) ∷ [];
}

binds_1 :
    (n : ℕ)
    → pcd_platform_driver_probe (counted n) all_well platform_pcdev_1 ≡ done (bound_as n dev_1)
unfolding pcd_platform_driver_probe
binds_1 n = refl

binds_2 :
    (n : ℕ)
    → pcd_platform_driver_probe (counted n) all_well platform_pcdev_2 ≡ done (bound_as n dev_2)
unfolding pcd_platform_driver_probe
binds_2 n = refl

abbrev first : Bound
first = record { pdev = platform_pcdev_1; dev_data = dev_1 }

abbrev second : Bound
second = record { pdev = platform_pcdev_2; dev_data = dev_2 }

abbrev with_devices : List Bound → ℕ → Bus
with_devices bs n = record { drv = counted n; devices = bs }

Reach-both : Reach loaded (with_devices (second ∷ first ∷ []) 2)
Reach-both =
    next (next here (bind all_well platform_pcdev_1 new_nil (binds_1 0) refl))
      (bind all_well platform_pcdev_2 (new_cons (omega arith) new_nil) (binds_2 1) refl)

Reach-without_first : Reach loaded (with_devices (second ∷ []) 1)
unfolding PcdPlatform.pcd_platform_driver_remove
Reach-without_first = next Reach-both (remove_any (second ∷ []) [] first refl)

Reach-first_back : Reach loaded (with_devices (first ∷ second ∷ []) 2)
Reach-first_back =
    next Reach-without_first
      (bind all_well platform_pcdev_1 (new_cons (omega arith) new_nil) (binds_1 1) refl)

numbers_distinct_example : IsNumbered (with_devices (first ∷ second ∷ []) 2)
numbers_distinct_example = numbers_distinct Reach-first_back

-- The setup module gives back the devices that it registered; when they are refused it is loaded all
-- the same, and unregisters four devices that are not there.
setup_balances : replay ((pcdev_platform_init none).1 ++ pcdev_platform_exit) nothing ≡ nothing
unfolding pcdev_platform_init pcdev_platform_exit
setup_balances = refl

setup_refused :
    ((pcdev_platform_init (some 12)).0 ≡ value 0)
    × ((replay ((pcdev_platform_init (some 12)).1 ++ pcdev_platform_exit) nothing).stray
        ≡ device 3 ∷ device 2 ∷ device 1 ∷ device 0 ∷ [])
unfolding pcdev_platform_init pcdev_platform_exit
setup_refused = (refl, refl)
