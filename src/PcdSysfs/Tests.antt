-- ===== src/PcdSysfs/Tests.antt =====
-- Runs of the attributes: a device of four bytes is made longer, and shorter; a probe whose files are
-- refused.
use mad_devicedriver.Prelude.{
  ℕ, ◌-◌, ◌≡◌, refl, arith, List, [], ◌∷◌, true, false, none, some, replicate, length-replicate,
}
use mad_devicedriver.Prelude.Int.{pos}
use mad_devicedriver.Prelude.Decimal.{digits}
use mad_devicedriver.Kernel.{value, error, einval, done, overrun, TextApi, parsed, refused}
use mad_devicedriver.Kernel.Flat.{flat}
use mad_devicedriver.Setup.{acquire, cdev, device}
use mad_devicedriver.PcdPlatform
use mad_devicedriver.PcdPlatform.{
  PcdevPlatformData, PcdevPrivateData, PcdrvPrivateData, DeviceNode, PlatformDevice, Answers,
  Probed, kzalloc,
}
use mad_devicedriver.PcdSysfs.{
  Krealloc, KreallocLaws, store_max_size, show_max_size, show_serial_num, pcd_read, pcd_write,
}
use mad_devicedriver.PcdSysfs.Resize.{stale_position_overruns}

-- A kernel's text functions that know the texts "8" and "4".
abbrev text_api : TextApi
text_api = record {
  kstrtol = λ buf base. elim buf [ [] ↦ refused einval | c ∷ cs ↦ parsed (pos (c - 48)) ];
  sysfs_streq = λ a b. false;
}

-- Memory that is there for every size.
abbrev ample : Krealloc
ample = λ old n. some (replicate n 0)

ample_laws : KreallocLaws ample
ample_laws = record { sized = λ old n {new} e. ground (arith, length-replicate {A = ℕ} n 0) }

abbrev short : Krealloc
short = λ old n. none

abbrev dev : PcdevPrivateData
dev = record {
  pdata = record { size = 4; perm = 0x11; serial_number = "PCDEV1" };
  buffer = 0 ∷ 0 ∷ 0 ∷ 0 ∷ [];
  dev_num = 0;
}

abbrev mem : List ℕ
mem = 1 ∷ 2 ∷ 3 ∷ []

abbrev after : PcdevPrivateData → Krealloc → List ℕ → PcdevPrivateData
after d krealloc buf = (store_max_size text_api krealloc d buf 2).1

shows_serial : show_serial_num dev ≡ (value 7, b'P' ∷ b'C' ∷ b'D' ∷ b'E' ∷ b'V' ∷ b'1' ∷ b'\n' ∷ [])
unfolding show_serial_num
shows_serial = refl

shows_size : show_max_size dev ≡ (value 2, b'4' ∷ b'\n' ∷ [])
unfolding show_max_size digits
shows_size = refl

refuses_text : store_max_size text_api ample dev [] 0 ≡ (error einval, dev)
unfolding store_max_size
refuses_text = refl

stale_position_overruns_example :
    (pcd_read flat (after dev ample (b'2' ∷ [])) 4 mem 0 1 ≡ overrun)
    × (pcd_write flat (after dev ample (b'2' ∷ [])) 4 mem 0 1 ≡ overrun)
stale_position_overruns_example =
    stale_position_overruns text_api ample dev (b'2' ∷ []) 2 2 refl (omega arith) flat ample_laws 4
      mem 0 1 refl (omega arith) (omega arith) (omega arith) (omega arith)

abbrev node : DeviceNode
node = record { serial_num = some "PCDEV1"; size = some 4; perm = some 0x11 }

abbrev pdev : PlatformDevice
pdev = record { of_match = some 0; of_node = some node; platform_data = none; id_entry = 0 }

abbrev all_well : Answers
all_well = record {
  alloc_pdata = true;
  alloc_dev_data = true;
  alloc_buffer = true;
  cdev_add = none;
  device_create = none;
}

abbrev one_bound : PcdrvPrivateData
one_bound = record { total_devices = 1 }

abbrev bound_as_one : Probed
bound_as_one = record {
  ret = value 0;
  drv = record { total_devices = 2 };
  bound = some (record dev { buffer = kzalloc 4; dev_num = 1 });
  calls = acquire (cdev 1) ∷ acquire (device 1) ∷ [];
}

without_files : PcdPlatform.pcd_platform_driver_probe one_bound all_well pdev ≡ done bound_as_one
unfolding PcdPlatform.pcd_platform_driver_probe
without_files = refl
