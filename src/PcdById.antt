-- ===== src/PcdById.antt =====
-- custom_drivers/004_pcd_platform_driver: the platform driver whose devices are numbered by their id
-- (pcd_platform_driver.c), and the module that registers four of them (pcd_device_setup.c).
pub mod Numbers
pub mod Tables
mod Tests
use mad_devicedriver.Prelude.{
  ℕ, ◌+◌, List, [], ◌∷◌, Bool, Option, none, some, leb, not, if◌then◌else◌, sext32, map,
}
use mad_devicedriver.Kernel.{Errno, enomem, einval, Ret, value, Outcome, done, overrun, Uaccess}
use mad_devicedriver.Pcd.Core
use mad_devicedriver.Pcd.Core.{rdonly, wronly, rdwr}
use mad_devicedriver.Setup.{if_granted, cdev, device, Call, acquire, release}
use mad_devicedriver.PcdPlatform
use mad_devicedriver.PcdPlatform.{
  PcdevPlatformData, PcdevPrivateData, PcdrvPrivateData, Probed, refuse, kzalloc, config_entries,
}

-- `id_entry` is the `driver_data` of the platform id that matched.
pub record PlatformDevice : Type 0 where
  pub id : ℕ
  pub platform_data : Option PcdevPlatformData
  pub id_entry : ℕ

-- How the kernel answers during a probe; `false` is a devm_kzalloc that returns NULL.
pub record Answers : Type 0 where
  pub alloc_dev_data : Bool
  pub alloc_buffer : Bool
  pub cdev_add : Option Errno
  pub device_create : Option Errno

-- From "Dynamically allocate memory for the device buffer" on.
unfoldable pub register_device : PcdrvPrivateData → Answers → ℕ → PcdevPlatformData → Outcome Probed
register_device drv k id pdata =
    if not k.alloc_buffer then refuse drv enomem [] else elim k.cdev_add [
      | some e ↦ refuse drv e []
      | none ↦ elim k.device_create [
        | some e ↦ refuse drv e (acquire (cdev id) ∷ release (cdev id) ∷ [])
        | none ↦ done (record {
          ret = value 0;
          drv = record drv { total_devices = drv.total_devices + 1 };
          bound =
              some (record { pdata = pdata; buffer = kzalloc (sext32 pdata.size); dev_num = id });
          calls = acquire (cdev id) ∷ acquire (device id) ∷ [];
        })
      ]
    ]

-- `overrun` where `pcdev_config[driver_data]` is read past its end.
unfoldable pub pcd_platform_driver_probe :
    PcdrvPrivateData → Answers → PlatformDevice → Outcome Probed
unfolding register_device
pcd_platform_driver_probe drv k pdev = elim pdev.platform_data [
  | none ↦ refuse drv einval []
  | some pdata ↦
      if not k.alloc_dev_data
      then refuse drv enomem []
      else if leb config_entries pdev.id_entry
      then overrun
      else register_device drv k pdev.id pdata
]

-- The other functions are those of custom_drivers/005_pcd_platform_driver_dt.
abbrev pub pcd_platform_driver_remove :
    PcdrvPrivateData → PcdevPrivateData → PcdrvPrivateData × List Call
pcd_platform_driver_remove = PcdPlatform.pcd_platform_driver_remove

abbrev pub pcd_platform_driver_init : Option Errno → Option Errno → Option Errno → Ret × List Call
pcd_platform_driver_init = PcdPlatform.pcd_platform_driver_init

abbrev pub pcd_platform_driver_cleanup : List Call
pcd_platform_driver_cleanup = PcdPlatform.pcd_platform_driver_cleanup

abbrev pub pcd_lseek : PcdevPrivateData → ℕ → ℕ → ℕ → Ret × ℕ
pcd_lseek = PcdPlatform.pcd_lseek

abbrev pub pcd_read :
    {Mem : Type 0} → Uaccess Mem → PcdevPrivateData → ℕ → Mem → ℕ → ℕ → Outcome (Ret × ℕ × Mem)
pcd_read u = PcdPlatform.pcd_read u

abbrev pub pcd_write :
    {Mem : Type 0} → Uaccess Mem → PcdevPrivateData → ℕ → Mem → ℕ → ℕ → Outcome (Ret × ℕ × List ℕ)
pcd_write u = PcdPlatform.pcd_write u

abbrev pub pcd_open : PcdevPrivateData → ℕ → Ret
pcd_open = PcdPlatform.pcd_open

-- The same tests as in custom_drivers/003_pseudo_char_driver_multiple, and a release that only logs.
abbrev pub check_permission : ℕ → ℕ → Ret
check_permission dev_perm acc_mode = Core.check_permission dev_perm acc_mode

abbrev pub pcd_release : Ret
pcd_release = value 0

-- pcd_device_setup.c: the four devices that platform_add_devices registers, in this order.
abbrev pub platform_pcdev_1 : PlatformDevice
platform_pcdev_1 = record {
  id = 0;
  platform_data = some (record { size = 512; perm = rdwr; serial_number = "PCDEVABC1111" });
  id_entry = 0;
}

abbrev pub platform_pcdev_2 : PlatformDevice
platform_pcdev_2 = record {
  id = 1;
  platform_data = some (record { size = 1024; perm = rdwr; serial_number = "PCDEVXYZ2222" });
  id_entry = 1;
}

abbrev pub platform_pcdev_3 : PlatformDevice
platform_pcdev_3 = record {
  id = 2;
  platform_data = some (record { size = 128; perm = rdonly; serial_number = "PCDEVXYZ3333" });
  id_entry = 2;
}

abbrev pub platform_pcdev_4 : PlatformDevice
platform_pcdev_4 = record {
  id = 3;
  platform_data = some (record { size = 32; perm = wronly; serial_number = "PCDEVXYZ4444" });
  id_entry = 3;
}

abbrev pub platform_pcdevs : List PlatformDevice
platform_pcdevs = platform_pcdev_1 ∷ platform_pcdev_2 ∷ platform_pcdev_3 ∷ platform_pcdev_4 ∷ []

-- platform_add_devices registers all of them or none, and its answer is not looked at. A registered
-- device stands as `device` with its id.
unfoldable pub pcdev_platform_init : Option Errno → Ret × List Call
pcdev_platform_init add_devices =
    (value 0, if_granted add_devices (map (λ p. acquire (device p.id)) platform_pcdevs))

unfoldable pub pcdev_platform_exit : List Call
pcdev_platform_exit =
    release (device platform_pcdev_1.id)
    ∷ release (device platform_pcdev_2.id)
    ∷ release (device platform_pcdev_3.id)
    ∷ release (device platform_pcdev_4.id)
    ∷ []
