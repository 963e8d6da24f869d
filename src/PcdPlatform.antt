-- ===== src/PcdPlatform.antt =====
-- custom_drivers/005_pcd_platform_driver_dt/pcd_platform_driver_dt.c: a driver that binds any number
-- of platform devices, described by the device tree or by platform data.
pub mod Numbers
pub mod Tables
pub mod Probe
mod Tests
use Prim.Native.String.{String}
use mad_devicedriver.Prelude.{
  ℕ, ◌+◌, ◌-◌, List, [], ◌∷◌, Bool, true, false, Option, none, some, leb, not, if◌then◌else◌,
  replicate, sext32,
}
use mad_devicedriver.Kernel.{
  Errno, enomem, einval, Ret, value, error, Outcome, done, overrun, Uaccess,
}
use mad_devicedriver.Pcd.Core
use mad_devicedriver.Pcd.Core.{seek, read_at, write_at}
use mad_devicedriver.Setup.{region, class, cdev, device, driver, Call, acquire, release}

-- platform.h: `struct pcdev_platform_data`. `size` and `perm` are of type `int`.
pub record PcdevPlatformData : Type 0 where
  pub size : ℕ
  pub perm : ℕ
  pub serial_number : String

-- `struct pcdev_private_data`; the device number counts from `device_num_base`.
pub record PcdevPrivateData : Type 0 where
  pub pdata : PcdevPlatformData
  pub buffer : List ℕ
  pub dev_num : ℕ

-- `struct pcdrv_private_data`, but for the base of the numbers and the pointers.
pub record PcdrvPrivateData : Type 0 where
  pub total_devices : ℕ

-- What of_property_read_string and of_property_read_u32 find in a node.
pub record DeviceNode : Type 0 where
  pub serial_num : Option String
  pub size : Option ℕ
  pub perm : Option ℕ

-- `match` gives the data of the matched `of_device_id`, `id_entry` that of the platform id.
pub record PlatformDevice : Type 0 where
  pub of_match : Option ℕ
  pub of_node : Option DeviceNode
  pub platform_data : Option PcdevPlatformData
  pub id_entry : ℕ

-- How the kernel answers during a probe; `false` is a devm_kzalloc that returns NULL.
pub record Answers : Type 0 where
  pub alloc_pdata : Bool
  pub alloc_dev_data : Bool
  pub alloc_buffer : Bool
  pub cdev_add : Option Errno
  pub device_create : Option Errno

-- A pointer that may be NULL or an ERR_PTR.
pub data Platdata : Type 0 where
  null : Platdata
  err_ptr : Errno → Platdata
  at : PcdevPlatformData → Platdata

unfoldable pub pcdev_get_platdata_from_dt : Answers → PlatformDevice → Platdata
pcdev_get_platdata_from_dt k pdev = elim pdev.of_node [
  | none ↦ null
  | some node ↦ if not k.alloc_pdata then err_ptr enomem else elim node.serial_num [
    | none ↦ err_ptr einval
    | some serial ↦ elim node.size [
      | none ↦ err_ptr einval
      | some size ↦ elim node.perm [
        | none ↦ err_ptr einval
        | some perm ↦ at (record { size = size; perm = perm; serial_number = serial })
      ]
    ]
  ]
]

-- The platform data, and `driver_data`.
unfoldable pub platdata_of : Answers → PlatformDevice → Platdata × ℕ
unfolding pcdev_get_platdata_from_dt
platdata_of k pdev = elim pdev.of_match [
  | some n ↦ (pcdev_get_platdata_from_dt k pdev, n)
  | none ↦ (elim pdev.platform_data [ none ↦ null | some p ↦ at p ], pdev.id_entry)
]

-- The number of entries of `pcdev_config`.
abbrev pub config_entries : ℕ
config_entries = 4

-- A probe: what it returns, the driver's data, the device if it is bound, and the calls.
pub record Probed : Type 0 where
  pub ret : Ret
  pub drv : PcdrvPrivateData
  pub bound : Option PcdevPrivateData
  pub calls : List Call

abbrev pub refuse : PcdrvPrivateData → Errno → List Call → Outcome Probed
refuse drv e calls = done (record { ret = error e; drv = drv; bound = none; calls = calls })

-- `kzalloc` of `size` bytes.
unfoldable pub kzalloc : ℕ → List ℕ
kzalloc n = replicate n 0

-- From "3. Dynamically allocate memory for the device buffer" on.
unfoldable pub register_device : PcdrvPrivateData → Answers → PcdevPlatformData → Outcome Probed
register_device drv k pdata =
    let n : ℕ = drv.total_devices in
    if not k.alloc_buffer then refuse drv enomem [] else elim k.cdev_add [
      | some e ↦ refuse drv e []
      | none ↦ elim k.device_create [
        | some e ↦ refuse drv e (acquire (cdev n) ∷ release (cdev n) ∷ [])
        | none ↦ done (record {
          ret = value 0;
          drv = record drv { total_devices = n + 1 };
          bound =
              some (record { pdata = pdata; buffer = kzalloc (sext32 pdata.size); dev_num = n });
          calls = acquire (cdev n) ∷ acquire (device n) ∷ [];
        })
      ]
    ]

-- `overrun` where `pcdev_config[driver_data]` is read past its end.
unfoldable pub probe_with : PcdrvPrivateData → Answers → Platdata × ℕ → Outcome Probed
unfolding register_device
probe_with drv k (err_ptr e, driver_data) = refuse drv e []
probe_with drv k (null, driver_data) = refuse drv einval []
probe_with drv k (at pdata, driver_data) =
    if not k.alloc_dev_data
    then refuse drv enomem []
    else if leb config_entries driver_data
    then overrun
    else register_device drv k pdata

unfoldable pub pcd_platform_driver_probe :
    PcdrvPrivateData → Answers → PlatformDevice → Outcome Probed
unfolding platdata_of probe_with
pcd_platform_driver_probe drv k pdev = probe_with drv k (platdata_of k pdev)

-- It is called for bound devices only, so `total_devices` is not 0.
unfoldable pub pcd_platform_driver_remove :
    PcdrvPrivateData → PcdevPrivateData → PcdrvPrivateData × List Call
pcd_platform_driver_remove drv dev_data = (
  record drv { total_devices = drv.total_devices - 1 },
  release (device dev_data.dev_num) ∷ release (cdev dev_data.dev_num) ∷ [],
)

abbrev pub max_devices : ℕ
max_devices = 10

-- The answers to alloc_chrdev_region, class_create and platform_driver_register; the last is not
-- looked at.
unfoldable pub pcd_platform_driver_init :
    Option Errno → Option Errno → Option Errno → Ret × List Call
pcd_platform_driver_init alloc_region create_class register = elim alloc_region [
  | some e ↦ (error e, [])
  | none ↦ elim create_class [
    | some e ↦ (error e, acquire region ∷ release region ∷ [])
    | none ↦ elim register [
      | none ↦ (value 0, acquire region ∷ acquire class ∷ acquire driver ∷ [])
      | some e ↦ (value 0, acquire region ∷ acquire class ∷ [])
    ]
  ]
]

unfoldable pub pcd_platform_driver_cleanup : List Call
pcd_platform_driver_cleanup = release driver ∷ release class ∷ release region ∷ []

-- The file operations are those of pcd_n.c over `pdata`.
unfoldable pub pcd_lseek : PcdevPrivateData → ℕ → ℕ → ℕ → Ret × ℕ
unfolding seek
pcd_lseek d f_pos offset whence = seek (sext32 d.pdata.size) f_pos offset whence

module _ {Mem : Type 0} (u : Uaccess Mem) (d : PcdevPrivateData) (f_pos : ℕ) (mem : Mem)
    (buff count : ℕ) where
  unfoldable pub pcd_read : Outcome (Ret × ℕ × Mem)
  unfolding read_at
  pcd_read = read_at u (sext32 d.pdata.size) d.buffer f_pos mem buff count

  unfoldable pub pcd_write : Outcome (Ret × ℕ × List ℕ)
  unfolding write_at
  pcd_write = write_at u (sext32 d.pdata.size) d.buffer f_pos mem buff count

unfoldable pub pcd_open : PcdevPrivateData → ℕ → Ret
unfolding Core.check_permission
pcd_open d f_mode = Core.check_permission d.pdata.perm f_mode

-- The same tests as in custom_drivers/003_pseudo_char_driver_multiple, and a release that only logs.
abbrev pub check_permission : ℕ → ℕ → Ret
check_permission dev_perm acc_mode = Core.check_permission dev_perm acc_mode

abbrev pub pcd_release : Ret
pcd_release = value 0
