-- ===== src/PcdSysfs.antt =====
-- custom_drivers/006_pcd_sysfs: the platform driver with the sysfs attributes max_size and serial_num
-- (pcd_platform_driver_dt_sysfs.c), and its file operations (pcd_syscalls.c).
pub mod Resize
pub mod Failure
mod Tests
use Prim.Native.Char.{code}
use Prim.Native.String.{String}
use mad_devicedriver.Prelude.{
  ℕ, ◌+◌, ◌-◌, ◌%◌, ◌^◌, ◌≡◌, List, [], ◌∷◌, ◌++◌, Option, none, some, length, ltb, if◌then◌else◌,
  sext32, take,
}
use mad_devicedriver.Prelude.Int.{ℤ, pos, negsuc}
use mad_devicedriver.Prelude.Decimal.{decimal}
use mad_devicedriver.Kernel.{
  Errno, Ret, value, error, Outcome, done, overrun, Uaccess, TextApi, parsed, refused,
}
use mad_devicedriver.Pcd.Core
use mad_devicedriver.Setup.{cdev, device, files, Call, acquire, release}
use mad_devicedriver.PcdPlatform
use mad_devicedriver.PcdPlatform.Tables
use mad_devicedriver.PcdPlatform.{
  PcdevPlatformData, PcdevPrivateData, PcdrvPrivateData, PlatformDevice, Answers, Platdata, Probed,
}

-- The code points of a text.
abbrev pub codes : String → List ℕ
codes String.[] = []
codes (String.◌∷◌ c s) = code c ∷ codes s

-- The integer that an `int` stands for, and the `int` that keeps the low bits of a `long`.
abbrev pub signed32 : ℕ → ℤ
signed32 w = if ltb w (2 ^ 31) then pos w else negsuc (2 ^ 32 - w - 1)

abbrev pub int_word : ℤ → ℕ
int_word (pos n) = n % 2 ^ 32
int_word (negsuc n) = 2 ^ 32 - 1 - n % 2 ^ 32

-- `dev_data` is the private data of the parent device.
unfoldable pub show_serial_num : PcdevPrivateData → Ret × List ℕ
show_serial_num d =
    let text : List ℕ = codes d.pdata.serial_number ++ b'\n' ∷ [] in (value (length text), text)

unfoldable pub show_max_size : PcdevPrivateData → Ret × List ℕ
show_max_size d =
    let text : List ℕ = decimal (signed32 d.pdata.size) ++ b'\n' ∷ [] in (value (length text), text)

-- <linux/slab.h> krealloc: `none` is NULL.
abbrev pub Krealloc : Type 0
Krealloc = List ℕ → ℕ → Option (List ℕ)

-- Its documented behaviour for memory of kmalloc, or NULL: the new memory has the size asked for, and the old contents up to the
-- lesser of the sizes.
pub record KreallocLaws (krealloc : Krealloc) : Type 0 where
  pub sized : (old : List ℕ) (n : ℕ) {new : List ℕ} → krealloc old n ≡ some new → length new ≡ n

-- NULL has no memory behind it.
abbrev pub memory : Option (List ℕ) → List ℕ
memory none = []
memory (some b) = b

-- The buffer that the source gives to krealloc is memory of devm_kzalloc, for which krealloc documents
-- nothing: `krealloc` stands for whatever it gives.
unfoldable pub store_max_size :
    TextApi → Krealloc → PcdevPrivateData → List ℕ → ℕ → Ret × PcdevPrivateData
store_max_size api krealloc d buf count = elim (api.kstrtol buf 10) [
  | refused e ↦ (error e, d)
  | parsed result ↦
      let size : ℕ = int_word result in
      let pdata = d.pdata in
      (
        value count,
        record d {
          pdata = record pdata { size = size };
          buffer = memory (krealloc d.buffer (sext32 size));
        },
      )
]

-- `pcd_sysfs_create_files` gives the answer of sysfs_create_group; a probe whose files fail removes
-- the node and returns.
unfoldable pub pcd_platform_driver_probe :
    PcdrvPrivateData → Answers → Option Errno → PlatformDevice → Outcome Probed
pcd_platform_driver_probe drv k create_group pdev =
    let n : ℕ = drv.total_devices in
    elim (PcdPlatform.pcd_platform_driver_probe drv k pdev) [
      | overrun ↦ overrun
      | done p ↦ elim p.ret [
        | error e ↦ done p
        | value v ↦ elim create_group [
          | none ↦ done (record p { calls = p.calls ++ acquire (files n) ∷ [] })
          | some e ↦ done (record {
            ret = error e;
            drv = p.drv;
            bound = none;
            calls = p.calls ++ release (device n) ∷ [];
          })
        ]
      ]
    ]

-- The rest is that of custom_drivers/005_pcd_platform_driver_dt.
abbrev pub pcd_platform_driver_remove :
    PcdrvPrivateData → PcdevPrivateData → PcdrvPrivateData × List Call
pcd_platform_driver_remove = PcdPlatform.pcd_platform_driver_remove

abbrev pub pcd_platform_driver_init : Option Errno → Option Errno → Option Errno → Ret × List Call
pcd_platform_driver_init = PcdPlatform.pcd_platform_driver_init

abbrev pub pcd_platform_driver_cleanup : List Call
pcd_platform_driver_cleanup = PcdPlatform.pcd_platform_driver_cleanup

abbrev pub pcd_lseek : PcdevPrivateData → ℕ → ℕ → ℕ → Ret × ℕ
pcd_lseek = PcdPlatform.pcd_lseek

abbrev pub pcd_read :
    {Mem : Type 0} → Uaccess Mem → PcdevPrivateData → ℕ → Mem → ℕ → ℕ → Outcome (Ret × ℕ × Mem)
pcd_read u = PcdPlatform.pcd_read u

abbrev pub pcd_write :
    {Mem : Type 0} → Uaccess Mem → PcdevPrivateData → ℕ → Mem → ℕ → ℕ → Outcome (Ret × ℕ × List ℕ)
pcd_write u = PcdPlatform.pcd_write u

abbrev pub pcd_open : PcdevPrivateData → ℕ → Ret
pcd_open = PcdPlatform.pcd_open

-- The same tests as in custom_drivers/003_pseudo_char_driver_multiple, and a release that only logs.
abbrev pub check_permission : ℕ → ℕ → Ret
check_permission dev_perm acc_mode = Core.check_permission dev_perm acc_mode

abbrev pub pcd_release : Ret
pcd_release = value 0

abbrev pub pcdev_get_platdata_from_dt : Answers → PlatformDevice → Platdata
pcdev_get_platdata_from_dt k pdev = PcdPlatform.pcdev_get_platdata_from_dt k pdev

abbrev pub pcdevs_ids : List (String × ℕ)
pcdevs_ids = Tables.pcdevs_ids

abbrev pub org_pcdev_dt_match : List (String × ℕ)
org_pcdev_dt_match = Tables.org_pcdev_dt_match
