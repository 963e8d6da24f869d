-- ===== src/PcdN.antt =====
-- custom_drivers/003_pseudo_char_driver_multiple/pcd_n.c: four devices, each with its memory and its
-- permission.
pub mod System
pub mod Invariant
pub mod Safety
pub mod Setup
mod Tests
use Prim.Native.String.{String}
use mad_devicedriver.Prelude.{
  ℕ, zero, suc, ◌+◌, ◌++◌, Option, none, some, List, [], ◌∷◌, replicate, sext32, ◌==◌,
  if◌then◌else◌,
}
use mad_devicedriver.Prelude.Decimal.{digits}
use mad_devicedriver.Setup.{region, class, cdev, device, Call, acquire, release}
use mad_devicedriver.Kernel.{Errno, Ret, value, error, Outcome, Uaccess}
use mad_devicedriver.Pcd.Core.{seek, read_at, write_at, check_permission, rdonly, wronly, rdwr}

abbrev pub no_of_devices : ℕ
no_of_devices = 4

-- `struct pcdev_private_data`; its `cdev` is the device's number in `pcdrv_data`.
pub record PcdevPrivateData : Type 0 where
  pub buffer : List ℕ
  pub size : ℕ  -- unsigned
  pub serial_number : String
  pub perm : ℕ

-- A static array of `n` bytes, as the module is loaded: `device_buffer_pcdev1` to `4`.
unfoldable pub zeroed : ℕ → List ℕ
zeroed n = replicate n 0

-- `pcdrv_data.pcdev_data`. Past the array there is a device with no memory, which no file names.
unfoldable pub pcdev_data : ℕ → PcdevPrivateData
pcdev_data i =
    if i == 0
    then record { buffer = zeroed 1024; size = 1024; serial_number = "PCDEV1XYZ123"; perm = rdonly }
    else if i == 1
    then record { buffer = zeroed 512; size = 512; serial_number = "PCDEV2XYZ123"; perm = wronly }
    else if i == 2
    then record { buffer = zeroed 1024; size = 1024; serial_number = "PCDEV3XYZ123"; perm = rdwr }
    else if i == 3
    then record { buffer = zeroed 512; size = 512; serial_number = "PCDEV4XYZ123"; perm = rdwr }
    else record { buffer = []; size = 0; serial_number = ""; perm = 0 }

-- `struct file`: `private_data` is the number of the device.
pub record File : Type 0 where
  pub private_data : ℕ
  pub f_pos : ℕ
  pub f_mode : ℕ

-- `int max_size = pcdev_data->size`, as it stands beside a `loff_t`.
abbrev pub max_size : PcdevPrivateData → ℕ
max_size d = sext32 d.size

unfoldable pub pcd_lseek : PcdevPrivateData → ℕ → ℕ → ℕ → Ret × ℕ
unfolding seek
pcd_lseek d f_pos offset whence = seek (max_size d) f_pos offset whence

module _ {Mem : Type 0} (u : Uaccess Mem) (d : PcdevPrivateData) (f_pos : ℕ) (mem : Mem)
    (buff count : ℕ) where
  unfoldable pub pcd_read : Outcome (Ret × ℕ × Mem)
  unfolding read_at
  pcd_read = read_at u (max_size d) d.buffer f_pos mem buff count

  unfoldable pub pcd_write : Outcome (Ret × ℕ × List ℕ)
  unfolding write_at
  pcd_write = write_at u (max_size d) d.buffer f_pos mem buff count

-- `pcd_open` for the node of device `i`: the return value, and the file with its `private_data`.
unfoldable pub pcd_open : (ℕ → PcdevPrivateData) → ℕ → ℕ → Ret × File
unfolding check_permission
pcd_open devs i f_mode =
    (check_permission (devs i).perm f_mode, record { private_data = i; f_pos = 0; f_mode = f_mode })

pub pcd_release : Ret
pcd_release = value 0

-- How the kernel answers each call of `pcd_driver_init`, by the device: `some e` is a failure with -e.
pub record Answers : Type 0 where
  pub alloc_chrdev_region : Option Errno
  pub class_create : Option Errno
  pub cdev_add : ℕ → Option Errno
  pub device_create : ℕ → Option Errno

-- `for(;i>=0;i--)` behind the labels `cdev_del` and `class_del`.
unfoldable pub unwind : ℕ → List Call
unwind zero = release (device 0) ∷ release (cdev 0) ∷ []
unwind (suc i) = release (device (suc i)) ∷ release (cdev (suc i)) ∷ unwind i

-- What follows that loop.
abbrev pub unreg_chrdev : List Call
unreg_chrdev = release region ∷ []

abbrev pub class_del : List Call
class_del = release class ∷ unreg_chrdev

-- The loop over the devices, from device `i` on with `rounds` to go, and the labels behind it.
unfoldable pub add_devices : Answers → ℕ → ℕ → Ret × List Call
unfolding unwind
add_devices k zero i = (value 0, [])
add_devices k (suc rounds) i =
    let (ret, calls) = add_devices k rounds (suc i) in
    elim (k.cdev_add i) [
      | some e ↦ (error e, unwind i ++ class_del)
      | none ↦ elim (k.device_create i) [
        | some e ↦ (error e, acquire (cdev i) ∷ (unwind i ++ class_del))
        | none ↦ (ret, acquire (cdev i) ∷ acquire (device i) ∷ calls)
      ]
    ]

unfoldable pub pcd_driver_init : Answers → Ret × List Call
unfolding add_devices
pcd_driver_init k =
    let (ret, calls) = add_devices k no_of_devices 0 in
    elim k.alloc_chrdev_region [
      | some e ↦ (error e, [])
      | none ↦ elim k.class_create [
        | some e ↦ (error e, acquire region ∷ unreg_chrdev)
        | none ↦ (ret, acquire region ∷ acquire class ∷ calls)
      ]
    ]

-- The loop of `pcd_driver_cleanup`, from device `i` on with `rounds` to go.
unfoldable pub remove_devices : ℕ → ℕ → List Call
remove_devices zero i = []
remove_devices (suc rounds) i =
    release (device i) ∷ release (cdev i) ∷ remove_devices rounds (suc i)

unfoldable pub pcd_driver_cleanup : List Call
unfolding remove_devices
pcd_driver_cleanup = remove_devices no_of_devices 0 ++ class_del

-- The name "pcdev-%d" of a device node: pcdev-1 for the first device.
unfoldable pub device_name : ℕ → List ℕ
device_name i = b'p' ∷ b'c' ∷ b'd' ∷ b'e' ∷ b'v' ∷ b'-' ∷ digits 20 (i + 1)
