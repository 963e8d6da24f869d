-- ===== src/PcdSingle.antt =====
-- custom_drivers/002pseudo_char_driver/pcd.c: one device with 512 bytes of memory.
pub mod Laws
mod Tests
use mad_devicedriver.Prelude.{ℕ, List, [], ◌∷◌, ◌++◌, Option, none, some}
use mad_devicedriver.Kernel.{Errno, Ret, value, error, Outcome, Uaccess}
use mad_devicedriver.Pcd.Core.{seek, read_at, write_at}
use mad_devicedriver.Setup.{region, class, cdev, device, Call, acquire, release}

abbrev pub dev_mem_size : ℕ
dev_mem_size = 512

pub pcd_lseek : ℕ → ℕ → ℕ → Ret × ℕ
unfolding seek
pcd_lseek f_pos offset whence = seek dev_mem_size f_pos offset whence

module _ {Mem : Type 0} (u : Uaccess Mem) (device_buffer : List ℕ) (f_pos : ℕ) (mem : Mem)
    (buff count : ℕ) where
  unfoldable pub pcd_read : Outcome (Ret × ℕ × Mem)
  unfolding read_at
  pcd_read = read_at u dev_mem_size device_buffer f_pos mem buff count

  unfoldable pub pcd_write : Outcome (Ret × ℕ × List ℕ)
  unfolding write_at
  pcd_write = write_at u dev_mem_size device_buffer f_pos mem buff count

-- `pcd_open` and `pcd_release` only log.
pub pcd_open : Ret
pcd_open = value 0

pub pcd_release : Ret
pcd_release = value 0

-- How the kernel answers each call of `pcd_driver_init`: `some e` is a failure with -e.
pub record Answers : Type 0 where
  pub alloc_chrdev_region : Option Errno
  pub cdev_add : Option Errno
  pub class_create : Option Errno
  pub device_create : Option Errno

-- The labels of `pcd_driver_init`, each falling through to the next.
abbrev unreg_chrdev : List Call
unreg_chrdev = release region ∷ []

abbrev cdev_del : List Call
cdev_del = release (cdev 0) ∷ unreg_chrdev

abbrev class_del : List Call
class_del = release class ∷ cdev_del

pub pcd_driver_init : Answers → Ret × List Call
pcd_driver_init k = elim k.alloc_chrdev_region [
  | some e ↦ (error e, [])
  | none ↦ elim k.cdev_add [
    | some e ↦ (error e, acquire region ∷ unreg_chrdev)
    | none ↦ elim k.class_create [
      | some e ↦ (error e, acquire region ∷ acquire (cdev 0) ∷ cdev_del)
      | none ↦ elim k.device_create [
        | some e ↦ (error e, acquire region ∷ acquire (cdev 0) ∷ acquire class ∷ class_del)
        | none ↦
            (value 0, acquire region ∷ acquire (cdev 0) ∷ acquire class ∷ acquire (device 0) ∷ [])
      ]
    ]
  ]
]

pub pcd_driver_cleanup : List Call
pcd_driver_cleanup = release (device 0) ∷ release class ∷ release (cdev 0) ∷ release region ∷ []
