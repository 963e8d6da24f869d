-- ===== src/Setup.antt =====
-- What a module's init and exit functions take from the kernel and give back, in order:
-- alloc_chrdev_region / unregister_chrdev_region, class_create / class_destroy, cdev_add / cdev_del,
-- device_create / device_destroy, gpiod_get / gpiod_put, platform_driver_register / _unregister,
-- sysfs_create_group / sysfs_remove_group, proc_create / remove_proc_entry, gpio_request / gpio_free,
-- request_irq / free_irq, kobject_create_and_add / kobject_put, kzalloc / kfree, ioremap / iounmap,
-- pci_alloc_irq_vectors / pci_free_irq_vectors, usb_register_dev / usb_deregister_dev, usb_alloc_urb /
-- usb_free_urb, usb_alloc_coherent / usb_free_coherent, usb_get_dev / usb_put_dev, usb_get_intf /
-- usb_put_intf, usb_set_intfdata, crypto_alloc_shash / crypto_free_shash. A driver's init returns the
-- calls that it made; `replay` says what the module holds after them.
use mad_devicedriver.Kernel.{Errno}
use mad_devicedriver.Prelude.{
  Option, none, some, ℕ, ◌≡◌, refl, Bool, true, false, List, [], ◌∷◌, ◌++◌, ◌==◌, if◌then◌else◌,
}

-- Devices are numbered by their offset from the first device number of the region, GPIO lines by
-- their index in the driver's table.
pub data Resource : Type 0 where
  region : Resource
  class : Resource
  cdev : ℕ → Resource
  device : ℕ → Resource
  line : ℕ → Resource
  driver : Resource
  files : ℕ → Resource
  proc_file : Resource
  gpio : ℕ → Resource
  irq : ℕ → Resource
  kobject : Resource
  memory : Resource
  mapping : Resource
  vectors : Resource
  minor : Resource
  urb : Resource
  buffer : Resource
  usb_device : Resource
  interface : Resource
  intfdata : Resource
  transform : Resource

pub data Call : Type 0 where
  acquire : Resource → Call
  release : Resource → Call

-- Calls that are made when the answer to a request is no error.
abbrev pub if_granted : Option Errno → List Call → List Call
if_granted none calls = calls
if_granted (some e) calls = []

abbrev pub same : Resource → Resource → Bool
same region region = true
same class class = true
same (cdev i) (cdev j) = i == j
same (device i) (device j) = i == j
same (line i) (line j) = i == j
same driver driver = true
same (files i) (files j) = i == j
same proc_file proc_file = true
same (gpio i) (gpio j) = i == j
same (irq i) (irq j) = i == j
same kobject kobject = true
same memory memory = true
same mapping mapping = true
same vectors vectors = true
same minor minor = true
same urb urb = true
same buffer buffer = true
same usb_device usb_device = true
same interface interface = true
same intfdata intfdata = true
same transform transform = true
same _ _ = false

abbrev pub holds : List Resource → Resource → Bool
holds [] r = false
holds (q ∷ qs) r = if same q r then true else holds qs r

abbrev pub remove : Resource → List Resource → List Resource
remove r [] = []
remove r (q ∷ qs) = if same q r then qs else q ∷ remove r qs

-- `held`, the latest first; `stray` has the resources that were released while not held.
pub record Ledger : Type 0 where
  pub held : List Resource
  pub stray : List Resource

abbrev pub nothing : Ledger
nothing = record { held = []; stray = [] }

abbrev pub step : Ledger → Call → Ledger
step l (acquire r) = record l { held = r ∷ l.held }
step l (release r) =
    if holds l.held r then record l { held = remove r l.held } else record l { stray = r ∷ l.stray }

abbrev pub replay : List Call → Ledger → Ledger
replay [] l = l
replay (c ∷ cs) l = replay cs (step l c)

pub replay-append : (xs ys : List Call) (l : Ledger) → replay (xs ++ ys) l ≡ replay ys (replay xs l)
replay-append [] ys l = refl
replay-append (x ∷ xs) ys l = replay-append xs ys (step l x)
