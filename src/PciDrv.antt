-- ===== src/PciDrv.antt =====
-- device_driver/pci_drv.c: the probe and the removal of a PCI device.
pub mod Leaks
mod Tests
use mad_devicedriver.Prelude.{ℕ, List, [], ◌∷◌, ◌++◌, Bool, Option, none, some, not, if◌then◌else◌}
use mad_devicedriver.Kernel.{Errno, enomem, Ret, value, error}
use mad_devicedriver.Setup.{region, device, irq, memory, mapping, vectors, Call, acquire, release}

abbrev pub eio : Errno
eio = 5

-- The interrupt of `request_threaded_irq`.
abbrev pub irq_number : ℕ
irq_number = 18

-- How the kernel answers: `false` stands for a NULL.
pub record Answers : Type 0 where
  pub enable_device_mem : Option Errno
  pub request_region : Option Errno
  pub kzalloc : Bool
  pub ioremap : Bool
  pub alloc_irq_vectors : Option Errno
  pub request_threaded_irq : Option Errno

abbrev pub release_device : List Call
release_device = release (irq irq_number) ∷ release region ∷ release (device 0) ∷ []

unfoldable pub set_interrupts : Answers → Ret × List Call
set_interrupts k = elim k.alloc_irq_vectors [
  | some e ↦ (error e, [])
  | none ↦ elim k.request_threaded_irq [
    | some e ↦ (error e, acquire vectors ∷ [])
    | none ↦ (value 0, acquire vectors ∷ acquire (irq irq_number) ∷ [])
  ]
]

-- From the allocation of the private data on.
unfoldable pub map_device : Answers → Ret × List Call
unfolding set_interrupts
map_device k =
    let (ret, calls) = set_interrupts k in
    if not k.kzalloc
    then (error enomem, release_device)
    else if not k.ioremap
    then (error eio, acquire memory ∷ release_device)
    else (ret, acquire memory ∷ acquire mapping ∷ calls)

-- `device 0` stands for the device being enabled.
unfoldable pub my_driver_probe : Answers → Ret × List Call
unfolding map_device
my_driver_probe k =
    let (ret, calls) = map_device k in
    elim k.enable_device_mem [
      | some e ↦ (error e, [])
      | none ↦ elim k.request_region [
        | some e ↦ (error e, acquire (device 0) ∷ release (device 0) ∷ [])
        | none ↦ (ret, acquire (device 0) ∷ acquire region ∷ calls)
      ]
    ]

-- The private data is there, since the probe succeeded, and it has its mapping.
unfoldable pub my_driver_remove : List Call
my_driver_remove = release mapping ∷ release vectors ∷ release memory ∷ release_device
