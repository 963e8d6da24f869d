-- ===== src/PciDrv/Leaks.antt =====
-- What is held after a probe of pci_drv.c, and after the removal.
use mad_devicedriver.Prelude.{◌≡◌, ◌⊎◌, arith, List, [], ◌∷◌, ◌++◌, none, some, not, if◌then◌else◌}
use mad_devicedriver.Kernel.{Errno, value, error}
use mad_devicedriver.Setup.{region, device, memory, mapping, vectors, Resource, replay, nothing}
use mad_devicedriver.PciDrv.{Answers, set_interrupts, map_device, my_driver_probe, my_driver_remove}

-- What is held after a probe that failed, by the first call that did.
abbrev pub kept : Answers → List Resource
kept k = elim k.enable_device_mem [
  | some e ↦ []
  | none ↦ elim k.request_region [
    | some e ↦ []
    | none ↦
        if not k.kzalloc
        then []
        else if not k.ioremap
        then memory ∷ []
        else elim k.alloc_irq_vectors [
          | some e ↦ mapping ∷ memory ∷ region ∷ device 0 ∷ []
          | none ↦ vectors ∷ mapping ∷ memory ∷ region ∷ device 0 ∷ []
        ]
  ]
]

-- A probe that returns 0 holds what the removal gives back: nothing is left after it, and nothing is
-- given back that is not held. A probe that fails keeps the private data when the mapping fails; and
-- with it the mapping, the region and the enabled device when the interrupt vectors are refused, and
-- the vectors too when the interrupt is; on the branches before, it holds nothing.
pub probe_keeps :
    (k : Answers)
    → let (ret, calls) = my_driver_probe k in
      ((ret ≡ value 0)
        × ((replay (calls ++ my_driver_remove) nothing).held ≡ [])
        × ((replay (calls ++ my_driver_remove) nothing).stray ≡ []))
      ⊎ ((e : Errno) × (ret ≡ error e) × ((replay calls nothing).held ≡ kept k))
unfolding my_driver_probe my_driver_remove map_device set_interrupts
probe_keeps k = ground arith
