-- ===== src/PciDrv/Tests.antt =====
-- A run of pci_drv.c.
use mad_devicedriver.Prelude.{◌≡◌, refl, true, none, some}
use mad_devicedriver.Setup.{replay, nothing}
use mad_devicedriver.PciDrv.{Answers, set_interrupts, map_device, my_driver_probe}
use mad_devicedriver.PciDrv.Leaks.{kept}

-- The interrupt is refused.
abbrev irq_taken : Answers
irq_taken = record {
  enable_device_mem = none;
  request_region = none;
  kzalloc = true;
  ioremap = true;
  alloc_irq_vectors = none;
  request_threaded_irq = some 16;
}

-- The vectors and all that came before are kept.
irq_taken_keeps : (replay (my_driver_probe irq_taken).1 nothing).held ≡ kept irq_taken
unfolding my_driver_probe map_device set_interrupts
irq_taken_keeps = refl
