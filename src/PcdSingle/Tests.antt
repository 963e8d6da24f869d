-- ===== src/PcdSingle/Tests.antt =====
-- The theorems of pcd.c at concrete answers of the kernel.
use mad_devicedriver.Prelude.{◌≡◌, refl, none, some}
use mad_devicedriver.Kernel.{error}
use mad_devicedriver.PcdSingle.{Answers, pcd_driver_init}

abbrev no_class : Answers
no_class = record {
  alloc_chrdev_region = none;
  cdev_add = none;
  class_create = some 12;
  device_create = none;
}

abbrev all_well : Answers
all_well = record {
  alloc_chrdev_region = none;
  cdev_add = none;
  class_create = none;
  device_create = none;
}

init_fails : (pcd_driver_init no_class).0 ≡ error 12
unfolding pcd_driver_init
init_fails = refl
