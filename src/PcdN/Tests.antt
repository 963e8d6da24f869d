-- ===== src/PcdN/Tests.antt =====
-- The theorems of pcd_n.c at concrete inputs: a run with two open files, and an init that fails at
-- the third device.
use mad_devicedriver.Prelude.{
  ℕ, ◌≤◌, ◌<◌, ◌≡◌, ◌≢◌, ◌⊎◌, refl, arith, List, [], ◌∷◌, false, none, some, ◌==◌, if◌then◌else◌,
}
use mad_devicedriver.Kernel.{value, error, done, overrun, eperm}
use mad_devicedriver.Kernel.Flat.{flat}
use mad_devicedriver.Pcd.Core.{fmode_read, fmode_write, rdonly, wronly}
use mad_devicedriver.Pcd.Transfer.{read_spec, write_spec}
use mad_devicedriver.Setup.{replay, nothing}
use mad_devicedriver.PcdN.{
  File, pcdev_data, pcd_read, pcd_write, pcd_open, no_of_devices, Answers, pcd_driver_init,
}
use mad_devicedriver.PcdN.System.{System, update, Step, open_file, Reach, here, next, loaded}
use mad_devicedriver.PcdN.Safety.{no_overrun, rdonly_untouched, modes_permitted}
use mad_devicedriver.PcdN.Setup.{up, ledger, Undone, init_all_devices_or_nothing}

abbrev user : List ℕ
user = 10 ∷ 20 ∷ 30 ∷ []

-- Descriptor 3 is device 0, open for reading.
open_rdonly : Step flat (loaded user) (record {
  devs = pcdev_data;
  files = update (λ fd. none) 3 (some (record { private_data = 0; f_pos = 0; f_mode = 1 }));
  mem = user;
})
unfolding pcd_open pcdev_data
open_rdonly = open_file 3 0 1 (omega arith) refl

abbrev one_open : System (List ℕ)
one_open = record {
  devs = pcdev_data;
  files = update (λ fd. none) 3 (some (record { private_data = 0; f_pos = 0; f_mode = 1 }));
  mem = user;
}

opened_once : Reach flat (loaded user) one_open
opened_once = next here open_rdonly

open_refused : (pcd_open pcdev_data 0 3).0 ≡ error eperm
unfolding pcd_open pcdev_data
open_refused = refl

abbrev file : File
file = record { private_data = 0; f_pos = 0; f_mode = 1 }

no_overrun_example :
    let d = pcdev_data 0 in
    ((pcd_read flat d 0 user 0 5000 ≡ done (read_spec flat d.size d.buffer 0 user 0 5000))
      × (pcd_write flat d 0 user 0 5000 ≡ done (write_spec flat d.size d.buffer 0 user 0 5000)))
    × (((2000 ≤ d.size)
          × ((pcd_read flat d 2000 user 0 5000
                ≡ done (read_spec flat d.size d.buffer 2000 user 0 5000))
              × (pcd_write flat d 2000 user 0 5000
                  ≡ done (write_spec flat d.size d.buffer 2000 user 0 5000))))
        ⊎ ((d.size < 2000)
            × ((pcd_read flat d 2000 user 0 5000 ≡ overrun)
                × (pcd_write flat d 2000 user 0 5000 ≡ overrun))))
no_overrun_example = no_overrun flat opened_once 3 0 5000 2000 file refl (omega arith) (omega arith)

rdonly_untouched_example : (one_open.devs 0).buffer ≡ (pcdev_data 0).buffer
unfolding pcdev_data
rdonly_untouched_example = rdonly_untouched flat opened_once 0 refl

modes_permitted_example :
    ((pcdev_data 0).perm ≡ wronly → fmode_read 1 ≡ false)
    × ((pcdev_data 0).perm ≡ rdonly → fmode_write 1 ≡ false)
modes_permitted_example = modes_permitted flat opened_once 3 file refl

-- The kernel has no room for the device node of the third device.
abbrev third_fails : Answers
third_fails = record {
  alloc_chrdev_region = none;
  class_create = none;
  cdev_add = λ i. none;
  device_create = λ i. if i == 2 then some 12 else none;
}

abbrev all_well : Answers
all_well = record {
  alloc_chrdev_region = none;
  class_create = none;
  cdev_add = λ i. none;
  device_create = λ i. none;
}

init_all_devices_or_nothing_example :
    let (ret, calls) = pcd_driver_init third_fails in
    let l = replay calls nothing in
    ((ret ≡ value 0) × (l ≡ ledger (up no_of_devices) [])) ⊎ ((ret ≢ value 0) × Undone l)
init_all_devices_or_nothing_example = init_all_devices_or_nothing third_fails

third_fails_ret : (pcd_driver_init third_fails).0 ≡ error 12
unfolding pcd_driver_init
third_fails_ret = refl
