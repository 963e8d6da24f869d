-- ===== src/CharDrv/Lifetime.antt =====
-- What the module of char_drv.c still holds after it is unloaded, and after it failed to load.
use mad_devicedriver.Prelude.{◌≡◌, arith, List, [], ◌∷◌, ◌++◌, false, Option, none, some}
use mad_devicedriver.Kernel.{Errno, value, error, enomem, done}
use mad_devicedriver.Setup.{region, class, device, acquire, cdev, Resource, Call, replay, nothing}
use mad_devicedriver.CharDrv.{
  Answers, at, set_gpio_interrupt, add_cdev, create_device, param_init, param_exit,
}

-- The character device, where it was added.
abbrev pub added_cdev : Option Errno → List Resource
added_cdev none = cdev 0 ∷ []
added_cdev (some e) = []

-- Whatever the kernel answers: when `param_init` returns 0, the exit function gives back all that was
-- acquired but the character device, which stays added (where cdev_add had added it) for a module
-- that is gone.
pub exit_leaves_cdev :
    (k : Answers) (calls : List Call)
    → param_init k ≡ done (value 0, calls)
    → (replay (calls ++ param_exit) nothing).held ≡ added_cdev k.cdev_add
unfolding param_init param_exit create_device add_cdev set_gpio_interrupt
exit_leaves_cdev k calls h = ground arith

-- When only the kobject is refused, `param_init` fails with ENOMEM and gives nothing back: the region,
-- the class, the device, the character device, and the lines and interrupts that were granted stay
-- held, and a module that failed to load has no exit function to run.
pub failed_init_keeps :
    (k : Answers)
    → k.register_chrdev_region ≡ none
    → k.class_create ≡ at
    → k.device_create ≡ at
    → k.cdev_add ≡ none
    → k.kobject_create ≡ false
    → (calls : List Call) × (param_init k ≡ done (error enomem, calls))
      × ((replay calls nothing).held
          ≡ (replay (set_gpio_interrupt k) nothing).held
            ++ (cdev 0 ∷ device 0 ∷ class ∷ region ∷ []))
unfolding param_init create_device add_cdev set_gpio_interrupt
failed_init_keeps k r c d a o =
    (acquire region ∷ acquire class ∷ (create_device k).1, ground arith, ground arith)
