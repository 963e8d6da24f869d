-- ===== src/GpioSysfs/Tests.antt =====
-- Runs of the driver: two children of which one is not available, and a GPIO that keeps what is set.
use mad_devicedriver.Prelude.{
  ℕ, ◌-◌, ◌≤◌, ◌≡◌, ◌≢◌, refl, arith, List, [], ◌∷◌, ◌++◌, length, Bool, true, false, none, some,
  ◌==◌, if◌then◌else◌,
}
use mad_devicedriver.Prelude.Int.{pos}
use mad_devicedriver.Prelude.Decimal.{digits}
use mad_devicedriver.Kernel.{value, error, einval, done, overrun, TextApi, parsed}
use mad_devicedriver.Setup.{acquire, device, replay, nothing}
use mad_devicedriver.GpioSysfs.{
  unknown_gpio, set_label, GpioApi, GpiodevPrivateData, Child, Answers, gpio_sysfs_probe,
  gpio_sysfs_remove,
}
use mad_devicedriver.GpioSysfs.Labels.{unlabelled_differ}
use mad_devicedriver.GpioSysfs.Unregister.{removed_devices}

abbrev usr_led : Child
usr_led = record { available = true; label = some (b'l' ∷ b'e' ∷ b'd' ∷ []) }

abbrev spare : Child
spare = record { available = false; label = none }

abbrev all_well : Answers
all_well = record {
  alloc_devs = true;
  alloc_dev_data = λ i. true;
  get_gpiod = λ i. none;
  direction_output = λ i. none;
  device_create = λ i. none;
}

no_children : gpio_sysfs_probe all_well [] ≡ done (error einval, [])
unfolding gpio_sysfs_probe
no_children = refl

-- Twenty bytes of label leave no room for the terminator.
abbrev long_label : List ℕ
long_label = 1 ∷ 1 ∷ 1 ∷ 1 ∷ 1 ∷ 1 ∷ 1 ∷ 1 ∷ 1 ∷ 1 ∷ 1 ∷ 1 ∷ 1 ∷ 1 ∷ 1 ∷ 1 ∷ 1 ∷ 1 ∷ 1 ∷ 1 ∷ []

label_too_long :
    gpio_sysfs_probe all_well (record { available = true; label = some long_label } ∷ []) ≡ overrun
unfolding gpio_sysfs_probe
label_too_long = refl

two_probed :
    gpio_sysfs_probe all_well (usr_led ∷ spare ∷ []) ≡ done (value 0, acquire (device 0) ∷ [])
unfolding gpio_sysfs_probe
two_probed = refl

removed_devices_example :
    let l = replay (acquire (device 0) ∷ [] ++ gpio_sysfs_remove 2) nothing in
    (l.held ≡ []) × (length l.stray ≡ 2 - 1)
removed_devices_example = removed_devices all_well (usr_led ∷ spare ∷ []) two_probed

-- The direction, 0 for an output, and the level.
abbrev Desc : Type 0
Desc = ℕ × ℕ

abbrev level_of : ℕ → ℕ
level_of v = if v == 0 then 0 else 1

abbrev latch : GpioApi Desc
latch = record {
  get_direction = λ d. value d.0;
  get_value = λ d. pos d.1;
  direction_input = λ d. (none, (1, d.1));
  direction_output = λ d v. (none, (0, level_of v));
  set_value = λ d v. if d.0 == 0 then (d.0, level_of v) else d;
  out_level = λ d. d.1;
}

-- Text functions that know "in" by its first letter, and numbers of one digit.
abbrev starts_alike : List ℕ → List ℕ → Bool
starts_alike (x ∷ xs) (y ∷ ys) = x == y
starts_alike _ _ = false

abbrev api : TextApi
api = record {
  kstrtol = λ buf base. elim buf [ [] ↦ parsed (pos 0) | c ∷ cs ↦ parsed (pos (c - 48)) ];
  sysfs_streq = starts_alike;
}

abbrev led : GpiodevPrivateData Desc
led = record { label = b'l' ∷ b'e' ∷ b'd' ∷ []; desc = (0, 0) }

unlabelled_differ_example :
    (set_label 7 none ≡ done (unknown_gpio ++ digits 20 7))
    × (length (unknown_gpio ++ digits 20 7) ≤ 18)
    × (set_label 7 none ≢ set_label 70 none)
unlabelled_differ_example = unlabelled_differ 7 70 (omega arith) (omega arith) (omega arith)
