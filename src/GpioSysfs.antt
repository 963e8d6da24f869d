-- ===== src/GpioSysfs.antt =====
-- custom_drivers/007_gpio_sysfs/gpio-sysfs.c: a sysfs device with the attributes direction, value and
-- label for every GPIO that a child of the device tree node describes.
pub mod Attributes
pub mod Unregister
pub mod Labels
mod Tests
use mad_devicedriver.Prelude.{
  ℕ, zero, suc, ◌+◌, ◌-◌, ◌%◌, ◌^◌, ◌≡◌, ◌≢◌, List, [], ◌∷◌, ◌++◌, Bool, true, false, Option, none,
  some, length, take, ltb, ◌==◌, not, if◌then◌else◌,
}
use mad_devicedriver.Prelude.Int.{ℤ, pos, negsuc}
use mad_devicedriver.Prelude.Decimal.{decimal}
use mad_devicedriver.Kernel.{
  Errno, enomem, einval, Ret, value, error, Outcome, done, overrun, TextApi, parsed, refused,
}
use mad_devicedriver.Setup.{class, device, driver, Call, acquire, release}

-- <linux/gpio/consumer.h>, by the state of a GPIO descriptor. `get_direction` gives 0 for an output
-- and 1 for an input; the setters give the error, or nothing. The level is an `int` in its 32 bits.
-- `out_level` is no function of the header: it is the logical level, 0 or 1, at which an output drives
-- its line, which `get_value` may or may not read back.
pub record GpioApi (Desc : Type 0) : Type 0 where
  pub get_direction : Desc → Ret
  pub get_value : Desc → ℤ
  pub direction_input : Desc → Option Errno × Desc
  pub direction_output : Desc → ℕ → Option Errno × Desc
  pub set_value : Desc → ℕ → Desc
  pub out_level : Desc → ℕ

-- The documented behaviour: the direction read is the one set, and an output is driven at the level that
-- is set, high for every number but 0.
pub record GpioLaws {Desc : Type 0} (g : GpioApi Desc) : Type 0 where
  pub input_set :
      (d : Desc)
      → (g.direction_input d).0 ≡ none
      → g.get_direction (g.direction_input d).1 ≡ value 1
  pub output_set :
      (d : Desc) (v : ℕ)
      → (g.direction_output d v).0 ≡ none
      → g.get_direction (g.direction_output d v).1 ≡ value 0
  pub drives_low : (d : Desc) → g.get_direction d ≡ value 0 → g.out_level (g.set_value d 0) ≡ 0
  pub drives_high :
      (d : Desc) (v : ℕ) → g.get_direction d ≡ value 0 → v ≢ 0 → g.out_level (g.set_value d v) ≡ 1

pub record GpiodevPrivateData (Desc : Type 0) : Type 0 where
  pub label : List ℕ
  pub desc : Desc

-- The texts "in" and "out".
abbrev pub in_text : List ℕ
in_text = b'i' ∷ b'n' ∷ []

abbrev pub out_text : List ℕ
out_text = b'o' ∷ b'u' ∷ b't' ∷ []

-- The `int` that keeps the low bits of a `long`.
abbrev pub int_word : ℤ → ℕ
int_word (pos n) = n % 2 ^ 32
int_word (negsuc n) = 2 ^ 32 - 1 - n % 2 ^ 32

-- `sprintf(buf, "%s\n", text)`.
abbrev pub line_of : List ℕ → Ret × List ℕ
line_of text = (value (length (text ++ b'\n' ∷ [])), text ++ b'\n' ∷ [])

module _ {Desc : Type 0} (g : GpioApi Desc) where
  unfoldable pub direction_show : GpiodevPrivateData Desc → Ret × List ℕ
  direction_show d = elim (g.get_direction d.desc) [
    | error e ↦ (error e, [])
    | value dir ↦ if dir == 0 then line_of out_text else line_of in_text
  ]

  -- `return ret ? : count`.
  abbrev answer : Option Errno → ℕ → Ret
  answer none count = value count
  answer (some e) count = error e

  unfoldable pub direction_store :
      TextApi → GpiodevPrivateData Desc → List ℕ → ℕ → Ret × GpiodevPrivateData Desc
  direction_store api d buf count =
      if api.sysfs_streq buf in_text
      then (
        answer (g.direction_input d.desc).0 count,
        record d { desc = (g.direction_input d.desc).1 },
      )
      else if api.sysfs_streq buf out_text
      then (
        answer (g.direction_output d.desc 0).0 count,
        record d { desc = (g.direction_output d.desc 0).1 },
      )
      else (error einval, d)

  unfoldable pub value_show : GpiodevPrivateData Desc → Ret × List ℕ
  value_show d = line_of (decimal (g.get_value d.desc))

  unfoldable pub value_store :
      TextApi → GpiodevPrivateData Desc → List ℕ → ℕ → Ret × GpiodevPrivateData Desc
  value_store api d buf count = elim (api.kstrtol buf 0) [
    | refused e ↦ (error e, d)
    | parsed v ↦ (value count, record d { desc = g.set_value d.desc (int_word v) })
  ]

abbrev pub label_show : {Desc : Type 0} → GpiodevPrivateData Desc → Ret × List ℕ
label_show d = line_of d.label

-- A child of the node, with its property "label".
pub record Child : Type 0 where
  pub available : Bool
  pub label : Option (List ℕ)

-- How the kernel answers, by the index of the device; `false` is a devm_kzalloc that returns NULL.
pub record Answers : Type 0 where
  pub alloc_devs : Bool
  pub alloc_dev_data : ℕ → Bool
  pub get_gpiod : ℕ → Option Errno
  pub direction_output : ℕ → Option Errno
  pub device_create : ℕ → Option Errno

-- The size of `label`.
abbrev pub label_size : ℕ
label_size = 20

-- Whether the label and its terminator fit; a label made by snprintf always does.
abbrev pub label_fits : Option (List ℕ) → Bool
label_fits none = true
label_fits (some text) = ltb (length text) label_size

-- "unkngpio"
abbrev pub unknown_gpio : List ℕ
unknown_gpio = b'u' ∷ b'n' ∷ b'k' ∷ b'n' ∷ b'g' ∷ b'p' ∷ b'i' ∷ b'o' ∷ []

-- The label that device `i` gets: snprintf cuts it to the size, strcpy does not.
unfoldable pub set_label : ℕ → Option (List ℕ) → Outcome (List ℕ)
set_label i none = done (take 19 (unknown_gpio ++ decimal (pos i)))
set_label i (some name) = if ltb (length name) label_size then done name else overrun

-- for_each_available_child_of_node.
abbrev pub available_children : List Child → List Child
available_children [] = []
available_children (c ∷ cs) =
    if c.available then c ∷ available_children cs else available_children cs

abbrev pub after_create : ℕ → Outcome (Ret × List Call) → Outcome (Ret × List Call)
after_create i overrun = overrun
after_create i (done (ret, calls)) = done (ret, acquire (device i) ∷ calls)

-- The body of the loop, from device `i` on. (`gpio_drv_data.dev[i]` is written whether the device is
-- there or not.)
unfoldable pub create_devices : Answers → List Child → ℕ → Outcome (Ret × List Call)
create_devices k [] i = done (value 0, [])
create_devices k (c ∷ cs) i =
    let later = create_devices k cs (suc i) in
    if not (k.alloc_dev_data i)
    then done (error enomem, [])
    else if not (label_fits c.label)
    then overrun
    else elim (k.get_gpiod i) [
      | some e ↦ done (error e, [])
      | none ↦ elim (k.direction_output i) [
        | some e ↦ done (error e, [])
        | none ↦ if not k.alloc_devs then overrun else elim (k.device_create i) [
          | some e ↦ done (error e, [])
          | none ↦ after_create i later
        ]
      ]
    ]

-- What is returned, and the calls; `total_devices` is the number of all children.
unfoldable pub gpio_sysfs_probe : Answers → List Child → Outcome (Ret × List Call)
unfolding create_devices
gpio_sysfs_probe k children =
    if length children == 0
    then done (error einval, [])
    else create_devices k (available_children children) 0

-- The loop of `gpio_sysfs_remove`, from device `i` on with `rounds` to go.
abbrev pub unregister : ℕ → ℕ → List Call
unregister zero i = []
unregister (suc rounds) i = release (device i) ∷ unregister rounds (suc i)

unfoldable pub gpio_sysfs_remove : ℕ → List Call
gpio_sysfs_remove total_devices = unregister total_devices 0

-- The answer to platform_driver_register is not looked at.
abbrev pub gpio_sysfs_init : Option Errno → Option Errno → Ret × List Call
gpio_sysfs_init (some e) register = (error e, [])
gpio_sysfs_init none none = (value 0, acquire class ∷ acquire driver ∷ [])
gpio_sysfs_init none (some e) = (value 0, acquire class ∷ [])

abbrev pub gpio_sysfs_exit : List Call
gpio_sysfs_exit = release driver ∷ release class ∷ []
