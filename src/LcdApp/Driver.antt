-- ===== src/LcdApp/Driver.antt =====
-- custom_drivers/007_gpio_sysfs_lcd/gpio-sysfs.c, line for line the driver of custom_drivers/007_gpio_sysfs:
-- its functions, by the names of the model of that file.
use mad_devicedriver.Prelude.{ℕ, List, Option}
use mad_devicedriver.Kernel.{Errno, Ret, Outcome, TextApi}
use mad_devicedriver.Setup.{Call}
use mad_devicedriver.GpioSysfs
use mad_devicedriver.GpioSysfs.{GpioApi, GpiodevPrivateData, Child, Answers}

module _ {Desc : Type 0} (g : GpioApi Desc) where
  abbrev pub direction_show : GpiodevPrivateData Desc → Ret × List ℕ
  direction_show d = GpioSysfs.direction_show g d

  abbrev pub direction_store :
      TextApi → GpiodevPrivateData Desc → List ℕ → ℕ → Ret × GpiodevPrivateData Desc
  direction_store api d buf count = GpioSysfs.direction_store g api d buf count

  abbrev pub value_show : GpiodevPrivateData Desc → Ret × List ℕ
  value_show d = GpioSysfs.value_show g d

  abbrev pub value_store :
      TextApi → GpiodevPrivateData Desc → List ℕ → ℕ → Ret × GpiodevPrivateData Desc
  value_store api d buf count = GpioSysfs.value_store g api d buf count

abbrev pub label_show : {Desc : Type 0} → GpiodevPrivateData Desc → Ret × List ℕ
label_show d = GpioSysfs.label_show d

abbrev pub set_label : ℕ → Option (List ℕ) → Outcome (List ℕ)
set_label i label = GpioSysfs.set_label i label

abbrev pub gpio_sysfs_probe : Answers → List Child → Outcome (Ret × List Call)
gpio_sysfs_probe k children = GpioSysfs.gpio_sysfs_probe k children

abbrev pub gpio_sysfs_remove : ℕ → List Call
gpio_sysfs_remove total_devices = GpioSysfs.gpio_sysfs_remove total_devices

abbrev pub gpio_sysfs_init : Option Errno → Option Errno → Ret × List Call
gpio_sysfs_init class_create register = GpioSysfs.gpio_sysfs_init class_create register

abbrev pub gpio_sysfs_exit : List Call
gpio_sysfs_exit = GpioSysfs.gpio_sysfs_exit
