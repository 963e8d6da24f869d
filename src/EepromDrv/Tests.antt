-- ===== src/EepromDrv/Tests.antt =====
-- Runs of i2c_eeprom_drv.c.
use mad_devicedriver.Prelude.{◌≡◌, refl, List, [], ◌∷◌, true, none, some}
use mad_devicedriver.Kernel.{enomem, value, error, done}
use mad_devicedriver.Setup.{Call}
use mad_devicedriver.EepromDrv.{Answers, create_cdev, i2c_probe, mydevice_read}

-- The class is refused.
abbrev no_class : Answers
no_class = record {
  devm_kzalloc = true;
  alloc_chrdev_region = none;
  cdev_add = none;
  class_create = some 12;
}

no_class_runs : (calls : List Call) × (i2c_probe no_class ≡ done (error enomem, calls))
unfolding i2c_probe create_cdev
no_class_runs = (_, refl)

-- "id = 0x3F" and a newline, however few bytes are asked for.
id_runs :
    mydevice_read 0x3f 1
    ≡ (value 10, b'i' ∷ b'd' ∷ b' ' ∷ b'=' ∷ b' ' ∷ b'0' ∷ b'x' ∷ b'3' ∷ b'F' ∷ b'\n' ∷ [])
unfolding mydevice_read
id_runs = refl
