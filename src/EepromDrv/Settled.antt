-- ===== src/EepromDrv/Settled.antt =====
-- What a probe of i2c_eeprom_drv.c holds, and what is left after the removal.
use mad_devicedriver.Prelude.{◌≡◌, ◌⊎◌, arith, List, ◌++◌, true}
use mad_devicedriver.Kernel.{enomem, value, error, done}
use mad_devicedriver.Setup.{Call, replay, nothing}
use mad_devicedriver.EepromDrv.{Answers, create_cdev, delete_cdev, i2c_probe, i2c_remove}

-- A probe whose private data is allocated ends in one of two ways: it returns 0, and the removal then
-- gives back just what it holds, so that nothing is left and nothing given back that is not held; or it
-- fails with ENOMEM and holds nothing.
pub eeprom_all_or_nothing :
    (k : Answers)
    → k.devm_kzalloc ≡ true
    → (calls : List Call) × (((i2c_probe k ≡ done (value 0, calls))
          × (replay (calls ++ i2c_remove) nothing ≡ nothing))
        ⊎ ((i2c_probe k ≡ done (error enomem, calls)) × (replay calls nothing ≡ nothing)))
unfolding i2c_probe i2c_remove create_cdev delete_cdev
eeprom_all_or_nothing k there = ((create_cdev k).1, ground arith)
