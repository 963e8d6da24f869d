-- ===== src/PcdById/Tables.antt =====
-- The table of pcd_platform_driver.c, and the configuration that a probe reads.
use Prim.Native.String.{String}
use mad_devicedriver.Prelude.{ℕ, ◌≢◌, arith, List}
use mad_devicedriver.Kernel.{overrun}
use mad_devicedriver.PcdPlatform.{PcdrvPrivateData}
use mad_devicedriver.PcdPlatform.Tables
use mad_devicedriver.PcdPlatform.Tables.{DeviceConfig, HasEntry, ids_in_config}
use mad_devicedriver.PcdById.{PlatformDevice, Answers, register_device, pcd_platform_driver_probe}

-- The same entries as in custom_drivers/005_pcd_platform_driver_dt.
abbrev pub pcdev_config : List DeviceConfig
pcdev_config = Tables.pcdev_config

abbrev pub pcdevs_ids : List (String × ℕ)
pcdevs_ids = Tables.pcdevs_ids

-- The probe of a device that an entry of the table matched reads the configuration inside its table.
pub matched_by_name_stays_inside :
    (drv : PcdrvPrivateData) (k : Answers) (pdev : PlatformDevice) (i : ℕ)
    → HasEntry pcdevs_ids i pdev.id_entry
    → pcd_platform_driver_probe drv k pdev ≢ overrun
unfolding pcd_platform_driver_probe register_device
matched_by_name_stays_inside drv k pdev i h = ground (arith, ids_in_config i pdev.id_entry h)
