-- ===== src/PcdPlatform/Tables.antt =====
-- The tables of pcd_platform_driver_dt.c (and, with the same entries, of pcd_platform_driver_dt_sysfs.c
-- and pcd_platform_driver.c): the names of devices, and the configuration that a probe reads.
use Prim.Native.String.{String}
use mad_devicedriver.Prelude.{
  ℕ, zero, suc, ◌<◌, ◌≡◌, ◌≢◌, refl, arith, List, [], ◌∷◌, Option, none, some, get_elem?, length,
}
use mad_devicedriver.Kernel.{overrun}
use mad_devicedriver.PcdPlatform.{
  PcdrvPrivateData, PlatformDevice, Answers, Platdata, config_entries, platdata_of, probe_with,
  register_device, pcd_platform_driver_probe,
}

-- enum pcdev_names
abbrev pub pcdeva1x : ℕ
pcdeva1x = 0

abbrev pub pcdevb1x : ℕ
pcdevb1x = 1

abbrev pub pcdevc1x : ℕ
pcdevc1x = 2

abbrev pub pcdevd1x : ℕ
pcdevd1x = 3

pub record DeviceConfig : Type 0 where
  pub config_item1 : ℕ
  pub config_item2 : ℕ

abbrev pub pcdev_config : List DeviceConfig
pcdev_config =
    record { config_item1 = 60; config_item2 = 21 }
    ∷ record { config_item1 = 50; config_item2 = 22 }
    ∷ record { config_item1 = 40; config_item2 = 23 }
    ∷ record { config_item1 = 30; config_item2 = 24 }
    ∷ []

-- Names with their `driver_data`.
abbrev pub pcdevs_ids : List (String × ℕ)
pcdevs_ids =
    ("pcdev-A1x", pcdeva1x)
    ∷ ("pcdev-B1x", pcdevb1x)
    ∷ ("pcdev-C1x", pcdevc1x)
    ∷ ("pcdev-D1x", pcdevd1x)
    ∷ []

-- Values of the property "compatible" with their `data`.
abbrev pub org_pcdev_dt_match : List (String × ℕ)
org_pcdev_dt_match =
    ("pcdev-A1x", pcdeva1x)
    ∷ ("pcdev-B1x", pcdevb1x)
    ∷ ("pcdev-C1x", pcdevc1x)
    ∷ ("pcdev-D1x", pcdevd1x)
    ∷ []

pub config_entries-length : config_entries ≡ length pcdev_config
config_entries-length = refl

-- The entry at an index has this data.
abbrev pub HasEntry : List (String × ℕ) → ℕ → ℕ → Type 0
HasEntry table i n = elim (get_elem? table i) [ none ↦ ⊥ | some (name, m) ↦ m ≡ n ]

pub ids_in_config : (i n : ℕ) → HasEntry pcdevs_ids i n → n < config_entries
ids_in_config zero n h = omega arith
ids_in_config (suc zero) n h = omega arith
ids_in_config (suc (suc zero)) n h = omega arith
ids_in_config (suc (suc (suc zero))) n h = omega arith
ids_in_config (suc (suc (suc (suc i)))) n h = absurd h

-- How the kernel matched the device, with entry `i` of a table: by its node, or by its name.
abbrev pub MatchedBy : Option ℕ → ℕ → ℕ → Type 0
MatchedBy (some n) id_entry i = HasEntry org_pcdev_dt_match i n
MatchedBy none id_entry i = HasEntry pcdevs_ids i id_entry

driver_data-inside :
    (match_data : Option ℕ) (id_entry i : ℕ) (from_dt given : Platdata)
    → MatchedBy match_data id_entry i
    → let found : Platdata × ℕ = elim match_data [
      | some n ↦ (from_dt, n)
      | none ↦ (given, id_entry)
    ] in
      found.1 < config_entries
driver_data-inside (some n) id_entry i from_dt given h = ids_in_config i n h
driver_data-inside none id_entry i from_dt given h = ids_in_config i id_entry h

probe_with-inside :
    (drv : PcdrvPrivateData) (k : Answers) (p : Platdata) (n : ℕ)
    → n < config_entries
    → probe_with drv k (p, n) ≢ overrun
unfolding probe_with register_device
probe_with-inside drv k p n h = ground arith

-- The probe of a device that an entry of the tables matched reads the configuration inside its table.
pub matched_probe_stays_inside :
    (drv : PcdrvPrivateData) (k : Answers) (pdev : PlatformDevice) (i : ℕ)
    → MatchedBy pdev.of_match pdev.id_entry i
    → pcd_platform_driver_probe drv k pdev ≢ overrun
unfolding pcd_platform_driver_probe platdata_of
matched_probe_stays_inside drv k pdev i h =
    probe_with-inside drv k _ _ (driver_data-inside pdev.of_match pdev.id_entry i _ _ h)
