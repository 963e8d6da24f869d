-- ===== src/PcdById/Numbers.antt =====
-- The device numbers of custom_drivers/004_pcd_platform_driver as devices come and go in any order.
use mad_devicedriver.Prelude.{
  ℕ, ◌+◌, ◌≡◌, ◌≢◌, refl, sym, subst, ap, ◌∙◌, arith, List, [], ◌∷◌, ◌++◌, length, none, some,
}
use mad_devicedriver.Kernel.{done}
use mad_devicedriver.PcdPlatform
use mad_devicedriver.PcdPlatform.{PcdevPrivateData, PcdrvPrivateData, Probed}
use mad_devicedriver.PcdById.{
  PlatformDevice, Answers, register_device, pcd_platform_driver_probe, pcd_platform_driver_remove,
}

-- Every device of the list has another number than `n`.
pub data Fresh (n : ℕ) : List PcdevPrivateData → Type 0 where
  fresh_nil : Fresh n []
  fresh_cons :
      {d : PcdevPrivateData} {ds : List PcdevPrivateData}
      → d.dev_num ≢ n
      → Fresh n ds
      → Fresh n (d ∷ ds)

-- No two devices of the list have the same number.
pub data Distinct : List PcdevPrivateData → Type 0 where
  distinct_nil : Distinct []
  distinct_cons :
      {d : PcdevPrivateData} {ds : List PcdevPrivateData}
      → Fresh d.dev_num ds
      → Distinct ds
      → Distinct (d ∷ ds)

-- A platform device, and what the driver keeps of it.
pub record Bound : Type 0 where
  pub pdev : PlatformDevice
  pub dev_data : PcdevPrivateData

-- No device of the list has the id `n`.
pub data NewId (n : ℕ) : List Bound → Type 0 where
  new_nil : NewId n []
  new_cons : {b : Bound} {bs : List Bound} → b.pdev.id ≢ n → NewId n bs → NewId n (b ∷ bs)

-- The driver with the devices that it has bound, the latest first.
pub record Bus : Type 0 where
  pub drv : PcdrvPrivateData
  pub devices : List Bound

-- Devices come and go in any order; no two of those that are bound at a time have the same id. (The
-- platform bus itself sees only to it that no two have the same name and id.)
pub data Step (b : Bus) : Bus → Type 0 where
  bind :
      (k : Answers) (pdev : PlatformDevice) {p : Probed} {d : PcdevPrivateData}
      → NewId pdev.id b.devices
      → pcd_platform_driver_probe b.drv k pdev ≡ done p
      → p.bound ≡ some d
      → Step b (record { drv = p.drv; devices = record { pdev = pdev; dev_data = d } ∷ b.devices })
  refuse :
      (k : Answers) (pdev : PlatformDevice) {p : Probed}
      → pcd_platform_driver_probe b.drv k pdev ≡ done p
      → p.bound ≡ none
      → Step b (record { drv = p.drv; devices = b.devices })
  remove_any :
      (newer older : List Bound) (gone : Bound)
      → b.devices ≡ newer ++ gone ∷ older
      → Step b (record {
        drv = (pcd_platform_driver_remove b.drv gone.dev_data).0;
        devices = newer ++ older;
      })

pub data Reach (b : Bus) : Bus → Type 0 where
  here : Reach b b
  next : {c e : Bus} → Reach b c → Step c e → Reach b e

abbrev pub loaded : Bus
loaded = record { drv = record { total_devices = 0 }; devices = [] }

abbrev pub data_of : List Bound → List PcdevPrivateData
data_of [] = []
data_of (b ∷ bs) = b.dev_data ∷ data_of bs

-- Every device has its id as its number.
pub data ById : List Bound → Type 0 where
  by_id_nil : ById []
  by_id_cons :
      {b : Bound} {bs : List Bound} → b.dev_data.dev_num ≡ b.pdev.id → ById bs → ById (b ∷ bs)

Fresh-NewId : {n : ℕ} {bs : List Bound} → ById bs → NewId n bs → Fresh n (data_of bs)
Fresh-NewId by_id_nil new_nil = fresh_nil
Fresh-NewId (by_id_cons e r) (new_cons h f) =
    fresh_cons (λ same. h (sym e ∙ same)) (Fresh-NewId r f)

ById-remove :
    (newer : List Bound) (gone : Bound) (older : List Bound)
    → ById (newer ++ gone ∷ older)
    → ById (newer ++ older)
ById-remove [] gone older (by_id_cons e r) = r
ById-remove (b ∷ newer) gone older (by_id_cons e r) = by_id_cons e (ById-remove newer gone older r)

Fresh-remove :
    {n : ℕ} (newer : List Bound) (gone : Bound) (older : List Bound)
    → Fresh n (data_of (newer ++ gone ∷ older))
    → Fresh n (data_of (newer ++ older))
Fresh-remove [] gone older (fresh_cons h f) = f
Fresh-remove (d ∷ newer) gone older (fresh_cons h f) =
    fresh_cons h (Fresh-remove newer gone older f)

Distinct-remove :
    (newer : List Bound) (gone : Bound) (older : List Bound)
    → Distinct (data_of (newer ++ gone ∷ older))
    → Distinct (data_of (newer ++ older))
Distinct-remove [] gone older (distinct_cons f r) = r
Distinct-remove (d ∷ newer) gone older (distinct_cons f r) =
    distinct_cons (Fresh-remove newer gone older f) (Distinct-remove newer gone older r)

length-remove :
    (newer older : List Bound) (gone : Bound)
    → length (newer ++ gone ∷ older) ≡ length (newer ++ older) + 1
length-remove [] older gone = omega arith
length-remove (d ∷ newer) older gone = omega (arith, length-remove newer older gone)

-- A probe that binds a device gives it the id as its number, and counts it.
probe_bound :
    (drv : PcdrvPrivateData) (k : Answers) (pdev : PlatformDevice) {p : Probed}
    {d : PcdevPrivateData}
    → pcd_platform_driver_probe drv k pdev ≡ done p
    → p.bound ≡ some d
    → (d.dev_num ≡ pdev.id) × (p.drv.total_devices ≡ drv.total_devices + 1)
unfolding pcd_platform_driver_probe register_device
probe_bound drv k pdev run e = ground arith

probe_refused :
    (drv : PcdrvPrivateData) (k : Answers) (pdev : PlatformDevice) {p : Probed}
    → pcd_platform_driver_probe drv k pdev ≡ done p
    → p.bound ≡ none
    → p.drv.total_devices ≡ drv.total_devices
unfolding pcd_platform_driver_probe register_device
probe_refused drv k pdev run e = ground arith

pub record IsNumbered (b : Bus) : Type 0 where
  pub by_id : ById b.devices
  pub distinct : Distinct (data_of b.devices)
  pub counted : b.drv.total_devices ≡ length b.devices

Step-IsNumbered : {b c : Bus} → Step b c → IsNumbered b → IsNumbered c
unfolding PcdPlatform.pcd_platform_driver_remove
Step-IsNumbered {b} (bind k pdev {p} {d} new run e) v =
    let (number, count) = probe_bound b.drv k pdev run e in
    record {
      by_id = by_id_cons number v.by_id;
      distinct =
          distinct_cons
            (subst (λ n. Fresh n (data_of b.devices)) (sym number) (Fresh-NewId v.by_id new))
            v.distinct;
      counted = omega (arith, count, v.counted);
    }
Step-IsNumbered {b} (refuse k pdev run e) v = record {
  by_id = v.by_id;
  distinct = v.distinct;
  counted = omega (arith, probe_refused b.drv k pdev run e, v.counted);
}
Step-IsNumbered {b} (remove_any newer older gone e) v = record {
  by_id = ById-remove newer gone older (subst ById e v.by_id);
  distinct = Distinct-remove newer gone older (subst (λ bs. Distinct (data_of bs)) e v.distinct);
  counted = omega (arith, v.counted, ap length e, length-remove newer older gone);
}

-- In every state reached from the loaded module, with devices bound under distinct ids and removed in
-- any order: each bound device has its id as its number, so that no two have the same, and the count
-- that the driver keeps is that of the bound devices.
pub numbers_distinct : {b : Bus} → Reach loaded b → IsNumbered b
numbers_distinct here = record { by_id = by_id_nil; distinct = distinct_nil; counted = refl }
numbers_distinct (next r s) = Step-IsNumbered s (numbers_distinct r)
