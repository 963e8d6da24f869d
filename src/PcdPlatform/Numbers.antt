-- ===== src/PcdPlatform/Numbers.antt =====
-- The device numbers that the driver hands out as devices come and go.
use mad_devicedriver.Prelude.{
  ℕ, zero, suc, ◌+◌, ◌-◌, ◌≤◌, ◌≡◌, refl, ap, ◌∙◌, sym, arith, List, [], ◌∷◌, ◌++◌, map, length,
  length-map, none, some,
}
use mad_devicedriver.Kernel.{done}
use mad_devicedriver.PcdPlatform.{
  PcdevPrivateData, PcdrvPrivateData, PlatformDevice, Answers, Probed, pcd_platform_driver_probe,
  pcd_platform_driver_remove, max_devices,
}
use mad_devicedriver.PcdPlatform.Probe.{pcd_platform_driver_probe-IsSettled}

-- The driver with the devices that it has bound, the latest first.
pub record Bus : Type 0 where
  pub drv : PcdrvPrivateData
  pub devices : List PcdevPrivateData

-- Devices come at any time and go in the opposite order, as on a module's unload.
pub data Step (b : Bus) : Bus → Type 0 where
  bind :
      (k : Answers) (pdev : PlatformDevice) {p : Probed} {d : PcdevPrivateData}
      → pcd_platform_driver_probe b.drv k pdev ≡ done p
      → p.bound ≡ some d
      → Step b (record { drv = p.drv; devices = d ∷ b.devices })
  refuse :
      (k : Answers) (pdev : PlatformDevice) {p : Probed}
      → pcd_platform_driver_probe b.drv k pdev ≡ done p
      → p.bound ≡ none
      → Step b (record { drv = p.drv; devices = b.devices })
  remove_latest :
      {d : PcdevPrivateData} {rest : List PcdevPrivateData}
      → b.devices ≡ d ∷ rest
      → Step b (record { drv = (pcd_platform_driver_remove b.drv d).0; devices = rest })

pub data Reach (b : Bus) : Bus → Type 0 where
  here : Reach b b
  next : {c e : Bus} → Reach b c → Step c e → Reach b e

abbrev pub loaded : Bus
loaded = record { drv = record { total_devices = 0 }; devices = [] }

abbrev pub numbers : List PcdevPrivateData → List ℕ
numbers ds = map (λ (d : PcdevPrivateData). d.dev_num) ds

-- n - 1, …, 1, 0
abbrev pub countdown : ℕ → List ℕ
countdown zero = []
countdown (suc n) = n ∷ countdown n

abbrev InOrder : Bus → Type 0
InOrder b = numbers b.devices ≡ countdown b.drv.total_devices

countdown-cons :
    (n x : ℕ) (xs : List ℕ) → x ∷ xs ≡ countdown n → (n ≡ suc x) × (xs ≡ countdown (n - 1))
countdown-cons zero x xs h = absurd (cc)
countdown-cons (suc n) x xs h = ground arith

length-countdown : (n : ℕ) → length (countdown n) ≡ n
length-countdown zero = refl
length-countdown (suc n) = ap suc (length-countdown n)

countdown-add_one : (n : ℕ) → countdown (n + 1) ≡ n ∷ countdown n
countdown-add_one n = let e : n + 1 ≡ suc n = omega arith in rw e

Step-InOrder : {b c : Bus} → Step b c → InOrder b → InOrder c
unfolding pcd_platform_driver_remove
Step-InOrder {b} (bind k pdev {p} {d} run e) h =
    let s = pcd_platform_driver_probe-IsSettled b.drv k pdev run in
    let (zero_ret, number) = s.numbered d e in rw (s.counted zero_ret, countdown-add_one, number, h)
Step-InOrder {b} (refuse k pdev {p} run e) h =
    let s = pcd_platform_driver_probe-IsSettled b.drv k pdev run in
    let (_, kept, _) = s.refused (λ zero_ret. s.bound zero_ret e) in rw kept h
Step-InOrder {b} (remove_latest {d} {rest} e) h =
    (countdown-cons b.drv.total_devices d.dev_num (numbers rest) (ap numbers (sym e) ∙ h)).1

-- From the loaded module on, as long as devices go in the opposite order to that in which they came,
-- the bound devices have the numbers 0 up to one below their count, each once, and the count that the
-- driver keeps is their number.
pub numbers_in_order :
    {b : Bus} → Reach loaded b → numbers b.devices ≡ countdown b.drv.total_devices
numbers_in_order here = refl
numbers_in_order (next r s) = Step-InOrder s (numbers_in_order r)

-- While the devices bound have come and gone in opposite orders: when another device than the
-- latest goes, the next one to be bound gets the number of the latest, which is still bound.
pub number_reused :
    (b : Bus) (latest gone : PcdevPrivateData) (newer older : List PcdevPrivateData) (k : Answers)
    (pdev : PlatformDevice) {p : Probed} {fresh : PcdevPrivateData}
    → Reach loaded b
    → b.devices ≡ latest ∷ (newer ++ gone ∷ older)
    → pcd_platform_driver_probe (pcd_platform_driver_remove b.drv gone).0 k pdev ≡ done p
    → p.bound ≡ some fresh
    → fresh.dev_num ≡ latest.dev_num
unfolding pcd_platform_driver_remove
number_reused b latest gone newer older k pdev {p} {fresh} r e run bound =
    let s =
      pcd_platform_driver_probe-IsSettled (pcd_platform_driver_remove b.drv gone).0 k pdev run in
    let first =
      countdown-cons b.drv.total_devices latest.dev_num (numbers (newer ++ gone ∷ older))
        (ap numbers (sym e) ∙ numbers_in_order r) in
    omega (arith, (s.numbered fresh bound).1, first.0)

-- A probe does not look at the size of the region of device numbers: with MAX_DEVICES devices bound,
-- the next one that is bound gets a number outside the region.
pub number_past_region :
    (b : Bus) (k : Answers) (pdev : PlatformDevice) {p : Probed} {d : PcdevPrivateData}
    → Reach loaded b
    → length b.devices ≡ max_devices
    → pcd_platform_driver_probe b.drv k pdev ≡ done p
    → p.bound ≡ some d
    → max_devices ≤ d.dev_num
number_past_region b k pdev {p} {d} r full run e =
    let s = pcd_platform_driver_probe-IsSettled b.drv k pdev run in
    omega (
      arith,
      (s.numbered d e).1,
      full,
      length-map b.devices (λ (x : PcdevPrivateData). x.dev_num),
      ap length (numbers_in_order r),
      length-countdown b.drv.total_devices,
    )
