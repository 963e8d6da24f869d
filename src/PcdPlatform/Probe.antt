-- ===== src/PcdPlatform/Probe.antt =====
-- One probe of the platform driver: it binds the device completely or leaves everything as it was.
use Prim.Native.String.{String}
use mad_devicedriver.Prelude.{
  refl, Option, ℕ, ◌+◌, ◌^◌, ◌≤◌, ◌<◌, ◌≡◌, ◌≢◌, ◌⊎◌, arith, [], ◌∷◌, true, none, some, sext32,
  length, length-replicate, leb, Bool-cases, inl, inr,
}
use mad_devicedriver.Kernel.{by_return, Errno, enomem, einval, value, done, Uaccess}
use mad_devicedriver.Pcd.Transfer.{
  IsPlaced, read_spec, write_spec, read_at-read_spec, write_at-write_spec,
}
use mad_devicedriver.Setup.{cdev, device, replay, nothing}
use mad_devicedriver.PcdPlatform.{
  PcdevPlatformData, PcdevPrivateData, PcdrvPrivateData, DeviceNode, PlatformDevice, Answers,
  Platdata, null, err_ptr, at, Probed, refuse, config_entries, platdata_of, probe_with,
  register_device, kzalloc, pcd_platform_driver_probe, pcd_read, pcd_write,
}

-- A probe that returns 0 has bound a device with the next number, counted it, and holds its cdev and
-- its node; one that does not has bound nothing, counted nothing and holds nothing.
pub record IsSettled (drv : PcdrvPrivateData) (p : Probed) : Type 0 where
  pub no_stray : (replay p.calls nothing).stray ≡ []
  pub counted : p.ret ≡ value 0 → p.drv.total_devices ≡ drv.total_devices + 1
  pub held :
      p.ret ≡ value 0
      → (replay p.calls nothing).held ≡ device drv.total_devices ∷ cdev drv.total_devices ∷ []
  pub bound : p.ret ≡ value 0 → p.bound ≢ none
  pub numbered :
      (d : PcdevPrivateData)
      → p.bound ≡ some d
      → (p.ret ≡ value 0) × (d.dev_num ≡ drv.total_devices)
  pub refused :
      p.ret ≢ value 0 → (p.bound ≡ none) × (p.drv ≡ drv) × ((replay p.calls nothing).held ≡ [])

register_device-IsSettled :
    (drv : PcdrvPrivateData) (k : Answers) (pdata : PcdevPlatformData) {p : Probed}
    → register_device drv k pdata ≡ done p
    → IsSettled drv p
unfolding register_device
register_device-IsSettled drv k pdata run = record {
  no_stray = ground arith;
  counted = λ e. ground arith;
  held = λ e. ground arith;
  bound = λ e b. ground arith;
  numbered = λ d e. ground arith;
  refused = λ e. ground arith;
}

refuse-IsSettled :
    (drv : PcdrvPrivateData) (e : Errno) {p : Probed} → refuse drv e [] ≡ done p → IsSettled drv p
refuse-IsSettled drv e run = record {
  no_stray = ground arith;
  counted = λ f. ground arith;
  held = λ f. ground arith;
  bound = λ f b. ground arith;
  numbered = λ d f. ground arith;
  refused = λ f. ground arith;
}

probe_with-IsSettled :
    (drv : PcdrvPrivateData) (k : Answers) (from : Platdata × ℕ) {p : Probed}
    → probe_with drv k from ≡ done p
    → IsSettled drv p
unfolding probe_with
probe_with-IsSettled drv k (null, n) {p} run = refuse-IsSettled drv einval run
probe_with-IsSettled drv k (err_ptr e, n) {p} run = refuse-IsSettled drv e run
probe_with-IsSettled drv k (at pdata, n) {p} run = elim (Bool-cases k.alloc_dev_data) [
  | inl a ↦ elim (Bool-cases (leb config_entries n)) [
    | inl past ↦ absurd (ground arith)
    | inr inside ↦ register_device-IsSettled drv k pdata (ground arith)
  ]
  | inr a ↦ refuse-IsSettled drv enomem (ground arith)
]

pub pcd_platform_driver_probe-IsSettled :
    (drv : PcdrvPrivateData) (k : Answers) (pdev : PlatformDevice) {p : Probed}
    → pcd_platform_driver_probe drv k pdev ≡ done p
    → IsSettled drv p
unfolding pcd_platform_driver_probe
pcd_platform_driver_probe-IsSettled drv k pdev run =
    probe_with-IsSettled drv k (platdata_of k pdev) run

bound_some : (o : Option PcdevPrivateData) → o ≢ none → (d : PcdevPrivateData) × (o ≡ some d)
bound_some none h = absurd (h refl)
bound_some (some d) h = (d, refl)

-- A probe that returns 0 has bound a device whose number is the count of devices so far, has raised
-- that count by one, and holds exactly the device's cdev and node; a probe that returns anything else
-- has bound nothing, left the count alone and holds nothing. No probe releases what it does not hold.
pub probe_all_or_nothing :
    (drv : PcdrvPrivateData) (k : Answers) (pdev : PlatformDevice) {p : Probed}
    → pcd_platform_driver_probe drv k pdev ≡ done p
    → let l = replay p.calls nothing in
      let n = drv.total_devices in
      (l.stray ≡ [])
      × (((p.ret ≡ value 0)
            × (((d : PcdevPrivateData) × (p.bound ≡ some d) × (d.dev_num ≡ n))
                × (p.drv.total_devices ≡ n + 1)
                × (l.held ≡ device n ∷ cdev n ∷ [])))
          ⊎ ((p.ret ≢ value 0) × ((p.bound ≡ none) × (p.drv ≡ drv) × (l.held ≡ []))))
probe_all_or_nothing drv k pdev {p} run =
    let s = pcd_platform_driver_probe-IsSettled drv k pdev run in
    let numbered : p.ret ≡ value 0
        → (d : PcdevPrivateData) × (p.bound ≡ some d) × (d.dev_num ≡ drv.total_devices) =
      λ e. let (d, b) = bound_some p.bound (s.bound e) in (d, b, (s.numbered d b).1) in
    (s.no_stray, by_return p.ret (λ e. (numbered e, s.counted e, s.held e)) s.refused)

-- For a device matched through its node, with memory for the platform data: a node with all three
-- properties gives platform data with just these, and one with any of them missing is refused with
-- -EINVAL.
pub node_complete_or_refused :
    (k : Answers) (pdev : PlatformDevice) (n : ℕ) (node : DeviceNode)
    → pdev.of_match ≡ some n
    → pdev.of_node ≡ some node
    → k.alloc_pdata ≡ true
    → ((serial : String) (size perm : ℕ)
        → node.serial_num ≡ some serial
        → node.size ≡ some size
        → node.perm ≡ some perm
        → platdata_of k pdev
          ≡ (at (record { size = size; perm = perm; serial_number = serial }), n))
      × ((node.serial_num ≡ none) ⊎ (node.size ≡ none) ⊎ (node.perm ≡ none)
          → platdata_of k pdev ≡ (err_ptr einval, n))
unfolding platdata_of
node_complete_or_refused k pdev n node m e a =
    (λ s size perm p q r. ground arith, λ missing. ground arith)

length-kzalloc : (n : ℕ) → length (kzalloc n) ≡ n
unfolding kzalloc
length-kzalloc n = length-replicate n 0

bound_buffer :
    (drv : PcdrvPrivateData) (k : Answers) (from : Platdata × ℕ) {p : Probed} (d : PcdevPrivateData)
    → probe_with drv k from ≡ done p
    → p.bound ≡ some d
    → d.buffer ≡ kzalloc (sext32 d.pdata.size)
unfolding probe_with
bound_buffer drv k (null, n) d run b = ground arith
bound_buffer drv k (err_ptr e, n) d run b = ground arith
bound_buffer drv k (at pdata, n) d run b = ground arith

-- A device that a probe has bound, of a size that an `int` holds, has memory for that size: at
-- every position up to it, reads and writes with a count below 2^63 come to an end inside that
-- memory, with what `read_spec` and `write_spec` say.
pub bound_device_serves :
    {Mem : Type 0} (u : Uaccess Mem) (drv : PcdrvPrivateData) (k : Answers) (pdev : PlatformDevice)
    {p : Probed} (d : PcdevPrivateData) (f_pos : ℕ) (mem : Mem) (buff count : ℕ)
    → pcd_platform_driver_probe drv k pdev ≡ done p
    → p.bound ≡ some d
    → d.pdata.size < 2 ^ 31
    → f_pos ≤ d.pdata.size
    → count < 2 ^ 63
    → (pcd_read u d f_pos mem buff count
        ≡ done (read_spec u (sext32 d.pdata.size) d.buffer f_pos mem buff count))
      × (pcd_write u d f_pos mem buff count
          ≡ done (write_spec u (sext32 d.pdata.size) d.buffer f_pos mem buff count))
unfolding pcd_platform_driver_probe pcd_read pcd_write
bound_device_serves u drv k pdev {p} d f_pos mem buff count run b small within c =
    let placed : IsPlaced (sext32 d.pdata.size) d.buffer f_pos = ground (
      arith,
      bound_buffer drv k (platdata_of k pdev) d run b,
      length-kzalloc (sext32 d.pdata.size),
    ) in
    (
      read_at-read_spec u (sext32 d.pdata.size) d.buffer f_pos mem buff count placed c,
      write_at-write_spec u (sext32 d.pdata.size) d.buffer f_pos mem buff count placed c,
    )
