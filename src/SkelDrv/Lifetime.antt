-- ===== src/SkelDrv/Lifetime.antt =====
-- When the structure of a device of usb_skel_drv.c is freed, and what is held until then.
use mad_devicedriver.Prelude.{
  ℕ, zero, suc, ◌+◌, ◌-◌, ◌≡◌, ◌≢◌, ◌⊎◌, inl, inr, refl, sym, subst, ap, arith, List, [], ◌∷◌, Bool,
  true, false, Option, none, some, ◌==◌, if◌then◌else◌,
}
use mad_devicedriver.Kernel.{Errno, value, error}
use mad_devicedriver.Setup.{
  memory, minor, urb, buffer, usb_device, interface, intfdata, Resource, replay, nothing,
}
use mad_devicedriver.SkelDrv.Life.{
  Answers, Life, Step, Reach, opens, releases, disconnects, here, next, skel_probe, attached,
  skel_open, skel_release, skel_disconnect,
}

-- The structure and what it has.
abbrev structure : List Resource
structure = urb ∷ buffer ∷ interface ∷ usb_device ∷ memory ∷ []

-- What is held, by whether the interface names the structure and by the open files.
abbrev pub held_with : Bool → ℕ → List Resource
held_with true files = minor ∷ intfdata ∷ structure
held_with false (suc files) = structure
held_with false zero = []

-- A probe that fails gives back all that it took; one that returns 0 holds the structure with its
-- buffer and URB, the interface's data and the minor.
pub probe_settles :
    (k : Answers)
    → let (ret, calls) = skel_probe k in
      ((ret ≡ value 0) × (replay calls nothing ≡ record { held = held_with true 0; stray = [] }))
      ⊎ ((e : Errno) × (ret ≡ error e) × (replay calls nothing ≡ nothing))
unfolding skel_probe
probe_settles k = ground arith

-- The state by these two: the interface has one use of the structure, and each open file one.
abbrev pub canon : Bool → ℕ → Life
canon named files = record {
  named = named;
  kref = files + (if named then 1 else 0);
  files = files;
  autopm = files;
  ledger = record { held = held_with named files; stray = [] };
}

-- Every state is one of these.
abbrev pub IsCanon : Life → Type 0
IsCanon l = l ≡ canon l.named l.files

open-canon :
    (named : Bool) (files : ℕ) (found : Bool) (autopm_get : Option Errno)
    → IsCanon (skel_open (canon named files) found autopm_get).1
unfolding skel_open
open-canon named files false autopm_get = refl
open-canon false files true autopm_get = refl
open-canon true files true (some e) = refl
open-canon true files true none = refl

release-canon : (named : Bool) (files : ℕ) → IsCanon (skel_release (canon named (suc files))).1
unfolding skel_release
release-canon true files =
    let used : suc files + 1 == 1 ≡ false = ground arith in
    let one_less : suc files - 1 ≡ files = omega arith in
    let kept : suc files + 1 - 1 ≡ files + 1 = omega arith in rw (used, one_less, kept) refl
release-canon false zero = refl
release-canon false (suc files) =
    let used : suc (suc files) + 0 == 1 ≡ false = ground arith in
    let one_less : suc (suc files) - 1 ≡ suc files = omega arith in
    let kept : suc (suc files) + 0 - 1 ≡ suc files + 0 = omega arith in
    rw (used, one_less, kept) refl

disconnect-canon : (files : ℕ) → IsCanon (skel_disconnect (canon true files))
unfolding skel_disconnect
disconnect-canon zero = refl
disconnect-canon (suc files) =
    let used : suc files + 1 == 1 ≡ false = ground arith in
    let kept : suc files + 1 - 1 ≡ suc files + 0 = omega arith in rw (used, kept) refl

released-canon :
    (named : Bool) (files : ℕ) → files ≢ 0 → IsCanon (skel_release (canon named files)).1
released-canon named zero h = absurd (h refl)
released-canon named (suc files) h = release-canon named files

disconnected-canon :
    (named : Bool) (files : ℕ) → named ≡ true → IsCanon (skel_disconnect (canon named files))
disconnected-canon true files h = disconnect-canon files
disconnected-canon false files h = absurd (ground arith)

Step-IsCanon : (l m : Life) → Step l m → IsCanon l → IsCanon m
Step-IsCanon l _ (opens found autopm_get) e =
    subst (λ c. IsCanon (skel_open c found autopm_get).1) (sym e)
      (open-canon l.named l.files found autopm_get)
Step-IsCanon l _ (releases h) e =
    subst (λ c. IsCanon (skel_release c).1) (sym e) (released-canon l.named l.files h)
Step-IsCanon l _ (disconnects h) e =
    subst (λ c. IsCanon (skel_disconnect c)) (sym e) (disconnected-canon l.named l.files h)

Reach-IsCanon : (l m : Life) → Reach l m → IsCanon l → IsCanon m
Reach-IsCanon l _ here e = e
Reach-IsCanon l _ (next {m = m} {n = n} path last) e =
    Step-IsCanon m n last (Reach-IsCanon l m path e)

attached-IsCanon : (k : Answers) → (skel_probe k).0 ≡ value 0 → IsCanon (attached k)
unfolding attached
attached-IsCanon k h = elim (probe_settles k) [
  | inl (_, e) ↦ simp e refl
  | inr (n, e, _) ↦ ground arith
]

-- From a probe that returned 0 on, whatever files are opened and released before and after the
-- disconnect: the structure has a use for each open file and one until the disconnect; it is held, with
-- its buffer and URB, as long as one of these is there, and is then given back, once; the minor and the
-- interface's data are held until the disconnect; and the device is kept awake once for each open file.
pub freed_with_last_use :
    (k : Answers) (l : Life)
    → (skel_probe k).0 ≡ value 0
    → Reach (attached k) l
    → (l.ledger ≡ record { held = held_with l.named l.files; stray = [] })
      × (l.kref ≡ l.files + (if l.named then 1 else 0))
      × (l.autopm ≡ l.files)
freed_with_last_use k l h path =
    let e = Reach-IsCanon (attached k) l path (attached-IsCanon k h) in
    (ap (λ c. c.ledger) e, ap (λ c. c.kref) e, ap (λ c. c.autopm) e)
