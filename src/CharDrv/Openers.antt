-- ===== src/CharDrv/Openers.antt =====
-- The device of char_drv.c, opened and closed in any order.
use mad_devicedriver.Prelude.{ℕ, suc, ◌-◌, ◌≤◌, ◌<◌, ◌≡◌, refl, arith, ◌==◌, if◌then◌else◌}
use mad_devicedriver.Kernel.{Errno, ebusy, value, error}
use mad_devicedriver.CharDrv.{test_open, test_release}

-- `already_open`, and how many files are open on the device.
pub record Openers : Type 0 where
  pub already_open : ℕ
  pub files : ℕ

-- A call of `test_open` that succeeds, one that fails, and the release of an open file. The kernel
-- calls `test_release` only for a file whose open succeeded.
pub data Step (s : Openers) : Openers → Type 0 where
  opens :
      (test_open s.already_open).0 ≡ value 0
      → Step s (record { already_open = (test_open s.already_open).1; files = suc s.files })
  fails :
      {e : Errno}
      → (test_open s.already_open).0 ≡ error e
      → Step s (record s { already_open = (test_open s.already_open).1 })
  closes :
      0 < s.files
      → Step s (record { already_open = (test_release s.already_open).1; files = s.files - 1 })

pub data Reach (s : Openers) : Openers → Type 0 where
  here : Reach s s
  next : {t u : Openers} → Reach s t → Step t u → Reach s u

abbrev pub unopened : Openers
unopened = record { already_open = 0; files = 0 }

-- `already_open` counts the open files, and there is at most one.
abbrev pub Inv : Openers → Type 0
Inv s = (s.already_open ≡ s.files) × (s.files ≤ 1)

Step-Inv : {s t : Openers} → Step s t → Inv s → Inv t
unfolding test_open test_release
Step-Inv (opens ok) v = ground arith
Step-Inv (fails refused) v = ground arith
Step-Inv (closes some_open) v = ground arith

Reach-Inv : {s t : Openers} → Reach s t → Inv s → Inv t
Reach-Inv here v = v
Reach-Inv (next r st) v = Step-Inv st (Reach-Inv r v)

-- In every state that opens and closes lead to, `already_open` is the number of open files, which is
-- at most one; the next open succeeds when no file is open, and fails with EBUSY otherwise.
pub exclusive_open :
    {s : Openers}
    → Reach unopened s
    → Inv s × ((test_open s.already_open).0 ≡ (if s.files == 0 then value 0 else error ebusy))
unfolding test_open
exclusive_open {s} r = let v = Reach-Inv r (refl, omega arith) in (v, ground arith)
