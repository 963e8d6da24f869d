-- ===== src/SkelDrv/Settled.antt =====
-- What a write of usb_skel_drv.c keeps and gives back, on each of its branches.
use mad_devicedriver.Prelude.{
  ℕ, zero, suc, ◌+◌, ◌≡◌, ◌⊎◌, refl, arith, List, [], ◌∷◌, ◌++◌, Bool, true, false, Option, none,
  some, ◌==◌, inl, inr, subst, ap, ◌<◌,
}
use mad_devicedriver.Kernel.{Errno, Ret, value, error}
use mad_devicedriver.PenDrv.{min_of}
use mad_devicedriver.Setup.{buffer, release, Call, replay, nothing}
use mad_devicedriver.SkelDrv.{Skel}
use mad_devicedriver.SkelDrv.Write.{
  Answers, down, write_urb, skel_write, skel_write_bulk_callback, max_transfer,
}

-- By what is returned: a count, with the transfer under way, its buffer kept and a unit of the
-- semaphore used; or an error, with nothing kept.
abbrev Kept : ℕ → ℕ → Skel → ℕ → Ret × List Call × Skel → Type 0
Kept page_size count dev credits (value n, calls, after) =
    (n ≡ min_of count (max_transfer page_size))
    × (replay (calls ++ release buffer ∷ []) nothing ≡ nothing)
    × (after.limit_sem + 1 ≡ credits)
    × (after.submitted ≡ dev.submitted + 1)
Kept page_size count dev credits (error e, calls, after) =
    (replay calls nothing ≡ nothing)
    × (after.limit_sem ≡ credits)
    × (after.submitted ≡ dev.submitted)

write_urb-Kept :
    (page_size : ℕ) (dev : Skel) (k : Answers) (count : ℕ)
    → Kept page_size count dev (dev.limit_sem + 1) (write_urb page_size dev k count)
unfolding write_urb
write_urb-Kept page_size dev k count = ground arith

-- How a write ends: it waits for the semaphore; or it is under way; or it has failed.
abbrev Ends : ℕ → ℕ → Skel → Option Ret × List Call × Skel → Type 0
Ends page_size count dev (none, calls, after) = (calls ≡ []) × (after ≡ dev) × (dev.limit_sem ≡ 0)
Ends page_size count dev (some ret, calls, after) =
    Kept page_size count dev dev.limit_sem (ret, calls, after)

down-Ends :
    (page_size : ℕ) (dev : Skel) (l : ℕ) (k : Answers) (nonblock interrupted : Bool) (count : ℕ)
    → dev.limit_sem ≡ l
    → let (credit, dev') = down dev l nonblock interrupted in
      let (ret, calls, after) = write_urb page_size dev' k count in
      let w : Option Ret × List Call × Skel = elim credit [
        | none ↦ (none, [], dev')
        | some (some e) ↦ (some (error e), [], dev')
        | some none ↦ (some ret, calls, after)
      ] in
      Ends page_size count dev w
down-Ends page_size dev (suc n) k nonblock interrupted count h =
    let dev' : Skel = record dev { limit_sem = n } in
    let one : n + 1 ≡ dev.limit_sem = omega (arith, h) in
    subst (λ c. Kept page_size count dev c (write_urb page_size dev' k count)) one
      (write_urb-Kept page_size dev' k count)
down-Ends page_size dev zero k true interrupted count h = (refl, refl, refl)
down-Ends page_size dev zero k false true count h = (refl, refl, refl)
down-Ends page_size dev zero k false false count h = (refl, refl, h)

skel_write-Ends :
    (page_size : ℕ) (dev : Skel) (k : Answers) (nonblock : Bool) (count : ℕ)
    → 0 < count
    → Ends page_size count dev (skel_write page_size dev k nonblock count)
unfolding skel_write
skel_write-Ends page_size dev k nonblock count h =
    let asked : count == 0 ≡ false = ground arith in
    rw asked (down-Ends page_size dev dev.limit_sem k nonblock k.interrupted count refl)

-- The three ways in which a write ends, with what the callback of the one under way gives back.
abbrev pub IsSettled : ℕ → ℕ → Skel → Errno → Option Ret × List Call × Skel → Type 0
IsSettled page_size count dev status (ret, calls, after) =
    let (freed, later) = skel_write_bulk_callback after status in
    ((ret ≡ none) × (calls ≡ []) × (after ≡ dev) × (dev.limit_sem ≡ 0))
    ⊎ ((ret ≡ some (value (min_of count (max_transfer page_size))))
        × (replay (calls ++ freed) nothing ≡ nothing)
        × (after.limit_sem + 1 ≡ dev.limit_sem)
        × (after.submitted ≡ dev.submitted + 1)
        × (later.limit_sem ≡ dev.limit_sem)
        × (later.submitted ≡ dev.submitted))
    ⊎ ((e : Errno) × (ret ≡ some (error e))
        × (replay calls nothing ≡ nothing)
        × (after.limit_sem ≡ dev.limit_sem)
        × (after.submitted ≡ dev.submitted))

Ends-IsSettled :
    (page_size count : ℕ) (dev : Skel) (status : Errno) (w : Option Ret × List Call × Skel)
    → Ends page_size count dev w
    → IsSettled page_size count dev status w
unfolding skel_write_bulk_callback
Ends-IsSettled page_size count dev status (none, calls, after) (c, a, l) = inl (refl, c, a, l)
Ends-IsSettled page_size count dev status (some (value n), calls, after) (e, given, sem, urbs) =
    inr (inl (ap (λ m. some (value m)) e, given, sem, urbs, sem, omega (arith, urbs)))
Ends-IsSettled page_size count dev status (some (error n), calls, after) (e, sem, urbs) =
    inr (inr (n, refl, e, sem, urbs))

-- A write of at least one byte waits, with the device as it was, only if the semaphore has no unit
-- left. Or it returns the count, at most one page less 512 bytes, and keeps one unit of the semaphore,
-- one URB at the anchor and one buffer, all of which its callback gives back. Or it returns an error,
-- and has given back all that it took.
pub write_settles :
    (page_size : ℕ) (dev : Skel) (k : Answers) (nonblock : Bool) (count : ℕ) (status : Errno)
    → 0 < count
    → IsSettled page_size count dev status (skel_write page_size dev k nonblock count)
write_settles page_size dev k nonblock count status h =
    Ends-IsSettled page_size count dev status _ (skel_write-Ends page_size dev k nonblock count h)
