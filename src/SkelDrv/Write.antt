-- ===== src/SkelDrv/Write.antt =====
-- device_driver/usb_skel_drv.c: the writes, of which the semaphore `limit_sem` lets eight be under way.
use mad_devicedriver.Prelude.{
  ℕ, zero, suc, ◌+◌, ◌-◌, ◌≡◌, refl, arith, List, [], ◌∷◌, ◌++◌, Bool, true, false, not, Option,
  none, some, ◌==◌, if◌then◌else◌, Bool-cases, inl, inr,
}
use mad_devicedriver.Kernel.{Errno, enomem, efault, Ret, value, error, Option-cases}
use mad_devicedriver.PciDrv.{eio}
use mad_devicedriver.PenDrv.{min_of}
use mad_devicedriver.Setup.{urb, buffer, Call, acquire, release}
use mad_devicedriver.SkelDrv.{Skel, eagain, enodev, epipe, erestartsys}

abbrev pub writes_in_flight : ℕ
writes_in_flight = 8

abbrev pub max_transfer : ℕ → ℕ
max_transfer page_size = page_size - 512

-- How the calls of a write are answered: whether a wait for the semaphore ends on a signal; `false`
-- for a NULL, and for bytes that copy_from_user could not copy.
pub record Answers : Type 0 where
  pub interrupted : Bool
  pub alloc_urb : Bool
  pub alloc_coherent : Bool
  pub copied : Bool
  pub submit_urb : Option Errno

-- From the look at `errors` on, with the semaphore taken. The label `error` frees the buffer, if there
-- is one, and the URB, and gives the semaphore back.
unfoldable pub write_urb : ℕ → Skel → Answers → ℕ → Ret × List Call × Skel
write_urb page_size dev k count =
    let given_back : Skel = record dev { limit_sem = dev.limit_sem + 1 } in
    let both = acquire urb ∷ acquire buffer ∷ [] in
    let free_both = release buffer ∷ release urb ∷ [] in
    if not (dev.errors == 0)
    then (error (if dev.errors == epipe then epipe else eio), [], record given_back { errors = 0 })
    else if not k.alloc_urb
    then (error enomem, [], given_back)
    else if not k.alloc_coherent
    then (error enomem, acquire urb ∷ release urb ∷ [], given_back)
    else if not k.copied
    then (error efault, both ++ free_both, given_back)
    else if dev.disconnected
    then (error enodev, both ++ free_both, given_back)
    else elim k.submit_urb [
      | some e ↦ (error e, both ++ free_both, given_back)
      | none ↦ (
        value (min_of count (max_transfer page_size)),
        both ++ release urb ∷ [],
        record dev { submitted = dev.submitted + 1 },
      )
    ]

-- The semaphore of `dev` and what becomes of the write: `some none` once it is taken, `none` while it
-- is waited for.
abbrev pub down : Skel → ℕ → Bool → Bool → Option (Option Errno) × Skel
down dev (suc n) nonblock interrupted = (some none, record dev { limit_sem = n })
down dev zero true interrupted = (some (some eagain), dev)
down dev zero false true = (some (some erestartsys), dev)
down dev zero false false = (none, dev)

-- What is returned, `none` if the call waits; the calls made; and the device.
unfoldable pub skel_write : ℕ → Skel → Answers → Bool → ℕ → Option Ret × List Call × Skel
skel_write page_size dev k nonblock count =
    let (credit, dev') = down dev dev.limit_sem nonblock k.interrupted in
    let (ret, calls, after) = write_urb page_size dev' k count in
    if count == 0 then (some (value 0), [], dev) else elim credit [
      | none ↦ (none, [], dev')
      | some (some e) ↦ (some (error e), [], dev')
      | some none ↦ (some ret, calls, after)
    ]

-- The USB core takes the URB from the anchor before it calls back.
unfoldable pub skel_write_bulk_callback : Skel → Errno → List Call × Skel
skel_write_bulk_callback dev status = (
  release buffer ∷ [],
  record dev {
    errors = if status == 0 then dev.errors else status;
    limit_sem = dev.limit_sem + 1;
    submitted = dev.submitted - 1;
  },
)

-- The fields that a write may change; `credits` counts the units of the semaphore and the URBs at the
-- anchor.
abbrev pub Settles : Skel → ℕ → Skel → Type 0
Settles dev credits dev' =
    (errors : Errno) × (limit_sem : ℕ) × (submitted : ℕ) × (limit_sem + submitted ≡ credits)
    × (dev' ≡ record dev { errors = errors; limit_sem = limit_sem; submitted = submitted })

abbrev unchanged : (dev : Skel) → Settles dev (dev.limit_sem + dev.submitted) dev
unchanged dev = (dev.errors, dev.limit_sem, dev.submitted, refl, refl)

write_urb-Settles :
    (page_size : ℕ) (dev : Skel) (k : Answers) (count : ℕ)
    → Settles dev (suc (dev.limit_sem + dev.submitted)) (write_urb page_size dev k count).2
unfolding write_urb
write_urb-Settles page_size dev k count = elim (Bool-cases (dev.errors == 0)) [
  | inr failed ↦ simp failed (0, dev.limit_sem + 1, dev.submitted, omega arith, refl)
  | inl well ↦ elim (Bool-cases k.alloc_urb) [
    | inr x ↦ simp (well, x) given_back
    | inl u ↦ elim (Bool-cases k.alloc_coherent) [
      | inr x ↦ simp (well, u, x) given_back
      | inl b ↦ elim (Bool-cases k.copied) [
        | inr x ↦ simp (well, u, b, x) given_back
        | inl c ↦ elim (Bool-cases dev.disconnected) [
          | inl x ↦
              simp (well, u, b, c, x)
                (dev.errors, dev.limit_sem + 1, dev.submitted, omega arith, refl)
          | inr d ↦ elim (Option-cases k.submit_urb) [
            | inl s ↦
                simp (well, u, b, c, d, s)
                  (dev.errors, dev.limit_sem, dev.submitted + 1, omega arith, refl)
            | inr (e, s) ↦
                simp (well, u, b, c, d, s)
                  (dev.errors, dev.limit_sem + 1, dev.submitted, omega arith, refl)
          ]
        ]
      ]
    ]
  ]
]
  where
    given_back :
        Settles dev
          (suc (dev.limit_sem + dev.submitted))
          (record dev { limit_sem = dev.limit_sem + 1 })
    given_back = (dev.errors, dev.limit_sem + 1, dev.submitted, omega arith, refl)

down-Settles :
    (page_size : ℕ) (dev : Skel) (l : ℕ) (k : Answers) (nonblock interrupted : Bool) (count : ℕ)
    → dev.limit_sem ≡ l
    → let (credit, dev') = down dev l nonblock interrupted in
      let (ret, calls, after) = write_urb page_size dev' k count in
      let w : Option Ret × List Call × Skel = elim credit [
        | none ↦ (none, [], dev')
        | some (some e) ↦ (some (error e), [], dev')
        | some none ↦ (some ret, calls, after)
      ] in
      Settles dev (dev.limit_sem + dev.submitted) w.2
down-Settles page_size dev (suc n) k nonblock interrupted count h =
    let (e, l, m, sum, same) = write_urb-Settles page_size (record dev { limit_sem = n }) k count in
    (e, l, m, omega (arith, sum, h), same)
down-Settles page_size dev zero k true interrupted count h = unchanged dev
down-Settles page_size dev zero k false true count h = unchanged dev
down-Settles page_size dev zero k false false count h = unchanged dev

pub skel_write-Settles :
    (page_size : ℕ) (dev : Skel) (k : Answers) (nonblock : Bool) (count : ℕ)
    → Settles dev (dev.limit_sem + dev.submitted) (skel_write page_size dev k nonblock count).2
unfolding skel_write
skel_write-Settles page_size dev k nonblock count = elim (Bool-cases (count == 0)) [
  | inl x ↦ rw x (unchanged dev)
  | inr x ↦ rw x (down-Settles page_size dev dev.limit_sem k nonblock k.interrupted count refl)
]
