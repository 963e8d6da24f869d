-- ===== src/SkelDrv/Stream.antt =====
-- What the reads of usb_skel_drv.c make of the data that the transfers bring.
use mathlib.Core.List.{append-nil}
use mad_devicedriver.Prelude.{
  subst, ◌⊎◌, ℕ, zero, suc, ◌+◌, ◌-◌, ◌≤◌, ◌≡◌, refl, sym, ap, ◌∙◌, arith, List, [], ◌∷◌, ◌++◌,
  Bool, true, false, Option, none, some, slice, inl, inr, Bool-cases, ◌==◌, ltb,
}
use mad_devicedriver.Kernel.{Errno, Ret, error}
use mad_devicedriver.PenDrv.{min_of}
use mad_devicedriver.SkelDrv.{
  Skel, Request, Pass, Next, skel_do_read_io, submit_and_retry, exit, retry, arrive, await, serve,
  pass, read_loop, skel_read,
}
use mad_devicedriver.Prelude.Slices.{slice-split}
use mad_devicedriver.SkelDrv.Buffer.{
  unread, IsValid, FitsIn, AllFit, unread-none, steady, Keeps, Keeps-trans, arrive_lem, await_lem,
}

-- A pass from the look at `errors` on.
abbrev Served : Skel → Next → Type 0
Served dev (exit ret handed dev') = Keeps dev [] handed dev'
Served dev (retry dev') = Keeps dev [] [] dev' × (dev'.ongoing_read ≡ true)

pub min_of-le : (a b : ℕ) → (min_of a b ≤ a) × (min_of a b ≤ b)
min_of-le a b = ground arith

is_zero : (n : ℕ) → n == 0 ≡ true → n ≡ 0
is_zero n h = ground arith

-- What is handed out, and what is unread behind it.
handed_lem :
    (dev : Skel) (chunk : ℕ)
    → chunk ≤ dev.bulk_in_filled - dev.bulk_in_copied
    → unread dev
      ≡ slice dev.bulk_in_buffer dev.bulk_in_copied chunk
        ++ unread (record dev { bulk_in_copied = dev.bulk_in_copied + chunk })
handed_lem dev chunk h =
    let rest : dev.bulk_in_filled - dev.bulk_in_copied - chunk
        ≡ dev.bulk_in_filled - (dev.bulk_in_copied + chunk) =
      omega arith in
    slice-split dev.bulk_in_buffer dev.bulk_in_copied chunk _ h
    ∙ ap
        (λ n.
          slice dev.bulk_in_buffer dev.bulk_in_copied chunk
          ++ slice dev.bulk_in_buffer (dev.bulk_in_copied + chunk) n)
        rest

min_of-short : (a b : ℕ) → ltb a b ≡ true → min_of a b ≡ a
min_of-short a b h = ground arith

-- A transfer is submitted when there is nothing unread.
submit_lem :
    (dev : Skel) (count : ℕ) (submitted : Errno)
    → IsValid dev
    → dev.bulk_in_filled ≤ dev.bulk_in_copied
    → let (e, dev') = skel_do_read_io dev count submitted in
      Keeps dev [] [] dev' × (e ≡ 0 → dev'.ongoing_read ≡ true)
unfolding skel_do_read_io
submit_lem dev count submitted v h =
    let same : unread dev ++ [] ≡ [] = append-nil _ ∙ unread-none dev h in
    elim (Bool-cases (submitted == 0)) [
      | inl taken ↦ simp taken ((empty true, same, steady refl refl), λ _. refl)
      | inr refused ↦ simp refused ((empty false, same, steady refl refl), λ e. ground arith)
    ]
  where
    empty :
        (busy : Bool)
        → IsValid (record dev {
          transfer_size = min_of dev.bulk_in_size count;
          ongoing_read = busy;
          bulk_in_filled = 0;
          bulk_in_copied = 0;
        })
    empty busy = record {
      sized = v.sized;
      fits = omega arith;
      behind = omega arith;
      asked = (min_of-le dev.bulk_in_size count).0;
      empty = λ _. refl;
    }

submit_and_retry_lem :
    (dev : Skel) (answer : Errno × Skel)
    → Keeps dev [] [] answer.1
    → (answer.0 ≡ 0 → answer.1.ongoing_read ≡ true)
    → Served dev (submit_and_retry answer)
submit_and_retry_lem dev (zero, dev') k busy = (k, busy refl)
submit_and_retry_lem dev (suc e, dev') k busy = k

serve_lem :
    (dev : Skel) (r : Request) (submitted : Errno)
    → IsValid dev
    → dev.ongoing_read ≡ false
    → Served dev (serve dev r submitted)
unfolding serve
serve_lem dev r submitted v o =
    let available : ℕ = dev.bulk_in_filled - dev.bulk_in_copied in
    let chunk : ℕ = min_of available r.count in
    let again : dev.bulk_in_filled ≤ dev.bulk_in_copied
        → Served dev (submit_and_retry (skel_do_read_io dev r.count submitted)) =
      λ h.
        let (k, busy) = submit_lem dev r.count submitted v h in submit_and_retry_lem dev _ k busy in
    let copied : Skel = record dev { bulk_in_copied = dev.bulk_in_copied + chunk } in
    let some_of : (min_of available r.count ≤ available) × (min_of available r.count ≤ r.count) =
      min_of-le available r.count in
    let w : IsValid copied = record {
      sized = v.sized;
      fits = v.fits;
      behind = omega (arith, v.behind);
      asked = v.asked;
      empty = v.empty;
    } in
    elim (Bool-cases (dev.errors == 0)) [
      | inr failed ↦ simp failed (v', append-nil _, steady refl refl)
      | inl well ↦ elim (Bool-cases (dev.bulk_in_filled == 0)) [
        | inl none_in ↦ simp (well, none_in) (again (omega (arith, is_zero _ none_in)))
        | inr some_in ↦ elim (Bool-cases (available == 0)) [
          | inl used_up ↦ simp (well, some_in, used_up) (again (omega (arith, is_zero _ used_up)))
          | inr left ↦ elim (Bool-cases (ltb available r.count)) [
            | inl short ↦
                let (k, _) =
                  submit_lem copied (r.count - chunk) submitted w
                    (omega (arith, min_of-short _ _ short)) in
                simp (well, some_in, left, short)
                  (
                    k.0,
                    append-nil _
                        ∙ (handed_lem dev chunk some_of.0
                            ∙ ap (λ l. slice dev.bulk_in_buffer dev.bulk_in_copied chunk ++ l)
                                (sym (append-nil _) ∙ k.1)),
                    steady k.2.size k.2.credits,
                  )
            | inr enough ↦
                simp (well, some_in, left, enough)
                  (w, append-nil _ ∙ handed_lem dev chunk some_of.0, steady refl refl)
          ]
        ]
      ]
    ]
  where
    v' : IsValid (record dev { errors = 0 })
    v' = record {
      sized = v.sized;
      fits = v.fits;
      behind = v.behind;
      asked = v.asked;
      empty = v.empty;
    }

-- A pass, with the data that it brought.
abbrev pub Passed : Skel → List ℕ → Next → Type 0
Passed dev arrived (exit ret handed dev') = Keeps dev arrived handed dev'
Passed dev arrived (retry dev') = Keeps dev arrived [] dev' × (dev'.ongoing_read ≡ true)

Passed-trans :
    (d e : Skel) (a : List ℕ) (next : Next) → Keeps d a [] e → Served e next → Passed d a next
Passed-trans d e a (exit ret handed f) k s =
    subst (λ l. Keeps d l handed f) (append-nil a) (Keeps-trans d e f a [] [] handed k s)
Passed-trans d e a (retry f) k s =
    (subst (λ l. Keeps d l [] f) (append-nil a) (Keeps-trans d e f a [] [] [] k s.0), s.1)

unless_refused :
    (d e : Skel) (a : List ℕ) (refused : Option Errno) (next : Next)
    → Keeps d a [] e
    → (refused ≡ none → Served e next)
    → Passed d a (elim refused [ some n ↦ exit (error n) [] e | none ↦ next ])
unless_refused d e a (some n) next k s = k
unless_refused d e a none next k s = Passed-trans d e a next k (s refl)

-- A pass up to the look at `errors`.
pub settled_lem :
    (dev : Skel) (r : Request) (p : Pass)
    → IsValid dev
    → FitsIn dev.bulk_in_size p.early
    → FitsIn dev.bulk_in_size p.awaited
    → let (before, dev1) = arrive dev p.early in
      let (refused, during, dev2) = await dev1 r.nonblock p.awaited in
      Keeps dev (before ++ during) [] dev2 × (refused ≡ none → dev2.ongoing_read ≡ false)
settled_lem dev r p v h k =
    let (before, dev1) = arrive dev p.early in
    let (refused, during, dev2) = await dev1 r.nonblock p.awaited in
    let first = arrive_lem dev p.early v h in
    let (second, idle) =
      await_lem dev1 r.nonblock p.awaited first.0
        (subst (λ n. FitsIn n p.awaited) (sym first.2.size) k) in
    (Keeps-trans dev dev1 dev2 before during [] [] first second, idle)

pub pass_lem :
    (dev : Skel) (r : Request) (p : Pass)
    → IsValid dev
    → FitsIn dev.bulk_in_size p.early
    → FitsIn dev.bulk_in_size p.awaited
    → Passed dev (pass dev r p).0 (pass dev r p).1
unfolding pass
pass_lem dev r p v h k =
    let (before, dev1) = arrive dev p.early in
    let (refused, during, dev2) = await dev1 r.nonblock p.awaited in
    let (settled, idle) = settled_lem dev r p v h k in
    unless_refused dev dev2 (before ++ during) refused (serve dev2 r p.submitted) settled
      (λ e. serve_lem dev2 r p.submitted settled.0 (idle e))

pub Next-cases :
    (n : Next)
    → ((ret : Ret) × (handed : List ℕ) × (dev : Skel) × (n ≡ exit ret handed dev))
      ⊎ ((dev : Skel) × (n ≡ retry dev))
Next-cases (exit ret handed dev) = inl (ret, handed, dev, refl)
Next-cases (retry dev) = inr (dev, refl)

pub read_loop_lem :
    (dev : Skel) (r : Request) (ps : List Pass)
    → IsValid dev
    → AllFit dev.bulk_in_size ps
    → let p = read_loop dev r ps in Keeps dev p.arrived p.handed p.dev
unfolding read_loop
read_loop_lem dev r [] v h = (v, append-nil _, steady refl refl)
read_loop_lem dev r (p ∷ ps) v h =
    let passed = pass_lem dev r p v h.0 h.1 in
    elim (Next-cases (pass dev r p).1) [
      | inl (ret, handed, dev', e) ↦
          simp (read_loop, e) (subst (Passed dev (pass dev r p).0) e passed)
      | inr (dev', e) ↦
          let (k, _) : Passed dev (pass dev r p).0 (retry dev') =
            subst (Passed dev (pass dev r p).0) e passed in
          simp (read_loop, e)
            (Keeps-trans dev dev' _ (pass dev r p).0 _ [] _ k
              (read_loop_lem dev' r ps k.0 (subst (λ n. AllFit n ps) (sym k.2.size) h.2)))
    ]

pub skel_read_lem :
    (dev : Skel) (r : Request) (ps : List Pass)
    → IsValid dev
    → AllFit dev.bulk_in_size ps
    → let p = skel_read dev r ps in Keeps dev p.arrived p.handed p.dev
unfolding skel_read
skel_read_lem dev r ps v h = elim (Bool-cases (r.count == 0)) [
  | inl nothing_asked ↦ simp nothing_asked (v, append-nil _, steady refl refl)
  | inr asked ↦ elim (Bool-cases r.locked) [
    | inr interrupted ↦ simp (asked, interrupted) (v, append-nil _, steady refl refl)
    | inl held ↦ elim (Bool-cases dev.disconnected) [
      | inl gone ↦ simp (asked, held, gone) (v, append-nil _, steady refl refl)
      | inr there ↦ simp (asked, held, there) (read_loop_lem dev r ps v h)
    ]
  ]
]
