-- ===== src/SkelDrv/Returns.antt =====
-- What a read of usb_skel_drv.c returns, and when it comes to its end.
use mad_devicedriver.Prelude.{
  subst, ◌⊎◌, ℕ, zero, suc, ◌-◌, ◌≤◌, ◌<◌, ◌≡◌, refl, sym, arith, List, [], ◌∷◌, Bool, true, false,
  Option, none, some, length, length-slice, inl, inr, Bool-cases, if◌then◌else◌, ◌==◌, ltb,
}
use mad_devicedriver.Kernel.{Errno, Ret, value, error, efault}
use mad_devicedriver.PenDrv.{min_of}
use mad_devicedriver.SkelDrv.{
  Skel, Request, Pass, Next, submit_and_retry, exit, retry, arrive, await, serve, pass, read_loop,
  skel_read,
}
use mad_devicedriver.SkelDrv.Buffer.{IsValid, FitsIn, AllFit}
use mad_devicedriver.SkelDrv.Stream.{Passed, pass_lem, settled_lem, Next-cases, min_of-le}

-- A count of bytes handed out, or an error: with nothing handed out, or since the user's buffer could
-- not be written.
abbrev pub IsAnswer : Request → Ret → List ℕ → Type 0
IsAnswer r (value n) handed = (length handed ≡ n) × (0 < n) × (n ≤ r.count) × (r.granted ≡ true)
IsAnswer r (error e) handed = (handed ≡ []) ⊎ ((e ≡ efault) × (r.granted ≡ false))

abbrev Answers : Request → Next → Type 0
Answers r (exit ret handed dev) = IsAnswer r ret handed
Answers r (retry dev) = Unit

submit_and_retry-Answers :
    (r : Request) (answer : Errno × Skel) → Answers r (submit_and_retry answer)
submit_and_retry-Answers r (zero, dev) = tt
submit_and_retry-Answers r (suc e, dev) = inl refl

handed-IsAnswer :
    (r : Request) (granted : Bool) (chunk : ℕ) (bytes : List ℕ)
    → r.granted ≡ granted
    → length bytes ≡ chunk
    → 0 < chunk
    → chunk ≤ r.count
    → IsAnswer r (if granted then value chunk else error efault) bytes
handed-IsAnswer r true chunk bytes g h k l = (h, k, l, g)
handed-IsAnswer r false chunk bytes g h k l = inr (refl, g)

serve-Answers :
    (dev : Skel) (r : Request) (submitted : Errno)
    → IsValid dev
    → 0 < r.count
    → Answers r (serve dev r submitted)
unfolding serve
serve-Answers dev r submitted v h =
    let available : ℕ = dev.bulk_in_filled - dev.bulk_in_copied in
    let chunk : ℕ = min_of available r.count in
    elim (Bool-cases (dev.errors == 0)) [
      | inr failed ↦ simp failed (inl refl)
      | inl well ↦ elim (Bool-cases (dev.bulk_in_filled == 0)) [
        | inl none_in ↦ simp (well, none_in) (submit_and_retry-Answers r _)
        | inr some_in ↦ elim (Bool-cases (available == 0)) [
          | inl used_up ↦ simp (well, some_in, used_up) (submit_and_retry-Answers r _)
          | inr left ↦
              let answer =
                handed-IsAnswer r r.granted chunk _ refl
                  (length-slice dev.bulk_in_buffer dev.bulk_in_copied chunk
                    (omega (arith, min_of-le available r.count, v.sized, v.fits, v.behind)))
                  (ground (arith, left)) (min_of-le available r.count).1 in
              elim (Bool-cases (ltb available r.count)) [
                | inl short ↦ simp (well, some_in, left, short) answer
                | inr enough ↦ simp (well, some_in, left, enough) answer
              ]
        ]
      ]
    ]

unless_refused-Answers :
    (dev : Skel) (r : Request) (refused : Option Errno) (next : Next)
    → Answers r next
    → Answers r (elim refused [ some n ↦ exit (error n) [] dev | none ↦ next ])
unless_refused-Answers dev r (some n) next h = inl refl
unless_refused-Answers dev r none next h = h

pass-Answers :
    (dev : Skel) (r : Request) (p : Pass)
    → IsValid dev
    → FitsIn dev.bulk_in_size p.early
    → FitsIn dev.bulk_in_size p.awaited
    → 0 < r.count
    → Answers r (pass dev r p).1
unfolding pass
pass-Answers dev r p v h k c =
    let (refused, during, dev2) = await (arrive dev p.early).1 r.nonblock p.awaited in
    unless_refused-Answers dev2 r refused (serve dev2 r p.submitted)
      (serve-Answers dev2 r p.submitted (settled_lem dev r p v h k).0.0 c)

-- Of a call that has come to its end.
abbrev Answered : Request → Option Ret → List ℕ → Type 0
Answered r none handed = Unit
Answered r (some ret) handed = IsAnswer r ret handed

read_loop-Answered :
    (dev : Skel) (r : Request) (ps : List Pass)
    → IsValid dev
    → AllFit dev.bulk_in_size ps
    → 0 < r.count
    → let p = read_loop dev r ps in Answered r p.ret p.handed
unfolding read_loop
read_loop-Answered dev r [] v h c = tt
read_loop-Answered dev r (p ∷ ps) v h c =
    let passed = pass_lem dev r p v h.0 h.1 in
    let answer = pass-Answers dev r p v h.0 h.1 c in
    elim (Next-cases (pass dev r p).1) [
      | inl (ret, handed, dev', e) ↦ simp (read_loop, e) (subst (Answers r) e answer)
      | inr (dev', e) ↦
          let (k, _) : Passed dev (pass dev r p).0 (retry dev') =
            subst (Passed dev (pass dev r p).0) e passed in
          simp (read_loop, e)
            (read_loop-Answered dev' r ps k.0 (subst (λ n. AllFit n ps) (sym k.2.size) h.2) c)
    ]

skel_read-Answered :
    (dev : Skel) (r : Request) (ps : List Pass)
    → IsValid dev
    → AllFit dev.bulk_in_size ps
    → 0 < r.count
    → let p = skel_read dev r ps in Answered r p.ret p.handed
unfolding skel_read
skel_read-Answered dev r ps v h c = elim (Bool-cases r.locked) [
  | inr interrupted ↦ simp (asked, interrupted) (inl refl)
  | inl held ↦ elim (Bool-cases dev.disconnected) [
    | inl gone ↦ simp (asked, held, gone) (inl refl)
    | inr there ↦ simp (asked, held, there) (read_loop-Answered dev r ps v h c)
  ]
]
  where
    asked : r.count == 0 ≡ false
    asked = ground arith

-- A read of at least one byte that has come to its end returns a count or an error. The count is that
-- of the bytes handed to the user, at least one and at most as many as were asked for, so that it is
-- never taken for the end of a file. With an error no byte has been handed out, but where the user's
-- memory could not be written.
pub read_answers :
    (dev : Skel) (r : Request) (ps : List Pass) (ret : Ret)
    → IsValid dev
    → AllFit dev.bulk_in_size ps
    → 0 < r.count
    → (skel_read dev r ps).ret ≡ some ret
    → IsAnswer r ret (skel_read dev r ps).handed
read_answers dev r ps ret v h c e =
    subst (λ o. Answered r o (skel_read dev r ps).handed) e (skel_read-Answered dev r ps v h c)
