-- ===== src/SkelDrv/Ends.antt =====
-- When a read of usb_skel_drv.c comes to its end.
use mad_devicedriver.Prelude.{
  subst, ◌⊎◌, ℕ, ◌-◌, ◌<◌, ◌≡◌, ◌≢◌, refl, sym, arith, List, [], ◌∷◌, ◌++◌, Bool, true, false,
  Option, none, some, length, inl, inr, Bool-cases, ◌==◌, ltb,
}
use mad_devicedriver.Kernel.{Errno, Ret, value, error, eintr}
use mad_devicedriver.SkelDrv.{
  enodev, Skel, Request, Pass, Next, Transfer, exit, retry, arrive, await, serve, pass, read_loop,
  skel_read, complete,
}
use mad_devicedriver.SkelDrv.Buffer.{IsValid, AllFit}
use mad_devicedriver.SkelDrv.Stream.{Passed, pass_lem, Next-cases}

-- A transfer that fails or brings data.
abbrev Tells : Transfer → Type 0
Tells t = (t.status ≢ 0) ⊎ (0 < length t.received)

-- What happens around a pass: the transfer under way fails or brings data, or its wait ends on a
-- signal.
abbrev Stirring : Option Transfer → Option Transfer → Type 0
Stirring (some t) awaited = Tells t
Stirring none (some t) = Tells t
Stirring none none = Unit

abbrev pub Stirs : Pass → Type 0
Stirs p = Stirring p.early p.awaited

abbrev Exits : Next → Type 0
Exits n = (ret : Ret) × (handed : List ℕ) × (dev : Skel) × (n ≡ exit ret handed dev)

-- There is an error to report, or data to hand out.
abbrev HasNews : Skel → Type 0
HasNews dev = (dev.errors ≢ 0) ⊎ (dev.bulk_in_copied < dev.bulk_in_filled)

complete-HasNews :
    (dev : Skel) (t : Transfer)
    → IsValid dev
    → dev.ongoing_read ≡ true
    → Tells t
    → HasNews (complete dev t)
complete-HasNews dev t v busy h = let z = v.empty busy in ground (arith, v.behind)

serve-Exits :
    (dev : Skel) (r : Request) (submitted : Errno) → HasNews dev → Exits (serve dev r submitted)
unfolding serve
serve-Exits dev r submitted h = elim (Bool-cases (dev.errors == 0)) [
  | inr failed ↦ simp failed (_, _, _, refl)
  | inl well ↦
      let news : dev.bulk_in_copied < dev.bulk_in_filled = ground arith in
      let some_in : dev.bulk_in_filled == 0 ≡ false = ground arith in
      let left : dev.bulk_in_filled - dev.bulk_in_copied == 0 ≡ false = ground arith in
      elim (Bool-cases (ltb (dev.bulk_in_filled - dev.bulk_in_copied) r.count)) [
        | inl short ↦ simp (well, some_in, left, short) (_, _, _, refl)
        | inr enough ↦ simp (well, some_in, left, enough) (_, _, _, refl)
      ]
]

complete-idle : (dev : Skel) (t : Transfer) → (complete dev t).ongoing_read ≡ false
complete-idle dev t = ground arith

-- The end of a pass, by what happens around it.
settled-Exits :
    (dev : Skel) (r : Request) (submitted : Errno) (nonblock : Bool)
    (early awaited : Option Transfer)
    → IsValid dev
    → dev.ongoing_read ≡ true
    → Stirring early awaited
    → let (refused, during, dev2) = await (arrive dev early).1 nonblock awaited in
      Exits (elim refused [ some e ↦ exit (error e) [] dev2 | none ↦ serve dev2 r submitted ])
unfolding arrive await
settled-Exits dev r submitted nonblock (some t) awaited v busy h =
    simp (busy, complete-idle dev t) (serve-Exits _ r submitted (complete-HasNews dev t v busy h))
settled-Exits dev r submitted true none awaited v busy h = simp busy (_, _, _, refl)
settled-Exits dev r submitted false none none v busy h = simp busy (_, _, _, refl)
settled-Exits dev r submitted false none (some t) v busy h =
    simp busy (serve-Exits _ r submitted (complete-HasNews dev t v busy h))

pass-Exits :
    (dev : Skel) (r : Request) (p : Pass)
    → IsValid dev
    → dev.ongoing_read ≡ true
    → Stirs p
    → Exits (pass dev r p).1
unfolding pass
pass-Exits dev r p v busy h = settled-Exits dev r p.submitted r.nonblock p.early p.awaited v busy h

last_pass :
    (dev : Skel) (r : Request) (p : Pass) (after : List Pass)
    → (n : Exits (pass dev r p).1) → (read_loop dev r (p ∷ after)).ret ≡ some n.0
unfolding read_loop
last_pass dev r p after (ret, handed, dev', e) = simp (read_loop, e) refl

retried :
    (dev dev' : Skel) (r : Request) (p : Pass) (ps : List Pass) (ret : Ret)
    → (pass dev r p).1 ≡ retry dev'
    → (read_loop dev' r ps).ret ≡ some ret
    → (read_loop dev r (p ∷ ps)).ret ≡ some ret
unfolding read_loop
retried dev dev' r p ps ret e ends = simp (read_loop, e) ends

-- With a transfer under way, or at any pass before the last.
read_loop-ends :
    (dev : Skel) (r : Request) (before : List Pass) (p : Pass) (after : List Pass)
    → IsValid dev
    → AllFit dev.bulk_in_size (before ++ p ∷ after)
    → Stirs p
    → (before ≡ [] → dev.ongoing_read ≡ true)
    → (ret : Ret) × ((read_loop dev r (before ++ p ∷ after)).ret ≡ some ret)
unfolding read_loop
read_loop-ends dev r [] p after v h stirs busy =
    let ends = pass-Exits dev r p v (busy refl) stirs in (ends.0, last_pass dev r p after ends)
read_loop-ends dev r (q ∷ before) p after v h stirs busy = elim (Next-cases (pass dev r q).1) [
  | inl ends ↦ (ends.0, last_pass dev r q (before ++ p ∷ after) ends)
  | inr (dev', e) ↦
      let (k, ongoing) : Passed dev (pass dev r q).0 (retry dev') =
        subst (Passed dev (pass dev r q).0) e (pass_lem dev r q v h.0 h.1) in
      let (ret, ends) =
        read_loop-ends dev' r before p after k.0
          (subst (λ n. AllFit n (before ++ p ∷ after)) (sym k.2.size) h.2) stirs (λ _. ongoing) in
      (ret, retried dev dev' r q (before ++ p ∷ after) ret e ends)
]

-- A read comes to its end, at the latest with the first pass behind its first one around which the
-- transfer under way fails or brings data, or the wait ends on a signal.
pub read_ends :
    (dev : Skel) (r : Request) (first : Pass) (before : List Pass) (p : Pass) (after : List Pass)
    → IsValid dev
    → AllFit dev.bulk_in_size (first ∷ before ++ p ∷ after)
    → Stirs p
    → (ret : Ret) × ((skel_read dev r (first ∷ before ++ p ∷ after)).ret ≡ some ret)
unfolding skel_read
read_ends dev r first before p after v h stirs =
    let (ret, ends) = read_loop-ends dev r (first ∷ before) p after v h stirs λ e. cc in
    elim (Bool-cases (r.count == 0)) [
      | inl nothing_asked ↦ (value 0, simp nothing_asked refl)
      | inr asked ↦ elim (Bool-cases r.locked) [
        | inr interrupted ↦ (error eintr, simp (asked, interrupted) refl)
        | inl held ↦ elim (Bool-cases dev.disconnected) [
          | inl gone ↦ (error enodev, simp (asked, held, gone) refl)
          | inr there ↦ (ret, simp (asked, held, there) ends)
        ]
      ]
    ]
