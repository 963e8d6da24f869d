-- ===== src/SkelDrv/Buffer.antt =====
-- The receive buffer of usb_skel_drv.c: what of it is unread, and what a transfer does to it.
use mathlib.Core.List.{append-nil, append_assoc}
use mad_devicedriver.Prelude.{
  ℕ, ◌-◌, ◌≤◌, ◌≡◌, refl, sym, ap, ◌∙◌, arith, List, [], ◌∷◌, ◌++◌, ◌+◌, Bool, true, false, Option,
  none, some, length, slice, splice, length-splice, inl, inr, Bool-cases, ◌==◌,
}
use mad_devicedriver.SkelDrv.{Skel, Transfer, Pass, brought, complete, arrive, await}
use mad_devicedriver.Prelude.Slices.{slice-splice_start}

-- The bytes that have been received and not handed out.
abbrev pub unread : Skel → List ℕ
unread dev = slice dev.bulk_in_buffer dev.bulk_in_copied (dev.bulk_in_filled - dev.bulk_in_copied)

-- The counters stay inside the buffer, and it is empty while a transfer is under way.
pub record IsValid (dev : Skel) : Type 0 where
  pub sized : length dev.bulk_in_buffer ≡ dev.bulk_in_size
  pub fits : dev.bulk_in_filled ≤ dev.bulk_in_size
  pub behind : dev.bulk_in_copied ≤ dev.bulk_in_filled
  pub asked : dev.transfer_size ≤ dev.bulk_in_size
  pub empty : dev.ongoing_read ≡ true → dev.bulk_in_filled ≡ 0

-- A transfer of at most `n` bytes.
abbrev pub FitsIn : ℕ → Option Transfer → Type 0
FitsIn n none = Unit
FitsIn n (some t) = length t.received ≤ n

abbrev pub AllFit : ℕ → List Pass → Type 0
AllFit n [] = Unit
AllFit n (p ∷ ps) = FitsIn n p.early × FitsIn n p.awaited × AllFit n ps

pub unread-none : (dev : Skel) → dev.bulk_in_filled ≤ dev.bulk_in_copied → unread dev ≡ []
unread-none dev h =
    let z : dev.bulk_in_filled - dev.bulk_in_copied ≡ 0 = omega arith in
    ap (λ k. slice dev.bulk_in_buffer dev.bulk_in_copied k) z

-- What the transfers and reads leave alone: the size of the buffer, and the writes under way.
pub record Steady (dev dev' : Skel) : Type 0 where
  pub size : dev'.bulk_in_size ≡ dev.bulk_in_size
  pub credits : dev'.limit_sem + dev'.submitted ≡ dev.limit_sem + dev.submitted

abbrev pub steady :
    {dev dev' : Skel}
    → dev'.bulk_in_size ≡ dev.bulk_in_size
    → dev'.limit_sem + dev'.submitted ≡ dev.limit_sem + dev.submitted
    → Steady dev dev'
steady p q = record { size = p; credits = q }

pub complete_lem :
    (dev : Skel) (t : Transfer)
    → IsValid dev
    → length t.received ≤ dev.bulk_in_size
    → dev.ongoing_read ≡ true
    → IsValid (complete dev t)
      × (unread dev ++ brought t ≡ unread (complete dev t))
      × ((complete dev t).ongoing_read ≡ false)
      × Steady dev (complete dev t)
complete_lem dev t v h o =
    let z : dev.bulk_in_filled ≡ 0 = v.empty o in
    let c : dev.bulk_in_copied ≡ 0 = omega (arith, v.behind) in
    let before : unread dev ≡ [] = unread-none dev (omega arith) in
    let size = length-splice dev.bulk_in_buffer 0 t.received ∙ v.sized in
    elim (Bool-cases (t.status == 0)) [
      | inl well ↦ rw well (
        record { sized = size; fits = h; behind = omega arith; asked = v.asked; empty = λ e. cc },
        rw before (sym (slice-splice_start _ _ _ c (omega (arith, v.sized)))),
        refl,
        steady refl refl,
      )
      | inr ill ↦ rw ill (
        record { sized = size; fits = v.fits; behind = v.behind; asked = v.asked; empty = λ e. z },
        rw before (
            sym (
              unread-none (record dev { bulk_in_buffer = splice dev.bulk_in_buffer 0 t.received })
                (omega arith))),
        refl,
        steady refl refl,
      )
    ]

-- What a step keeps: the device stays valid, and the bytes that were unread or have arrived are those
-- handed out and those unread.
abbrev pub Keeps : Skel → List ℕ → List ℕ → Skel → Type 0
Keeps dev arrived handed dev' =
    IsValid dev' × (unread dev ++ arrived ≡ handed ++ unread dev') × Steady dev dev'

pub arrive_lem :
    (dev : Skel) (early : Option Transfer)
    → IsValid dev
    → FitsIn dev.bulk_in_size early
    → Keeps dev (arrive dev early).0 [] (arrive dev early).1
unfolding arrive
arrive_lem dev none v h = (v, append-nil _, steady refl refl)
arrive_lem dev (some t) v h = elim (Bool-cases dev.ongoing_read) [
  | inl busy ↦ let (w, e, _, s) = complete_lem dev t v h busy in simp busy (w, e, s)
  | inr idle ↦ simp idle (v, append-nil _, steady refl refl)
]

pub await_lem :
    (dev : Skel) (nonblock : Bool) (awaited : Option Transfer)
    → IsValid dev
    → FitsIn dev.bulk_in_size awaited
    → let (refused, during, dev') = await dev nonblock awaited in
      Keeps dev during [] dev' × (refused ≡ none → dev'.ongoing_read ≡ false)
unfolding await
await_lem dev true awaited v h = elim (Bool-cases dev.ongoing_read) [
  | inl busy ↦ simp busy ((v, append-nil _, steady refl refl), λ e. cc)
  | inr idle ↦ simp idle ((v, append-nil _, steady refl refl), λ e. refl)
]
await_lem dev false none v h = elim (Bool-cases dev.ongoing_read) [
  | inl busy ↦ simp busy ((v, append-nil _, steady refl refl), λ e. cc)
  | inr idle ↦ simp idle ((v, append-nil _, steady refl refl), λ e. refl)
]
await_lem dev false (some t) v h = elim (Bool-cases dev.ongoing_read) [
  | inl busy ↦ let (w, e, o, s) = complete_lem dev t v h busy in simp busy ((w, e, s), λ _. o)
  | inr idle ↦ simp idle ((v, append-nil _, steady refl refl), λ e. refl)
]

-- Two steps in a row.
pub Keeps-trans :
    (d e f : Skel) (a b h k : List ℕ) → Keeps d a h e → Keeps e b k f → Keeps d (a ++ b) (h ++ k) f
Keeps-trans d e f a b h k (v, p, s) (w, q, t) = (
  w,
  sym (append_assoc (unread d) a b)
      ∙ (ap (λ l. l ++ b) p
          ∙ (append_assoc h (unread e) b
              ∙ (ap (λ l. h ++ l) q ∙ sym (append_assoc h k (unread f))))),
  steady (t.size ∙ s.size) (t.credits ∙ s.credits),
)
