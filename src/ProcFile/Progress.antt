-- ===== src/ProcFile/Progress.antt =====
-- A process that sleeps in `module_open` of blocking_drv.c is not stuck there.
use mad_devicedriver.Prelude.{
  ℕ, zero, suc, ◌≤◌, ◌≡◌, ◌≢◌, ◌⊎◌, inl, inr, refl, subst, ap, sym, ◌∙◌, arith, List, [], ◌∷◌, ◌++◌,
  length, get_elem?, ◌<◌, none, some,
}
use mad_devicedriver.ProcFile.Waiting.{
  Pc, outside, trying, looking, waiting, woken, opened, Gate, Move, refuse, enter, exchange,
  queue_up, sleep, find_free, notice_signal, wake_signal, interrupt, again, wake, wake_up,
  module_close, System, Step, pick, close, Reach, here, next,
}
use mad_devicedriver.ProcFile.Exclusion.{
  has_open, count_with, count_with-replace, count_with-place, count_with-replicate, loaded,
  one_opener,
}

split_at :
    (ps : List Pc) (i : ℕ) {p : Pc}
    → get_elem? ps i ≡ some p
    → (before : List Pc) × (after : List Pc) × (ps ≡ before ++ p ∷ after) × (length before ≡ i)
split_at [] i e = absurd (cc)
split_at (x ∷ ps) zero e = ([], ps, ground arith, refl)
split_at (x ∷ ps) (suc i) e =
    let (before, after, here_is, at) = split_at ps i e in
    (x ∷ before, after, ap (λ l. x ∷ l) here_is, ap suc at)

get_elem?-replace :
    (before after : List Pc) (q : Pc) → get_elem? (before ++ q ∷ after) (length before) ≡ some q
get_elem?-replace [] after q = refl
get_elem?-replace (x ∷ before) after q = get_elem?-replace before after q

get_elem?-replace_other :
    (before after : List Pc) (p q : Pc) (j : ℕ)
    → j ≢ length before
    → get_elem? (before ++ q ∷ after) j ≡ get_elem? (before ++ p ∷ after) j
get_elem?-replace_other [] after p q zero h = absurd (h refl)
get_elem?-replace_other [] after p q (suc j) h = refl
get_elem?-replace_other (x ∷ before) after p q zero h = refl
get_elem?-replace_other (x ∷ before) after p q (suc j) h =
    get_elem?-replace_other before after p q j (λ e. h (ap suc e))

-- The state after a step of process `i`.
record Moved (s : System) (i : ℕ) (g : Gate) (q : Pc) (t : System) : Type 0 where
  step : Step s t
  gate : t.gate ≡ g
  moves : get_elem? t.pcs i ≡ some q
  others : (j : ℕ) → j ≢ i → get_elem? t.pcs j ≡ get_elem? s.pcs j

move_at :
    (s : System) (i : ℕ) {p q : Pc} {g : Gate}
    → get_elem? s.pcs i ≡ some p
    → Move s.gate p g q
    → (t : System) × Moved s i g q t
move_at s i {p} {q} {g} e mv =
    let (before, after, split, at) = split_at s.pcs i e in
    (
      record { gate = g; pcs = before ++ q ∷ after },
      record {
        step = pick before after split mv;
        gate = refl;
        moves =
            subst (λ k. get_elem? (before ++ q ∷ after) k ≡ some q) at
              (get_elem?-replace before after q);
        others = λ j h.
            get_elem?-replace_other before after p q j (λ f. h (f ∙ at))
            ∙ ap (λ l. get_elem? l j) (sym split);
      },
    )

opener : (ps : List Pc) → count_with has_open ps ≡ 1 → (j : ℕ) × (get_elem? ps j ≡ some opened)
opener [] h = absurd (omega arith)
opener (opened ∷ ps) h = (0, refl)
opener (outside ∷ ps) h = let (j, e) = opener ps (omega arith) in (suc j, e)
opener (trying ∷ ps) h = let (j, e) = opener ps (omega arith) in (suc j, e)
opener (looking ∷ ps) h = let (j, e) = opener ps (omega arith) in (suc j, e)
opener (waiting ∷ ps) h = let (j, e) = opener ps (omega arith) in (suc j, e)
opener (woken ∷ ps) h = let (j, e) = opener ps (omega arith) in (suc j, e)

-- 1 for a process that sleeps.
abbrev sleeps : Pc → ℕ
sleeps waiting = 1
sleeps _ = 0

sleeps-wake_up : (ps : List Pc) → count_with sleeps (wake_up ps) ≡ 0
unfolding wake_up
sleeps-wake_up [] = refl
sleeps-wake_up (outside ∷ ps) = omega (arith, sleeps-wake_up ps)
sleeps-wake_up (trying ∷ ps) = omega (arith, sleeps-wake_up ps)
sleeps-wake_up (looking ∷ ps) = omega (arith, sleeps-wake_up ps)
sleeps-wake_up (waiting ∷ ps) = omega (arith, sleeps-wake_up ps)
sleeps-wake_up (woken ∷ ps) = omega (arith, sleeps-wake_up ps)
sleeps-wake_up (opened ∷ ps) = omega (arith, sleeps-wake_up ps)

-- No wake-up is lost: while the file is free, nobody sleeps.
AllAwake : System → Type 0
AllAwake s = s.gate.already_open ≡ 0 → count_with sleeps s.pcs ≡ 0

Move-awake :
    {g g' : Gate} {p q : Pc}
    → Move g p g' q
    → g'.already_open ≡ 0
    → (g.already_open ≡ 0) × (sleeps q ≤ sleeps p)
Move-awake (refuse h) free = (free, omega arith)
Move-awake enter free = (free, omega arith)
Move-awake (exchange h) free = absurd (omega arith)
Move-awake (queue_up h) free = (free, omega arith)
Move-awake (sleep h) free = absurd (h free)
Move-awake (find_free h) free = (free, omega arith)
Move-awake notice_signal free = (free, omega arith)
Move-awake wake_signal free = (free, omega arith)
Move-awake interrupt free = (free, omega arith)
Move-awake again free = (free, omega arith)

Step-AllAwake : {s t : System} → Step s t → AllAwake s → AllAwake t
unfolding AllAwake
Step-AllAwake {s} (pick before after {p} {q} e mv) awake free =
    let (was_free, fewer) = Move-awake mv free in
    omega (arith, awake was_free, fewer, count_with-replace sleeps s.pcs before after p q e)
Step-AllAwake (close before after e) awake free = sleeps-wake_up (before ++ outside ∷ after)

Reach-AllAwake : {s t : System} → AllAwake s → Reach s t → AllAwake t
Reach-AllAwake awake here = awake
Reach-AllAwake awake (next r st) = Step-AllAwake st (Reach-AllAwake awake r)

sleeper-counts : (ps : List Pc) (i : ℕ) → get_elem? ps i ≡ some waiting → 0 < count_with sleeps ps
sleeper-counts ps i e =
    let (before, after, split, at) = split_at ps i e in
    omega (arith, count_with-place sleeps ps before after waiting split)

get_elem?-wake_up :
    (ps : List Pc) (i : ℕ) {p : Pc}
    → get_elem? ps i ≡ some p
    → get_elem? (wake_up ps) i ≡ some (wake p)
unfolding wake_up
get_elem?-wake_up [] i e = absurd (cc)
get_elem?-wake_up (x ∷ ps) zero e = ap (λ o. elim o [ none ↦ none | some p ↦ some (wake p) ]) e
get_elem?-wake_up (x ∷ ps) (suc i) e = get_elem?-wake_up ps i e

-- Process `j` closes the file, and process `i` is awake behind it.
closes :
    (s : System) (i j : ℕ)
    → get_elem? s.pcs i ≡ some waiting
    → get_elem? s.pcs j ≡ some opened
    → i ≢ j
    → (t : System) × Step s t × (t.gate.already_open ≡ 0) × (get_elem? t.pcs i ≡ some looking)
unfolding module_close
closes s i j e has distinct =
    let (before, after, split, at) = split_at s.pcs j has in
    (
      record { gate = module_close s.gate; pcs = wake_up (before ++ outside ∷ after) },
      close before after split,
      refl,
      get_elem?-wake_up (before ++ outside ∷ after) i (
          get_elem?-replace_other before after opened outside i (λ f. distinct (f ∙ at))
          ∙ (ap (λ l. get_elem? l i) (sym split) ∙ e)),
    )

-- Once the file is free, a process that looks at the condition takes three steps.
enters :
    (s : System) (i : ℕ)
    → get_elem? s.pcs i ≡ some looking
    → s.gate.already_open ≡ 0
    → (t : System) × Reach s t × (get_elem? t.pcs i ≡ some opened)
enters s i e free =
    let (t, a) = move_at s i e (find_free free) in
    let (u, b) = move_at t i a.moves again in
    let still : u.gate.already_open ≡ 0 =
      ap (λ (g : Gate). g.already_open) (b.gate ∙ a.gate) ∙ free in
    let (v, c) = move_at u i b.moves (exchange still) in
    (v, next (next (next here a.step) b.step) c.step, c.moves)

Reach-append : {s t u : System} → Reach s t → Reach t u → Reach s u
Reach-append r here = r
Reach-append r (next q st) = next (Reach-append r q) st

loaded-AllAwake : (n : ℕ) → AllAwake (loaded n)
unfolding AllAwake
loaded-AllAwake n free = count_with-replicate sleeps n refl

zero_or_one : (k : ℕ) → k ≤ 1 → (k ≡ 0) ⊎ (k ≡ 1)
zero_or_one zero h = inl refl
zero_or_one (suc k) h = inr (omega arith)

-- Whatever any number of processes have done: while a process sleeps in `module_open`, another one has
-- the file open, so that no wake-up is lost; its closing of the file frees it and wakes the sleeper, and
-- from there is a run after which the sleeper has the file open.
pub sleeper_gets_in :
    (n : ℕ) {s : System}
    → Reach (loaded n) s
    → (i : ℕ) → get_elem? s.pcs i ≡ some waiting
    → (j : ℕ) × (get_elem? s.pcs j ≡ some opened)
      × (t : System) × Step s t
      × (t.gate.already_open ≡ 0)
      × (get_elem? t.pcs i ≡ some looking)
      × (u : System) × Reach t u
      × (get_elem? u.pcs i ≡ some opened)
unfolding AllAwake
sleeper_gets_in n {s} r i e =
    let v = one_opener n r in
    let taken : s.gate.already_open ≡ 1 = elim (zero_or_one s.gate.already_open v.at_most_one) [
      | inl free ↦
          absurd
            (omega (arith, Reach-AllAwake (loaded-AllAwake n) r free, sleeper-counts s.pcs i e))
      | inr one ↦ one
    ] in
    let (j, has) = opener s.pcs (v.counted ∙ taken) in
    let distinct : i ≢ j = λ same. absurd (cc (sym e ∙ ap (get_elem? s.pcs) same ∙ has)) in
    let (t, closed, free, awake) = closes s i j e has distinct in
    let (u, run, is_open) = enters t i awake free in
    (j, has, t, closed, free, awake, u, run, is_open)
