-- ===== src/ProcFile/Exclusion.antt =====
-- The file of blocking_drv.c in every reachable state: who has it open, and who holds the module.
use mad_devicedriver.Prelude.{
  ℕ, zero, suc, replicate, ◌+◌, ◌≤◌, ◌≡◌, refl, ap, arith, List, [], ◌∷◌, ◌++◌,
}
use mad_devicedriver.ProcFile.Waiting.{
  Pc, outside, trying, looking, waiting, woken, opened, Gate, Move, refuse, enter, exchange,
  queue_up, sleep, find_free, notice_signal, wake_signal, interrupt, again, wake_up, module_close,
  System, Step, pick, close, Reach, here, next,
}

-- 1 for a process that has the file open.
abbrev pub has_open : Pc → ℕ
has_open opened = 1
has_open _ = 0

-- 1 for a process that is inside `module_open`, or has the file open.
abbrev pub is_inside : Pc → ℕ
is_inside outside = 0
is_inside _ = 1

abbrev pub count_with : (Pc → ℕ) → List Pc → ℕ
count_with f [] = 0
count_with f (p ∷ ps) = f p + count_with f ps

count_with-append :
    (f : Pc → ℕ) (xs ys : List Pc) → count_with f (xs ++ ys) ≡ count_with f xs + count_with f ys
count_with-append f [] ys = omega arith
count_with-append f (x ∷ xs) ys = omega (arith, count_with-append f xs ys)

-- Putting `q` in the place of `p` changes the count by theirs.
pub count_with-replace :
    (f : Pc → ℕ) (pcs before after : List Pc) (p q : Pc)
    → pcs ≡ before ++ p ∷ after
    → count_with f (before ++ q ∷ after) + f p ≡ count_with f pcs + f q
count_with-replace f pcs before after p q e = omega (
  arith,
  ap (count_with f) e,
  count_with-append f before (p ∷ after),
  count_with-append f before (q ∷ after),
)

pub count_with-place :
    (f : Pc → ℕ) (pcs before after : List Pc) (p : Pc)
    → pcs ≡ before ++ p ∷ after
    → f p ≤ count_with f pcs
count_with-place f pcs before after p e =
    omega (arith, ap (count_with f) e, count_with-append f before (p ∷ after))

-- `already_open` is the number of processes that have the file open, at most one, and the module is
-- held once by each process inside.
pub record Inv (s : System) : Type 0 where
  pub at_most_one : s.gate.already_open ≤ 1
  pub counted : count_with has_open s.pcs ≡ s.gate.already_open
  pub held : count_with is_inside s.pcs ≡ s.gate.refs

-- What a step of one process does to the two counts.
pub record Fits (g : Gate) (p : Pc) (g' : Gate) (q : Pc) : Type 0 where
  pub at_most_one : g'.already_open ≤ 1
  pub counted : g'.already_open + has_open p ≡ g.already_open + has_open q
  pub held : g'.refs + is_inside p ≡ g.refs + is_inside q

Move-Fits :
    {g g' : Gate} {p q : Pc}
    → Move g p g' q
    → g.already_open ≤ 1
    → has_open p ≤ g.already_open
    → is_inside p ≤ g.refs
    → Fits g p g' q
Move-Fits (refuse _) one o i = omega arith
Move-Fits enter one o i = omega arith
Move-Fits (exchange free) one o i = omega arith
Move-Fits (sleep _) one o i = omega arith
Move-Fits (queue_up _) one o i = omega arith
Move-Fits (find_free _) one o i = omega arith
Move-Fits notice_signal one o i = omega arith
Move-Fits wake_signal one o i = omega arith
Move-Fits interrupt one o i = omega arith
Move-Fits again one o i = omega arith

-- Waking the sleepers changes neither count.
count_with-wake_up :
    (f : Pc → ℕ) (ps : List Pc)
    → f looking ≡ f waiting
    → count_with f (wake_up ps) ≡ count_with f ps
unfolding wake_up
count_with-wake_up f [] e = refl
count_with-wake_up f (outside ∷ ps) e = omega (arith, count_with-wake_up f ps e)
count_with-wake_up f (trying ∷ ps) e = omega (arith, count_with-wake_up f ps e)
count_with-wake_up f (looking ∷ ps) e = omega (arith, count_with-wake_up f ps e)
count_with-wake_up f (waiting ∷ ps) e = omega (arith, e, count_with-wake_up f ps e)
count_with-wake_up f (woken ∷ ps) e = omega (arith, count_with-wake_up f ps e)
count_with-wake_up f (opened ∷ ps) e = omega (arith, count_with-wake_up f ps e)

Step-Inv : {s t : System} → Step s t → Inv s → Inv t
unfolding module_close
Step-Inv {s} (pick before after {p} {q} {g} e mv) v = record {
  at_most_one = fits.at_most_one;
  counted =
      omega (arith, fits.counted, v.counted, count_with-replace has_open s.pcs before after p q e);
  held = omega (arith, fits.held, v.held, count_with-replace is_inside s.pcs before after p q e);
}
  where
    fits : Fits s.gate p g q
    fits =
        Move-Fits mv v.at_most_one
          (omega (arith, v.counted, count_with-place has_open s.pcs before after p e))
          (omega (arith, v.held, count_with-place is_inside s.pcs before after p e))
Step-Inv {s} (close before after e) v =
    let ps = before ++ outside ∷ after in
    record {
      at_most_one = omega arith;
      counted = omega (
        arith,
        v.at_most_one,
        v.counted,
        count_with-wake_up has_open ps refl,
        count_with-replace has_open s.pcs before after opened outside e,
      );
      held = omega (
        arith,
        v.held,
        count_with-wake_up is_inside ps refl,
        count_with-replace is_inside s.pcs before after opened outside e,
      );
    }

Reach-Inv : {s t : System} → Inv s → Reach s t → Inv t
Reach-Inv v here = v
Reach-Inv v (next r st) = Step-Inv st (Reach-Inv v r)

-- `n` processes, none of them inside, after the module is loaded.
abbrev pub loaded : ℕ → System
loaded n = record { gate = record { already_open = 0; refs = 0 }; pcs = replicate n outside }

pub count_with-replicate :
    (f : Pc → ℕ) (n : ℕ) → f outside ≡ 0 → count_with f (replicate n outside) ≡ 0
count_with-replicate f zero h = refl
count_with-replicate f (suc n) h = omega (arith, count_with-replicate f n h)

-- Whatever any number of processes do: `already_open` is 0 or 1, and it is the number of processes
-- that have the file open; the module's reference count is the number of processes inside, so it is 0
-- whenever none is.
pub one_opener : (n : ℕ) {s : System} → Reach (loaded n) s → Inv s
one_opener n r =
    Reach-Inv
      (record {
        at_most_one = omega arith;
        counted = count_with-replicate has_open n refl;
        held = count_with-replicate is_inside n refl;
      })
      r
