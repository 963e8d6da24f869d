-- ===== src/Completions/Ends.antt =====
-- Every run of thread_completion_drv.c ends, in the right order.
use mad_devicedriver.Prelude.{ℕ, suc, ◌+◌, ◌≤◌, ◌≡◌, ◌⊎◌, inl, inr, refl, arith, Bool, true, false}
use mad_devicedriver.Completions.{
  InitPc, at_flywheel, at_crank, loaded, CrankPc, still, turning, turned, ended, FlywheelPc, asleep,
  waiting, spinning, spun, stopped, ExitPc, uncalled, wait_crank, wait_flywheel, returned, Machine,
  Step, wake_flywheel, wake_crank, crank_complete_all, crank_exit, crank_seen,
  flywheel_complete_all, flywheel_exit, unload, past_crank, past_flywheel, created, Run, start,
  then_step,
}

-- 1 where a flag is set, or a point is passed.
abbrev pub flag : Bool → ℕ
flag true = 1
flag false = 0

abbrev pub woke_flywheel : InitPc → ℕ
woke_flywheel at_flywheel = 0
woke_flywheel _ = 1

abbrev pub woke_crank : InitPc → ℕ
woke_crank loaded = 1
woke_crank _ = 0

abbrev pub crank_awake : CrankPc → ℕ
crank_awake still = 0
crank_awake _ = 1

abbrev pub has_turned : CrankPc → ℕ
has_turned turned = 1
has_turned ended = 1
has_turned _ = 0

abbrev pub flywheel_awake : FlywheelPc → ℕ
flywheel_awake asleep = 0
flywheel_awake _ = 1

abbrev pub past_wait : FlywheelPc → ℕ
past_wait asleep = 0
past_wait waiting = 0
past_wait _ = 1

abbrev pub has_spun : FlywheelPc → ℕ
has_spun spun = 1
has_spun stopped = 1
has_spun _ = 0

abbrev pub saw_crank : ExitPc → ℕ
saw_crank wait_flywheel = 1
saw_crank returned = 1
saw_crank _ = 0

abbrev pub has_returned : ExitPc → ℕ
has_returned returned = 1
has_returned _ = 0

-- The steps that each has left.
abbrev pub init_left : InitPc → ℕ
init_left at_flywheel = 2
init_left at_crank = 1
init_left loaded = 0

abbrev pub crank_left : CrankPc → ℕ
crank_left still = 2
crank_left turning = 2
crank_left turned = 1
crank_left ended = 0

abbrev pub flywheel_left : FlywheelPc → ℕ
flywheel_left asleep = 3
flywheel_left waiting = 3
flywheel_left spinning = 2
flywheel_left spun = 1
flywheel_left stopped = 0

abbrev pub exit_left : ExitPc → ℕ
exit_left uncalled = 3
exit_left wait_crank = 2
exit_left wait_flywheel = 1
exit_left returned = 0

abbrev pub steps_left : Machine → ℕ
steps_left m = init_left m.init + crank_left m.crank + flywheel_left m.flywheel + exit_left m.exit

-- The completions stand for what the threads did, and nobody passes a wait before it is done: not the
-- flywheel thread before the crank has turned, and not the exit function before both.
pub record Ordered (m : Machine) : Type 0 where
  pub crank_done : flag m.crank_comp ≡ has_turned m.crank
  pub flywheel_done : flag m.flywheel_comp ≡ has_spun m.flywheel
  pub flywheel_woken : flywheel_awake m.flywheel ≡ woke_flywheel m.init
  pub crank_woken : crank_awake m.crank ≡ woke_crank m.init
  pub crank_first : past_wait m.flywheel ≤ has_turned m.crank
  pub exit_after_crank : saw_crank m.exit ≤ has_turned m.crank
  pub exit_after_flywheel : has_returned m.exit ≤ has_spun m.flywheel

Step-Ordered : {m t : Machine} → Step m t → Ordered m → Ordered t
Step-Ordered (wake_flywheel e) v = ground arith
Step-Ordered (wake_crank e) v = ground arith
Step-Ordered (crank_complete_all e) v = ground arith
Step-Ordered (crank_exit e) v = ground arith
Step-Ordered (crank_seen e f) v = ground arith
Step-Ordered (flywheel_complete_all e) v = ground arith
Step-Ordered (flywheel_exit e) v = ground arith
Step-Ordered (unload e f) v = ground arith
Step-Ordered (past_crank e f) v = ground arith
Step-Ordered (past_flywheel e f) v = ground arith

-- Each step does one of the steps left.
Step-left : {m t : Machine} → Step m t → Ordered m → steps_left m ≡ suc (steps_left t)
Step-left (wake_flywheel e) v = ground arith
Step-left (wake_crank e) v = ground arith
Step-left (crank_complete_all e) v = ground arith
Step-left (crank_exit e) v = ground arith
Step-left (crank_seen e f) v = ground arith
Step-left (flywheel_complete_all e) v = ground arith
Step-left (flywheel_exit e) v = ground arith
Step-left (unload e f) v = ground arith
Step-left (past_crank e f) v = ground arith
Step-left (past_flywheel e f) v = ground arith

-- Both threads have ended, and the exit function has returned.
abbrev pub finished : Machine
finished = record {
  crank_comp = true;
  flywheel_comp = true;
  init = loaded;
  crank = ended;
  flywheel = stopped;
  exit = returned;
}

Continues : Machine → Type 0
Continues m = (m ≡ finished) ⊎ ((t : Machine) × Step m t)

-- One that can go on, from the first that has not ended.
exit-Continues :
    (c f : Bool) (x : ExitPc)
    → let m : Machine = record {
      crank_comp = c;
      flywheel_comp = f;
      init = loaded;
      crank = ended;
      flywheel = stopped;
      exit = x;
    } in
      Ordered m → Continues m
unfolding Continues
exit-Continues c f uncalled v = inr (_, unload refl refl)
exit-Continues true f wait_crank v = inr (_, past_crank refl refl)
exit-Continues false f wait_crank v = absurd (ground arith)
exit-Continues c true wait_flywheel v = inr (_, past_flywheel refl refl)
exit-Continues c false wait_flywheel v = absurd (ground arith)
exit-Continues true true returned v = inl refl
exit-Continues false f returned v = absurd (ground arith)
exit-Continues c false returned v = absurd (ground arith)

flywheel-Continues :
    (c f : Bool) (w : FlywheelPc) (x : ExitPc)
    → let m : Machine = record {
      crank_comp = c;
      flywheel_comp = f;
      init = loaded;
      crank = ended;
      flywheel = w;
      exit = x;
    } in
      Ordered m → Continues m
unfolding Continues
flywheel-Continues c f asleep x v = absurd (ground arith)
flywheel-Continues true f waiting x v = inr (_, crank_seen refl refl)
flywheel-Continues false f waiting x v = absurd (ground arith)
flywheel-Continues c f spinning x v = inr (_, flywheel_complete_all refl)
flywheel-Continues c f spun x v = inr (_, flywheel_exit refl)
flywheel-Continues c f stopped x v = exit-Continues c f x v

machine-Continues :
    (c f : Bool) (i : InitPc) (k : CrankPc) (w : FlywheelPc) (x : ExitPc)
    → let m : Machine = record {
      crank_comp = c;
      flywheel_comp = f;
      init = i;
      crank = k;
      flywheel = w;
      exit = x;
    } in
      Ordered m → Continues m
unfolding Continues
machine-Continues c f at_flywheel k w x v = inr (_, wake_flywheel refl)
machine-Continues c f at_crank k w x v = inr (_, wake_crank refl)
machine-Continues c f loaded still w x v = absurd (ground arith)
machine-Continues c f loaded turning w x v = inr (_, crank_complete_all refl)
machine-Continues c f loaded turned w x v = inr (_, crank_exit refl)
machine-Continues c f loaded ended w x v = flywheel-Continues c f w x v

created-Ordered : Ordered created
created-Ordered = omega arith

Run-Ordered : {m t : Machine} {n : ℕ} → Run m n t → Ordered m → Ordered t
Run-Ordered start v = v
Run-Ordered (then_step r st) v = Step-Ordered st (Run-Ordered r v)

Run-left : {m t : Machine} {n : ℕ} → Run m n t → Ordered m → n + steps_left t ≡ steps_left m
Run-left start v = omega arith
Run-left (then_step r st) v = omega (arith, Run-left r v, Step-left st (Run-Ordered r v))

-- In whatever order the init function, the two threads and an unloading of the module take their steps:
-- after `n` of them there are just 10 - `n` left, so every run ends; it goes on until both threads have
-- ended and the exit function has returned; and at every point the completions are done exactly when
-- their threads have done them, the flywheel thread is past its wait only if the crank has turned, and
-- the exit function has returned only if both threads have completed.
pub runs_end :
    {m : Machine} {n : ℕ}
    → Run created n m
    → (n + steps_left m ≡ 10) × Ordered m × ((m ≡ finished) ⊎ ((t : Machine) × Step m t))
unfolding Continues
runs_end {m} r =
    let v = Run-Ordered r created-Ordered in
    (
      Run-left r created-Ordered,
      v,
      machine-Continues m.crank_comp m.flywheel_comp m.init m.crank m.flywheel m.exit v,
    )
