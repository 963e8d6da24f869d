-- ===== src/Completions.antt =====
-- device_driver/thread_completion_drv.c: a crank thread and a flywheel thread, and the exit function that
-- waits for both, as they run beside each other once `completions_init` has created the threads.
pub mod Ends
mod Tests
use mad_devicedriver.Prelude.{
  ℕ, zero, suc, ◌≡◌, Bool, true, false, not, Option, none, some, if◌then◌else◌,
}
use mad_devicedriver.Kernel.{Errno, eperm}

-- `completions_init`, behind the two calls of kthread_create: at the wake-up of the flywheel thread, at
-- that of the crank thread, and returned.
pub data InitPc : Type 0 where
  at_flywheel at_crank loaded : InitPc

-- `machine_crank_thread`: not woken up, at `complete_all`, at `complete_and_exit`, and ended.
pub data CrankPc : Type 0 where
  still turning turned ended : CrankPc

-- `machine_flywheel_spinup_thread`: not woken up, at its wait, at `complete_all`, at
-- `complete_and_exit`, and ended.
pub data FlywheelPc : Type 0 where
  asleep waiting spinning spun stopped : FlywheelPc

-- `completions_exit`: not called, at its two waits, and returned.
pub data ExitPc : Type 0 where
  uncalled wait_crank wait_flywheel returned : ExitPc

-- `machine`, by whether each completion is done, and where every function stands. (`complete_all` makes
-- a completion done for good; the `complete` inside `complete_and_exit` adds nothing to that.)
pub record Machine : Type 0 where
  pub crank_comp : Bool
  pub flywheel_comp : Bool
  pub init : InitPc
  pub crank : CrankPc
  pub flywheel : FlywheelPc
  pub exit : ExitPc

-- One step of one of them.
pub data Step (m : Machine) : Machine → Type 0 where
  wake_flywheel : m.init ≡ at_flywheel → Step m (record m { init = at_crank; flywheel = waiting })
  wake_crank : m.init ≡ at_crank → Step m (record m { init = loaded; crank = turning })
  crank_complete_all : m.crank ≡ turning → Step m (record m { crank_comp = true; crank = turned })
  crank_exit : m.crank ≡ turned → Step m (record m { crank_comp = true; crank = ended })
  crank_seen :
      m.flywheel ≡ waiting → m.crank_comp ≡ true → Step m (record m { flywheel = spinning })
  flywheel_complete_all :
      m.flywheel ≡ spinning → Step m (record m { flywheel_comp = true; flywheel = spun })
  flywheel_exit : m.flywheel ≡ spun → Step m (record m { flywheel_comp = true; flywheel = stopped })
  -- The module can be unloaded once its init has returned.
  unload : m.init ≡ loaded → m.exit ≡ uncalled → Step m (record m { exit = wait_crank })
  past_crank :
      m.exit ≡ wait_crank → m.crank_comp ≡ true → Step m (record m { exit = wait_flywheel })
  past_flywheel :
      m.exit ≡ wait_flywheel → m.flywheel_comp ≡ true → Step m (record m { exit = returned })

-- After `init_completion` on both, and the creation of both threads.
abbrev pub created : Machine
created = record {
  crank_comp = false;
  flywheel_comp = false;
  init = at_flywheel;
  crank = still;
  flywheel = asleep;
  exit = uncalled;
}

-- `completions_init`: whether each kthread_create gives a thread. -1 is returned where one does not, and
-- a crank thread that is there is stopped, before it ran; else the wake-ups of `created` come next.
unfoldable pub completions_init : Bool → Bool → Option Errno × Option Machine
completions_init crank_thread flywheel_thread =
    if not crank_thread
    then (some eperm, none)
    else if not flywheel_thread
    then (some eperm, none)
    else (none, some created)

-- A run of so many steps.
pub data Run (m : Machine) : ℕ → Machine → Type 0 where
  start : Run m zero m
  then_step : {n : ℕ} {s t : Machine} → Run m n s → Step s t → Run m (suc n) t
