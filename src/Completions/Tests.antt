-- ===== src/Completions/Tests.antt =====
-- A run of thread_completion_drv.c: the flywheel thread waits, and the crank thread has turned.
use mad_devicedriver.Prelude.{◌+◌, ◌≡◌, ◌⊎◌, refl, true, false}
use mad_devicedriver.Completions.{
  loaded, turned, ended, waiting, spun, uncalled, returned, Machine, Step, wake_flywheel,
  wake_crank, crank_complete_all, crank_exit, crank_seen, flywheel_complete_all, unload, past_crank,
  past_flywheel, created, Run, start, then_step,
}
use mad_devicedriver.Completions.Ends.{steps_left, Ordered, finished, runs_end}

abbrev turned_crank : Machine
turned_crank = record {
  crank_comp = true;
  flywheel_comp = false;
  init = loaded;
  crank = turned;
  flywheel = waiting;
  exit = uncalled;
}

Run-turned_crank : Run created 3 turned_crank
Run-turned_crank =
    then_step (then_step (then_step start (wake_flywheel refl)) (wake_crank refl))
      (crank_complete_all refl)

runs_end_example :
    (3 + steps_left turned_crank ≡ 10)
    × Ordered turned_crank
    × ((turned_crank ≡ finished) ⊎ ((t : Machine) × Step turned_crank t))
runs_end_example = runs_end Run-turned_crank

-- The exit function may return before the flywheel thread has left the code of the module.
abbrev unloaded_early : Machine
unloaded_early = record {
  crank_comp = true;
  flywheel_comp = true;
  init = loaded;
  crank = ended;
  flywheel = spun;
  exit = returned;
}

Run-unloaded_early : Run created 9 unloaded_early
Run-unloaded_early =
    then_step
      (then_step
        (then_step
          (then_step
            (then_step (then_step Run-turned_crank (crank_exit refl)) (crank_seen refl refl))
            (flywheel_complete_all refl))
          (unload refl refl))
        (past_crank refl refl))
      (past_flywheel refl refl)
