-- ===== src/Scheduler/Tests.antt =====
-- Tasks on concrete inputs.
use golang_gin_rpc.Base.{◌≡◌, refl, true, [], ◌∷◌}
use golang_gin_rpc.Scheduler.{Task, ticks, goes, run}
use golang_gin_rpc.Scheduler.Runs.{one_shot_never_runs}

abbrev once : Task
once = record {
  id = "cleanup";
  interval = 0;
  delay = 100;
  times = 0;
  has_func = true;
  next_run = 100;
  run_count = 0;
  active = true;
  runs = 0;
}

one_shot_never_runs_example :
    (run
      (record { task = once; waiting = 0 })
      (ticks 90 ∷ ticks 110 ∷ goes ∷ ticks 120 ∷ [])).task.runs
    ≡ 0
one_shot_never_runs_example =
    one_shot_never_runs once (ticks 90 ∷ ticks 110 ∷ goes ∷ ticks 120 ∷ []) refl
