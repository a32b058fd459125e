-- ===== src/Scheduler.antt =====
-- plugins/scheduler/scheduler.go. Times are nanoseconds with the zero `time.Time` as 0, an
-- interval that is not positive is 0, and what a task's function does is not modelled: `runs`
-- counts its calls. A `Times` that is not positive is 0.
pub mod Runs
mod Tests
use golang_gin_rpc.Base.{
  ℕ, ◌+◌, Bool, true, false, not, ◌&&◌, ◌||◌, Option, none, some, List, [], ◌∷◌, ◌++◌, ◌-◌, String,
  ltb, leb, eqb, ◌==◌, string_eq, Dict, insert, erase, has, if◌then◌else◌,
}

-- `has_func` says that `Func` is not nil; `runs` is how often it was called.
pub record Task : Type 0 where
  pub id : String
  pub interval : ℕ
  pub delay : ℕ
  pub times : ℕ
  pub has_func : Bool
  pub next_run : ℕ
  pub run_count : ℕ
  pub active : Bool
  pub runs : ℕ

-- The tasks that a tick has started and whose goroutine has not run yet.
pub record Scheduler : Type 0 where
  pub tasks : Dict String Task
  pub running : Bool
  pub pending : List String

pub data Err : Type 0 where
  id_and_function_required already_exists : Err

abbrev pub new : Scheduler
new = record { tasks = []; running = false; pending = [] }

abbrev pub start : Scheduler → Scheduler
start s = record s { running = true }

-- `Stop` cancels the contexts of the tasks, which stay in the map.
abbrev pub stop : Scheduler → Scheduler
stop s = record s { running = false }

activated : Task → ℕ → Task
activated t now = record t {
  active = true;
  next_run = if eqb t.next_run 0 then now + t.delay else t.next_run;
}

-- The scheduler, the caller's task, which is active from then on even if its name is taken, and the
-- error.
unfoldable pub add_task : Scheduler → Task → ℕ → (Scheduler × Task) × Option Err
unfolding activated
add_task s t now =
    let t' = activated t now in
    if t.id == "" || not t.has_func
    then ((s, t), some id_and_function_required)
    else (if has t.id s.tasks
        then ((s, t'), some already_exists)
        else ((record s { tasks = insert t.id t' s.tasks }, t'), none))

unfoldable pub remove_task : Scheduler → String → Scheduler
remove_task s id = record s { tasks = erase id s.tasks }

unfoldable pub should_run : Task → ℕ → Task × Bool
should_run t now =
    if not t.active
    then (t, false)
    else (if ltb 0 t.times && leb t.times t.run_count
        then (record t { active = false }, false)
        else (if ltb now t.next_run
            then (t, false)
            else (let t' =
                  if ltb 0 t.interval
                  then record t { next_run = now + t.interval }
                  else record t { active = false } in
                (record t' { run_count = t'.run_count + 1 }, true))))

-- `executeTask`: the function is called unless the task is no longer active.
unfoldable pub execute_task : Task → Task
execute_task t = if not t.active then t else record t { runs = t.runs + 1 }

-- `tick` visits every task and starts a goroutine for each that should run.
unfoldable pub tick_tasks : Dict String Task → ℕ → Dict String Task × List String
unfolding should_run
tick_tasks [] now = ([], [])
tick_tasks ((id, t) ∷ rest) now =
    let (t', run) = should_run t now in
    let (rest', started) = tick_tasks rest now in
    ((id, t') ∷ rest', if run then id ∷ started else started)

unfoldable pub tick : Scheduler → ℕ → Scheduler
unfolding tick_tasks
tick s now =
    let (tasks, started) = tick_tasks s.tasks now in
    record s { tasks = tasks; pending = s.pending ++ started }

-- One task and the number of its goroutines that have been started and have not run.
pub record Machine : Type 0 where
  pub task : Task
  pub waiting : ℕ

-- The scheduler ticks, or one of the goroutines gets its turn.
pub data Event : Type 0 where
  ticks : (now : ℕ) → Event
  goes : Event

unfoldable pub step : Machine → Event → Machine
step m (ticks now) =
    let (t', run) = should_run m.task now in
    record { task = t'; waiting = if run then m.waiting + 1 else m.waiting }
step m goes =
    if eqb m.waiting 0 then m else record { task = execute_task m.task; waiting = m.waiting - 1 }

unfoldable pub run : Machine → List Event → Machine
run m [] = m
run m (e ∷ es) = run (step m e) es

-- A task whose goroutine runs before the next tick, through the ticks at the given times.
unfoldable pub prompt : Task → List ℕ → Task
prompt t [] = t
prompt t (now ∷ rest) =
    let (t', run) = should_run t now in prompt (if run then execute_task t' else t') rest
