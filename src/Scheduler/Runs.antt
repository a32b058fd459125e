-- ===== src/Scheduler/Runs.antt =====
-- How often a task runs, and when.
use golang_gin_rpc.Base.{
  ℕ, ◌+◌, ◌-◌, ◌≤◌, ◌<◌, ◌≡◌, refl, true, false, List, [], ◌∷◌, arith, length, Bool-cases, inl, inr,
  min, leb, leb→le, leb→lt, ◌∙◌, sym, subst₂,
}
use golang_gin_rpc.Scheduler.{
  Task, should_run, execute_task, Machine, Event, ticks, goes, step, run, prompt,
}

-- No goroutine of a task without an interval finds the task active.
record OneShot (n : ℕ) (m : Machine) : Type 0 where
  no_interval : m.task.interval ≡ 0
  not_run : m.task.runs ≡ n
  settled : 0 < m.waiting → m.task.active ≡ false

step-OneShot : (n : ℕ) (m : Machine) (e : Event) → OneShot n m → OneShot n (step m e)
unfolding step should_run execute_task
step-OneShot n m (ticks now) v = ground arith
step-OneShot n m goes v = ground arith

run-OneShot : (n : ℕ) (m : Machine) (es : List Event) → OneShot n m → OneShot n (run m es)
unfolding run
run-OneShot n m [] v = v
run-OneShot n m (e ∷ es) v = run-OneShot n (step m e) es (step-OneShot n m e v)

-- A task without an interval is never run: whatever the ticks and whenever its goroutines get
-- their turn, its function is not called, since the tick that starts it also makes it inactive.
pub one_shot_never_runs :
    (t : Task) (es : List Event)
    → t.interval ≡ 0
    → (run (record { task = t; waiting = 0 }) es).task.runs ≡ t.runs
one_shot_never_runs t es h =
    (run-OneShot t.runs (record { task = t; waiting = 0 }) es
      (record { no_interval = h; not_run = refl; settled = λ l. elim l [ ] })).not_run

record Counted (m : Machine) : Type 0 where
  accounted : m.task.runs + m.waiting ≤ m.task.run_count
  capped : 0 < m.task.times → m.task.run_count ≤ m.task.times

step-Counted : (m : Machine) (e : Event) → Counted m → Counted (step m e)
unfolding step should_run execute_task
step-Counted m (ticks now) v = ground arith
step-Counted m goes v = ground arith

step-times : (m : Machine) (e : Event) → (step m e).task.times ≡ m.task.times
unfolding step should_run execute_task
step-times m (ticks now) = ground arith
step-times m goes = ground arith

-- A task with a positive `Times` is never run more often than that, whatever the ticks and whenever
-- its goroutines get their turn, from any state in which its count covers the runs and those that
-- wait and is within `Times`.
pub runs-le-times :
    (m : Machine) (es : List Event)
    → m.task.runs + m.waiting ≤ m.task.run_count
    → m.task.run_count ≤ m.task.times
    → 0 < m.task.times
    → (run m es).task.runs ≤ m.task.times
unfolding run
runs-le-times m [] a c p = omega arith
runs-le-times m (e ∷ es) a c p =
    let v = step-Counted m e (record { accounted = a; capped = λ _. c }) in
    let same = step-times m e in
    omega (
      arith,
      same,
      runs-le-times (step m e) es v.accounted (ground (arith, v.capped)) (omega (arith, same)),
    )

-- Two runs of a periodic task are at least an interval apart: the tick that starts it puts the
-- next run off, and no tick before that starts it again.
pub runs_apart :
    (t : Task) (now later : ℕ)
    → 0 < t.interval
    → (should_run t now).1 ≡ true
    → later < now + t.interval
    → (should_run (should_run t now).0 later).1 ≡ false
unfolding should_run
runs_apart t now later i h l = ground arith

-- Ticks that do not come before the next run: the first at `t`, each an interval after the last.
abbrev pub Spaced : ℕ → ℕ → List ℕ → Type 0
Spaced t i [] = Unit
Spaced t i (now ∷ rest) = (t ≤ now) × Spaced (now + i) i rest

one_run :
    (t : Task) (now : ℕ)
    → t.active ≡ true
    → 0 < t.interval
    → t.run_count < t.times
    → t.next_run ≤ now
    → let t' = execute_task (should_run t now).0 in
      ((should_run t now).1 ≡ true)
      × (t'.active ≡ true)
      × (t'.interval ≡ t.interval)
      × (t'.times ≡ t.times)
      × (t'.run_count ≡ t.run_count + 1)
      × (t'.next_run ≡ now + t.interval)
      × (t'.runs ≡ t.runs + 1)
unfolding should_run execute_task
one_run t now a i c n = ground arith

no_run :
    (t : Task) (now : ℕ)
    → 0 < t.times
    → t.times ≤ t.run_count
    → ((should_run t now).1 ≡ false)
      × ((should_run t now).0.runs ≡ t.runs)
      × ((should_run t now).0.times ≡ t.times)
      × ((should_run t now).0.run_count ≡ t.run_count)
unfolding should_run
no_run t now p c = ground arith

stays_done :
    (t : Task) (ts : List ℕ) → 0 < t.times → t.times ≤ t.run_count → (prompt t ts).runs ≡ t.runs
unfolding prompt
stays_done t [] p c = refl
stays_done t (now ∷ ts) p c =
    let (off, r, n, k) = no_run t now p c in
    rw (off, prompt) (stays_done (should_run t now).0 ts (omega arith) (omega arith) ∙ r)

-- A periodic task that is limited to some number of runs, and whose goroutine gets its turn before
-- the next tick, is run at every tick, until that number is reached, when the first tick does not
-- come before it is due and each comes at least an interval after the last.
pub periodic_runs :
    (t : Task) (ts : List ℕ)
    → t.active ≡ true
    → 0 < t.interval
    → 0 < t.times
    → t.run_count ≤ t.times
    → Spaced t.next_run t.interval ts
    → (prompt t ts).runs ≡ t.runs + min (length ts) (t.times - t.run_count)
unfolding prompt
periodic_runs t [] a i p c s = omega arith
periodic_runs t (now ∷ ts) a i p c s = elim (Bool-cases (leb t.times t.run_count)) [
  | inl over ↦ omega (arith, stays_done t (now ∷ ts) p (leb→le _ _ over), leb→le _ _ over)
  | inr more ↦
      let (on, a', i', n', k', x', r') = one_run t now a i (leb→lt _ _ more) s.0 in
      let t' = execute_task (should_run t now).0 in
      let ih =
        periodic_runs t' ts a' (omega arith) (omega arith) (omega (arith, leb→lt _ _ more))
          (subst₂ (λ x j. Spaced x j ts) (sym x') (sym i') s.1) in
      rw (on, prompt) (omega (arith, ih, leb→lt _ _ more))
]
