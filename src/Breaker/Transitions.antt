-- ===== src/Breaker/Transitions.antt =====
-- Which changes of state a breaker makes, and what its callback is told of them.
use golang_gin_rpc.Base.{
  ℕ, ◌≡◌, refl, Bool, true, false, List, [], ◌∷◌, arith, eqb, leb, sym, subst, inl, inr, Bool-cases,
  if◌then◌else◌, if_elim,
}
use golang_gin_rpc.Breaker.{
  State, state_closed, state_open, state_half_open, Breaker, Config, count_success, count_failure,
  same_state, admit, set_state, current_state_at, to_new_generation, current_state, before_request,
  on_success, on_failure, after_request, new,
}
use golang_gin_rpc.Breaker.System.{System, Event, begins, ends, report, step, run, count}

-- The diagram of the circuit breaker.
pub data Edge : State → State → Type 0 where
  trip : Edge state_closed state_open
  probe : Edge state_open state_half_open
  relapse : Edge state_half_open state_open
  recover : Edge state_half_open state_closed

-- A path of the diagram from `state_closed`, newest edge first.
pub data Trail : State → List (State × State) → Type 0 where
  start : Trail state_closed []
  next : {s t : State} {l : List (State × State)} → Trail s l → Edge s t → Trail t ((s, t) ∷ l)

abbrev pub HasTrail : Breaker → Type 0
HasTrail b = (b.on_state_change ≡ true) × Trail b.state b.notified

-- One change along an edge.
set_state-HasTrail :
    (b : Breaker) (t : State) (now : ℕ) → Edge b.state t → HasTrail b → HasTrail (set_state b t now)
unfolding set_state
set_state-HasTrail b t now e h = elim (Bool-cases (same_state b.state t)) [
  | inl same ↦ rw same h
  | inr moves ↦ rw (moves, h.0) (refl, Trail.next h.1 e)
]

to_new_generation-HasTrail :
    (b : Breaker) (now : ℕ) → HasTrail b → HasTrail (to_new_generation b now)
unfolding to_new_generation
to_new_generation-HasTrail b now h = h

-- A breaker in a state that the code has read.
Edge-from : {s t : State} (b : Breaker) → b.state ≡ s → Edge s t → Edge b.state t
Edge-from {t} b e x = subst (λ s. Edge s t) (sym e) x

current_state_at-HasTrail :
    (st : State) (b : Breaker) (now : ℕ)
    → b.state ≡ st
    → HasTrail b
    → HasTrail (current_state_at st b now)
unfolding current_state_at
current_state_at-HasTrail state_closed b now e h =
    ground (arith, h, to_new_generation-HasTrail b now h)
current_state_at-HasTrail state_open b now e h =
    ground (arith, h, set_state-HasTrail b state_half_open now (Edge-from b e probe) h)
current_state_at-HasTrail state_half_open b now e h = h

admit-HasTrail : (st : State) (b : Breaker) → HasTrail b → HasTrail (admit st b).0
admit-HasTrail state_closed b h = h
admit-HasTrail state_open b h = h
admit-HasTrail state_half_open b h = elim (Bool-cases (leb b.max_requests b.counts.requests)) [
  | inl e ↦ rw e h
  | inr e ↦ rw e h
]

current_state-HasTrail : (b : Breaker) (now : ℕ) → HasTrail b → HasTrail (current_state b now)
unfolding current_state
current_state-HasTrail b now h = current_state_at-HasTrail b.state b now refl h

on_success-HasTrail :
    (b : Breaker) (st : State) (now : ℕ)
    → b.state ≡ st
    → HasTrail b
    → HasTrail (on_success b st now)
unfolding on_success
on_success-HasTrail b state_closed now e h = h
on_success-HasTrail b state_open now e h = h
on_success-HasTrail b state_half_open now e h =
    let b' = record b { counts = count_success b.counts } in
    ground (arith, h, set_state-HasTrail b' state_closed now (Edge-from b' e recover) h)

on_failure-HasTrail :
    (b : Breaker) (st : State) (now : ℕ)
    → b.state ≡ st
    → HasTrail b
    → HasTrail (on_failure b st now).0
unfolding on_failure
on_failure-HasTrail b state_closed now e h =
    let b' = record b { counts = count_failure b.counts } in
    ground (arith, h, set_state-HasTrail b' state_open now (Edge-from b' e trip) h)
on_failure-HasTrail b state_open now e h = h
on_failure-HasTrail b state_half_open now e h =
    let b' = record b { counts = count_failure b.counts } in
    set_state-HasTrail b' state_open now (Edge-from b' e relapse) h

report-HasTrail :
    (b : Breaker) (success : Bool) (now : ℕ)
    → HasTrail b
    → HasTrail (if success then (on_success b b.state now, false) else on_failure b b.state now).0
report-HasTrail b true now h = on_success-HasTrail b b.state now refl h
report-HasTrail b false now h = on_failure-HasTrail b b.state now refl h

after_request-HasTrail :
    (b : Breaker) (g : ℕ) (success : Bool) (now : ℕ)
    → HasTrail b
    → HasTrail (after_request b g success now).0
unfolding after_request
after_request-HasTrail b g success now h =
    elim (Bool-cases (eqb (current_state b now).generation g)) [
      | inl e ↦
          rw e (report-HasTrail (current_state b now) success now (current_state-HasTrail b now h))
      | inr e ↦ rw e (current_state-HasTrail b now h)
    ]

report_again-HasTrail :
    (b : Breaker) (g : ℕ) (success : Bool) (now again : ℕ)
    → HasTrail b
    → HasTrail (report b g success now again)
unfolding report
report_again-HasTrail b g success now again h =
    let made = after_request b g success now in
    let first = after_request-HasTrail b g success now h in
    if_elim HasTrail made.1 (λ _. after_request-HasTrail made.0 g false again first) (λ _. first)

step-HasTrail : (s : System) (e : Event) → HasTrail s.breaker → HasTrail (step s e).breaker
unfolding step before_request
step-HasTrail s (begins now) h =
    admit-HasTrail _ (current_state s.breaker now) (current_state-HasTrail s.breaker now h)
step-HasTrail s (ends g success now again) h = elim (Bool-cases (eqb (count g s.in_flight) 0)) [
  | inl e ↦ rw e h
  | inr e ↦ rw e (report_again-HasTrail s.breaker g success now again h)
]

run-HasTrail : (s : System) (es : List Event) → HasTrail s.breaker → HasTrail (run s es).breaker
unfolding run
run-HasTrail s [] h = h
run-HasTrail s (e ∷ es) h = run-HasTrail (step s e) es (step-HasTrail s e h)

-- Whatever requests begin and end on a new breaker whose callback is set, the callback has been
-- told of a path of the diagram that leads from the closed state to the present one: it misses no
-- change, and the breaker makes no other.
pub callback_trail :
    (config : Config) (now : ℕ) (es : List Event)
    → config.on_state_change ≡ true
    → let b = (run (record { breaker = new config now; in_flight = [] }) es).breaker in
      Trail b.state b.notified
unfolding new to_new_generation
callback_trail config now es h =
    (run-HasTrail (record { breaker = new config now; in_flight = [] }) es (h, start)).1
