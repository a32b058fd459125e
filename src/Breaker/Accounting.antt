-- ===== src/Breaker/Accounting.antt =====
-- What the counters of a breaker say of the requests in flight.
use golang_gin_rpc.Base.{
  if_elim, subst, sym, ◌∙◌, ap, true, not, none, none-absurd, Option-cases, ℕ, ◌+◌, ◌*◌, ◌≤◌, ◌<◌,
  ◌≡◌, refl, Bool, false, List, [], ◌∷◌, arith, eqb, inl, inr, some, length, if◌then◌else◌,
}
use golang_gin_rpc.Breaker.{
  State, state_closed, state_open, state_half_open, Config, Counts, Breaker, too_many_requests, new,
  admit, current_state, before_request, on_success, on_failure, after_request,
}
use golang_gin_rpc.Breaker.System.{count, remove, report, System, Event, begins, ends, step, run}
use golang_gin_rpc.Breaker.Counters.{
  Inv, current_state-generation, before_request-Inv, after_request-Inv,
}

report-generation :
    (b : Breaker) (st : State) (success : Bool) (now : ℕ)
    → b.generation + 1 < 18446744073709551616
    → (if success then (on_success b st now, false) else on_failure b st now).0.generation
      ≤ b.generation + 1
unfolding on_success on_failure
report-generation b state_closed success now w = ground arith
report-generation b state_open success now w = ground arith
report-generation b state_half_open success now w = ground arith

after_request-generation :
    (b : Breaker) (g : ℕ) (success : Bool) (now : ℕ)
    → b.generation + 2 < 18446744073709551616
    → (after_request b g success now).0.generation ≤ b.generation + 2
unfolding after_request
after_request-generation b g success now w = ground (
  arith,
  current_state-generation b now,
  report-generation (current_state b now) (current_state b now).state success now,
)

admit-generation : (st : State) (b : Breaker) → (admit st b).0.generation ≡ b.generation
admit-generation state_closed b = refl
admit-generation state_open b = refl
admit-generation state_half_open b = ground arith

before_request-generation :
    (b : Breaker) (now : ℕ)
    → b.generation + 2 < 18446744073709551616
    → (before_request b now).0.generation ≤ b.generation + 1
unfolding before_request
before_request-generation b now w = ground (
  arith,
  current_state-generation b now,
  admit-generation (current_state b now).state (current_state b now),
)

abbrev pub SystemInv : System → Type 0
SystemInv s = Inv s.breaker s.in_flight

current_state-ready :
    (b : Breaker) (now : ℕ) → (current_state b now).ready_to_trip ≡ b.ready_to_trip
unfolding current_state
current_state-ready b now = ground arith

admit-ready : (st : State) (b : Breaker) → (admit st b).0.ready_to_trip ≡ b.ready_to_trip
admit-ready state_closed b = refl
admit-ready state_open b = refl
admit-ready state_half_open b = ground arith

-- A report does not panic when `readyToTrip` is set.
report_of-ready :
    (b : Breaker) (st : State) (trip : Counts → Bool) (success : Bool) (now : ℕ)
    → b.ready_to_trip ≡ some trip
    → let r = if success then (on_success b st now, false) else on_failure b st now in
      (r.1 ≡ false) × (r.0.ready_to_trip ≡ some trip)
unfolding on_success on_failure
report_of-ready b state_closed trip true now h = (refl, h)
report_of-ready b state_open trip true now h = (refl, h)
report_of-ready b state_half_open trip true now h = ground arith
report_of-ready b state_closed trip false now h = ground arith
report_of-ready b state_open trip false now h = (refl, h)
report_of-ready b state_half_open trip false now h = ground arith

after_request-ready :
    (b : Breaker) (g : ℕ) (trip : Counts → Bool) (success : Bool) (now : ℕ)
    → b.ready_to_trip ≡ some trip
    → let r = after_request b g success now in (r.1 ≡ false) × (r.0.ready_to_trip ≡ some trip)
unfolding after_request
after_request-ready b g trip success now h =
    let b' = current_state b now in
    let k = current_state-ready b now ∙ h in
    if_elim (λ (r : Breaker × Bool). (r.1 ≡ false) × (r.0.ready_to_trip ≡ some trip))
      (not (eqb b'.generation g)) (λ _. (refl, k))
      (λ _. report_of-ready b' b'.state trip success now k)

report-once :
    (b : Breaker) (g : ℕ) (trip : Counts → Bool) (success : Bool) (now again : ℕ)
    → b.ready_to_trip ≡ some trip
    → report b g success now again ≡ (after_request b g success now).0
unfolding report
report-once b g trip success now again h = rw ((after_request-ready b g trip success now h).0) refl

step-ready :
    (s : System) (e : Event) (trip : Counts → Bool)
    → s.breaker.ready_to_trip ≡ some trip
    → (step s e).breaker.ready_to_trip ≡ some trip
unfolding step before_request
step-ready s (begins now) trip h =
    let b = current_state s.breaker now in
    admit-ready b.state b ∙ current_state-ready s.breaker now ∙ h
step-ready s (ends g success now again) trip h =
    if_elim (λ (s' : System). s'.breaker.ready_to_trip ≡ some trip) (eqb (count g s.in_flight) 0)
      (λ _. h)
      (λ _.
        ap (λ (b : Breaker). b.ready_to_trip) (report-once s.breaker g trip success now again h)
        ∙ (after_request-ready s.breaker g trip success now h).1)

pub step-Inv :
    (s : System) (e : Event) (trip : Counts → Bool)
    → s.breaker.ready_to_trip ≡ some trip
    → s.breaker.generation + 2 < 18446744073709551616
    → SystemInv s
    → SystemInv (step s e)
unfolding step
step-Inv s (begins now) trip t w v = before_request-Inv s.breaker s.in_flight now (omega arith) v
step-Inv s (ends g success now again) trip t w v =
    if_elim SystemInv (eqb (count g s.in_flight) 0) (λ _. v)
      (λ e.
        subst (λ (b : Breaker). Inv b (remove g s.in_flight))
          (sym (report-once s.breaker g trip success now again t))
          (after_request-Inv s.breaker s.in_flight g success now w (ground arith) v))

step-generation :
    (s : System) (e : Event) (trip : Counts → Bool)
    → s.breaker.ready_to_trip ≡ some trip
    → s.breaker.generation + 2 < 18446744073709551616
    → (step s e).breaker.generation ≤ s.breaker.generation + 2
unfolding step
step-generation s (begins now) trip t w = omega (arith, before_request-generation s.breaker now)
step-generation s (ends g success now again) trip t w =
    if_elim (λ (s' : System). s'.breaker.generation ≤ s.breaker.generation + 2)
      (eqb (count g s.in_flight) 0) (λ _. omega arith)
      (λ e.
        subst (λ (b : Breaker). b.generation ≤ s.breaker.generation + 2)
          (sym (report-once s.breaker g trip success now again t))
          (after_request-generation s.breaker g success now w))

-- Whatever requests begin and end, in whatever order and with whatever results, the counters
-- account for the requests of the current generation, no request in flight carries a later
-- generation, and the half-open state keeps within its limit of probes, as long as the 64-bit
-- generation cannot wrap. `ReadyToTrip` is set: without it a report panics, and is made twice.
pub run-Inv :
    (s : System) (es : List Event) (trip : Counts → Bool)
    → s.breaker.ready_to_trip ≡ some trip
    → s.breaker.generation + 2 * length es < 18446744073709551616
    → SystemInv s
    → SystemInv (run s es)
unfolding run
run-Inv s [] trip t w v = v
run-Inv s (e ∷ es) trip t w v =
    run-Inv (step s e) es trip (step-ready s e trip t) (omega (arith, step-generation s e trip t))
      (step-Inv s e trip t (omega arith) v)

-- A breaker without `ReadyToTrip` that is closed stays closed.
abbrev NeverTrips : Breaker → Type 0
NeverTrips b = (b.state ≡ state_closed) × (b.ready_to_trip ≡ none)

current_state-NeverTrips : (b : Breaker) (now : ℕ) → NeverTrips b → NeverTrips (current_state b now)
unfolding current_state
current_state-NeverTrips b now h = ground (arith, h)

closed-NeverTrips :
    (b : Breaker) (st : State) (success : Bool) (now : ℕ)
    → st ≡ state_closed
    → NeverTrips b
    → NeverTrips (if success then (on_success b st now, false) else on_failure b st now).0
unfolding on_success on_failure
closed-NeverTrips b state_closed true now e h = h
closed-NeverTrips b state_closed false now e h = ground (arith, h)
closed-NeverTrips b state_open success now e h = absurd (ground arith)
closed-NeverTrips b state_half_open success now e h = absurd (ground arith)

after_request-NeverTrips :
    (b : Breaker) (g : ℕ) (success : Bool) (now : ℕ)
    → NeverTrips b
    → NeverTrips (after_request b g success now).0
unfolding after_request
after_request-NeverTrips b g success now h =
    let b' = current_state b now in
    let k = current_state-NeverTrips b now h in
    if_elim (λ (r : Breaker × Bool). NeverTrips r.0) (not (eqb b'.generation g)) (λ _. k)
      (λ _. closed-NeverTrips b' b'.state success now k.0 k)

admit-NeverTrips :
    (st : State) (b : Breaker)
    → st ≡ state_closed
    → NeverTrips b
    → NeverTrips (admit st b).0 × ((admit st b).2 ≡ none)
admit-NeverTrips state_closed b e h = (h, refl)
admit-NeverTrips state_open b e h = absurd (ground arith)
admit-NeverTrips state_half_open b e h = absurd (ground arith)

before_request-NeverTrips :
    (b : Breaker) (now : ℕ)
    → NeverTrips b
    → NeverTrips (before_request b now).0 × ((before_request b now).2 ≡ none)
unfolding before_request
before_request-NeverTrips b now h =
    let k = current_state-NeverTrips b now h in
    admit-NeverTrips (current_state b now).state (current_state b now) k.0 k

step-NeverTrips : (s : System) (e : Event) → NeverTrips s.breaker → NeverTrips (step s e).breaker
unfolding step report
step-NeverTrips s (begins now) h = (before_request-NeverTrips s.breaker now h).0
step-NeverTrips s (ends g success now again) h =
    let made = after_request s.breaker g success now in
    let first = after_request-NeverTrips s.breaker g success now h in
    if_elim (λ (s' : System). NeverTrips s'.breaker) (eqb (count g s.in_flight) 0) (λ _. h)
      (λ _.
        if_elim NeverTrips made.1 (λ _. after_request-NeverTrips made.0 g false again first)
          (λ _. first))

run-NeverTrips :
    (s : System) (es : List Event) → NeverTrips s.breaker → NeverTrips (run s es).breaker
unfolding run
run-NeverTrips s [] h = h
run-NeverTrips s (e ∷ es) h = run-NeverTrips (step s e) es (step-NeverTrips s e h)

-- The breaker that `NewCircuitBreaker` makes.
pub new-Inv :
    (config : Config) (now : ℕ) → config.max_requests < 4294967296 → Inv (new config now) []
unfolding new
new-Inv config now h = ground arith

half_open_busy :
    (b : Breaker) (hs : List ℕ) (now : ℕ)
    → Inv b hs
    → (before_request b now).2 ≡ some too_many_requests
    → 0 < count (before_request b now).1 hs
unfolding before_request current_state
half_open_busy b hs now v r = ground arith

-- After any events on a new breaker, too few for the 64-bit generation to wrap, a request that is
-- refused as one too many finds a request of the same generation in flight: a half-open breaker
-- whose probes have all reported admits.
pub refused_while_probing :
    (config : Config) (start : ℕ) (es : List Event) (now : ℕ)
    → config.max_requests < 4294967296
    → 2 * length es + 1 < 18446744073709551616
    → let s = run (record { breaker = new config start; in_flight = [] }) es in
      (before_request s.breaker now).2 ≡ some too_many_requests
      → 0 < count (before_request s.breaker now).1 s.in_flight
unfolding new
refused_while_probing config start es now h w r = elim (Option-cases config.ready_to_trip) [
  | inl never ↦
      let s = run (record { breaker = new config start; in_flight = [] }) es in
      let admits =
        (before_request-NeverTrips s.breaker now (
          run-NeverTrips (record { breaker = new config start; in_flight = [] }) es
            (refl, never))).1 in
      none-absurd (sym admits ∙ r)
  | inr (trip, set) ↦
      half_open_busy _ _ now
        (run-Inv (record { breaker = new config start; in_flight = [] }) es trip set (omega arith)
          (new-Inv config start h))
        r
]
