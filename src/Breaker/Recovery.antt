-- ===== src/Breaker/Recovery.antt =====
-- An open breaker fails fast until its timeout; enough probes close it; failures trip it.
use golang_gin_rpc.Base.{
  ℕ, ◌+◌, ◌≤◌, ◌<◌, ◌≡◌, ◌↔◌, Bool, true, false, Option, none, some, arith, ltb, List, [], ◌∷◌,
  length, All, ◌∙◌, ap, sym, subst,
}
use golang_gin_rpc.Breaker.{
  state_closed, state_open, state_half_open, Err, circuit_breaker_open, Breaker, set_state,
  current_state, before_request, on_success, on_failure, after_request,
}
use golang_gin_rpc.Breaker.Execute.{Outcome, returned, Clock, execute, fall_back}

-- Until its expiry has passed an open breaker answers every request by itself, with the error or
-- the fallback, whatever the caller's function would do, and does not change.
pub open_fails_fast :
    {A : Type 0} (b : Breaker) (clock : Clock) (during : Breaker → Breaker) (fn : Outcome A)
    → b.state ≡ state_open
    → clock.starts ≤ b.expiry
    → execute b clock during fn ≡ (b, fall_back b.fallback circuit_breaker_open)
unfolding execute before_request current_state
open_fails_fast b clock during fn e h = ground arith

-- An open breaker admits a request exactly when its expiry has passed, and is half-open then.
pub open_admits_iff :
    (b : Breaker) (now : ℕ)
    → b.state ≡ state_open
    → 1 ≤ b.max_requests
    → (((before_request b now).2 ≡ none) ↔ (b.expiry < now))
      × (b.expiry < now → (before_request b now).0.state ≡ state_half_open)
unfolding before_request current_state
open_admits_iff b now e h = ground arith

-- A failure of the present generation that finds the breaker half-open opens it, and until another
-- full timeout has passed every request is refused.
pub relapse_waits :
    (b : Breaker) (now later : ℕ)
    → b.state ≡ state_half_open
    → later ≤ now + b.timeout
    → let b' = (after_request b b.generation false now).0 in
      (b'.state ≡ state_open) × ((before_request b' later).2 ≡ some circuit_breaker_open)
unfolding after_request before_request current_state on_failure
relapse_waits b now later e h = ground arith

-- Requests one after another, each with its clock, that all end in the same way.
pub repeated : Breaker → List Clock → Option Err → Breaker
repeated b [] err = b
repeated b (c ∷ cs) err =
    repeated (execute {A = Unit {0}} b c (λ b. b) (returned none err)).0 cs err

-- One probe that succeeds: the last one closes the breaker.
probe_success :
    (b : Breaker) (c : Clock) (success : Option Err → Bool)
    → b.state ≡ state_half_open
    → b.is_successful ≡ some success
    → success none ≡ true
    → b.counts.requests ≡ b.counts.consecutive_successes
    → b.counts.requests < b.max_requests
    → b.max_requests < 4294967296
    → let b' = (execute {A = Unit {0}} b c (λ b. b) (returned none none)).0 in
      (b.counts.requests + 1 ≡ b.max_requests → b'.state ≡ state_closed)
      × (b.counts.requests + 1 < b.max_requests
          → (b'.state ≡ state_half_open)
            × (b'.counts.requests ≡ b.counts.requests + 1)
            × (b'.counts.consecutive_successes ≡ b.counts.requests + 1)
            × (b'.max_requests ≡ b.max_requests)
            × (b'.is_successful ≡ b.is_successful))
unfolding execute before_request after_request current_state on_success
probe_success b c success e s t q l w = ground arith

probes_close :
    (b : Breaker) (cs : List Clock) (success : Option Err → Bool)
    → b.state ≡ state_half_open
    → b.is_successful ≡ some success
    → success none ≡ true
    → b.counts.requests ≡ b.counts.consecutive_successes
    → b.counts.requests < b.max_requests
    → b.max_requests < 4294967296
    → b.counts.requests + length cs ≡ b.max_requests
    → (repeated b cs none).state ≡ state_closed
unfolding repeated
probes_close b [] success e s t q l w n = absurd (omega arith)
probes_close b (c ∷ []) success e s t q l w n =
    (probe_success b c success e s t q l w).0 (omega arith)
probes_close b (c ∷ d ∷ cs) success e s t q l w n =
    let (e', q', q'', m', s') = (probe_success b c success e s t q l w).1 (omega arith) in
    probes_close (execute {A = Unit {0}} b c (λ b. b) (returned none none)).0 (d ∷ cs) success e'
      (s' ∙ s) t (omega arith) (omega arith) (omega arith) (omega arith)

first_probe :
    (b : Breaker) (c : Clock)
    → b.state ≡ state_open
    → b.expiry < c.starts
    → let b' = set_state b state_half_open c.starts in
      execute {A = Unit {0}} b c (λ b. b) (returned none none)
      ≡ execute b' c (λ b. b) (returned none none)
unfolding execute before_request current_state set_state
first_probe b c e h = ground arith

fresh_probe :
    (b : Breaker) (now : ℕ)
    → b.state ≡ state_open
    → let b' = set_state b state_half_open now in
      (b'.state ≡ state_half_open)
      × (b'.is_successful ≡ b.is_successful)
      × (b'.max_requests ≡ b.max_requests)
      × (b'.counts.requests ≡ 0)
      × (b'.counts.consecutive_successes ≡ 0)
unfolding set_state
fresh_probe b now e = ground arith

-- When the expiry of an open breaker has passed, as many successful requests one after another as
-- the half-open state admits close it, if the configured rule takes a nil error for a success.
pub probes_recover :
    (b : Breaker) (c : Clock) (cs : List Clock) (success : Option Err → Bool)
    → b.state ≡ state_open
    → b.expiry < c.starts
    → b.is_successful ≡ some success
    → success none ≡ true
    → b.max_requests < 4294967296
    → length (c ∷ cs) ≡ b.max_requests
    → (repeated b (c ∷ cs) none).state ≡ state_closed
unfolding repeated
probes_recover b c cs success e h s t w n =
    let (e', s', m', q', q'') = fresh_probe b c.starts e in
    ap (λ r. (repeated r.0 cs none).state) (first_probe b c e h)
    ∙ probes_close (set_state b state_half_open c.starts) (c ∷ cs) success e' (s' ∙ s) t
        (q' ∙ sym q'') (omega arith) (omega arith) (omega arith)

-- One failure of a closed breaker under the rule of `DefaultConfig`.
one_failure :
    (b : Breaker) (c : Clock) (err : Err) (success : Option Err → Bool)
    → b.state ≡ state_closed
    → b.ready_to_trip ≡ some (λ counts. ltb 5 counts.consecutive_failures)
    → b.is_successful ≡ some success
    → success (some err) ≡ false
    → c.starts ≤ b.expiry
    → c.ends ≤ b.expiry
    → b.counts.consecutive_failures < 6
    → let b' = (execute {A = Unit {0}} b c (λ b. b) (returned none (some err))).0 in
      (b.counts.consecutive_failures ≡ 5 → b'.state ≡ state_open)
      × (b.counts.consecutive_failures < 5
          → (b'.state ≡ state_closed)
            × (b'.counts.consecutive_failures ≡ b.counts.consecutive_failures + 1)
            × (b'.expiry ≡ b.expiry)
            × (b'.ready_to_trip ≡ b.ready_to_trip)
            × (b'.is_successful ≡ b.is_successful))
unfolding execute before_request after_request current_state on_failure
one_failure b c err success e r s t h h' l = ground arith

-- Every request begins and ends by a time.
abbrev pub Within : ℕ → List Clock → Type 0
Within t = All (λ (c : Clock). (c.starts ≤ t) × (c.ends ≤ t))

-- Under the rule of `DefaultConfig`, while the interval of a closed breaker lasts, requests that
-- fail one after another open it with the sixth failure in a row, and not before.
pub failures_trip :
    (b : Breaker) (cs : List Clock) (err : Err) (success : Option Err → Bool)
    → b.state ≡ state_closed
    → b.ready_to_trip ≡ some (λ counts. ltb 5 counts.consecutive_failures)
    → b.is_successful ≡ some success
    → success (some err) ≡ false
    → Within b.expiry cs
    → b.counts.consecutive_failures < 6
    → b.counts.consecutive_failures + length cs ≤ 6
    → ((repeated b cs (some err)).state ≡ state_open)
      ↔ (b.counts.consecutive_failures + length cs ≡ 6)
unfolding repeated
failures_trip b [] err success e r s t a l n = ground arith
failures_trip b (c ∷ []) err success e r s t a l n =
    ground (arith, one_failure b c err success e r s t a.0.0 a.0.1 l)
failures_trip b (c ∷ d ∷ cs) err success e r s t a l n =
    let (e', k', x', r', s') =
      (one_failure b c err success e r s t a.0.0 a.0.1 l).1 (omega arith) in
    let ih =
      failures_trip (execute {A = Unit {0}} b c (λ b. b) (returned none (some err))).0 (d ∷ cs) err
        success e' (r' ∙ r) (s' ∙ s) t (subst (λ x. Within x (d ∷ cs)) (sym x') a.1) (omega arith)
        (omega arith) in
    (λ p. omega (arith, ih.0 p), λ p. ih.1 (omega arith))
