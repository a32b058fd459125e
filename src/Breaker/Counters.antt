-- ===== src/Breaker/Counters.antt =====
-- What each operation keeps of the account of the requests in flight.
use golang_gin_rpc.Base.{
  ℕ, ◌+◌, ◌≤◌, ◌<◌, ◌≡◌, refl, Bool, true, false, List, arith, eqb, eqb_iff, Bool-cases, inl, inr,
  subst, u32, u64, if◌then◌else◌,
}
use golang_gin_rpc.Breaker.{
  State, state_closed, state_open, state_half_open, Breaker, no_counts, admit, current_state,
  before_request, on_success, on_failure, after_request,
}
use golang_gin_rpc.Breaker.System.{
  count, remove, joined, count_above, count-remove_self, count-remove_ne, newest, newest-remove,
}

-- The counters account for every request of the current generation, the requests in flight
-- carry no later generation, and the half-open state admits a bounded number of probes.
pub record Inv (b : Breaker) (in_flight : List ℕ) : Type 0 where
  pub limit_pos : 1 ≤ b.max_requests
  pub limit_word : b.max_requests < 4294967296
  pub past : newest in_flight ≤ b.generation
  pub accounted :
      b.counts.requests
      ≡ u32 (b.counts.total_successes + b.counts.total_failures + count b.generation in_flight)
  pub in_open : b.state ≡ state_open → count b.generation in_flight ≡ 0
  pub bounded : b.state ≡ state_half_open → b.counts.requests ≤ b.max_requests
  pub in_half_open :
      b.state ≡ state_half_open
      → (b.counts.total_failures ≡ 0)
        × (b.counts.consecutive_successes ≡ b.counts.total_successes)
        × (b.counts.total_successes < b.max_requests)
        × (b.counts.total_successes + count b.generation in_flight ≤ b.max_requests)

-- A new generation starts with no request of its own.
pub new_generation-Inv :
    (b : Breaker) (hs : List ℕ) (g : ℕ)
    → 1 ≤ b.max_requests
    → b.max_requests < 4294967296
    → g + 1 < 18446744073709551616
    → newest hs ≤ g
    → b.generation ≡ u64 (g + 1)
    → b.counts ≡ no_counts
    → Inv b hs
new_generation-Inv b hs g p q w a e c = ground (arith, count_above b.generation hs)

-- Reading the state may start a generation, and keeps the accounts.
pub current_state-Inv :
    (b : Breaker) (hs : List ℕ) (now : ℕ)
    → b.generation + 1 < 18446744073709551616
    → Inv b hs
    → Inv (current_state b now) hs
unfolding current_state
current_state-Inv b hs now w v =
    ground (arith, new_generation-Inv (current_state b now) hs b.generation)

pub current_state-generation :
    (b : Breaker) (now : ℕ)
    → b.generation + 1 < 18446744073709551616
    → (current_state b now).generation ≤ b.generation + 1
unfolding current_state
current_state-generation b now w = ground arith

pub admit-Inv :
    (st : State) (b : Breaker) (hs : List ℕ)
    → b.state ≡ st
    → Inv b hs
    → Inv (admit st b).0 (joined hs (admit st b).1 (admit st b).2)
admit-Inv state_closed b hs e v = ground arith
admit-Inv state_open b hs e v = ground arith
admit-Inv state_half_open b hs e v = ground arith

pub before_request-Inv :
    (b : Breaker) (hs : List ℕ) (now : ℕ)
    → b.generation + 1 < 18446744073709551616
    → Inv b hs
    → let (b', g, err) = before_request b now in Inv b' (joined hs g err)
unfolding before_request
before_request-Inv b hs now w v =
    admit-Inv (current_state b now).state (current_state b now) hs refl
      (current_state-Inv b hs now w v)

-- A result that is reported under an old generation.
pub stale-Inv :
    (b : Breaker) (hs : List ℕ) (g : ℕ)
    → eqb b.generation g ≡ false
    → Inv b hs
    → Inv b (remove g hs)
stale-Inv b hs g e v = ground (arith, newest-remove g hs, count-remove_ne g b.generation hs)

pub on_success-Inv :
    (b : Breaker) (hs : List ℕ) (st : State) (now : ℕ)
    → b.state ≡ st
    → b.generation + 1 < 18446744073709551616
    → 0 < count b.generation hs
    → Inv b hs
    → Inv (on_success b st now) (remove b.generation hs)
unfolding on_success
on_success-Inv b hs state_closed now e w c v =
    ground (arith, newest-remove b.generation hs, count-remove_self b.generation hs)
on_success-Inv b hs state_open now e w c v = absurd (omega (arith, v.in_open e))
on_success-Inv b hs state_half_open now e w c v = ground (
  arith,
  newest-remove b.generation hs,
  count-remove_self b.generation hs,
  new_generation-Inv (on_success b state_half_open now) (remove b.generation hs) b.generation,
)

pub on_failure-Inv :
    (b : Breaker) (hs : List ℕ) (st : State) (now : ℕ)
    → b.state ≡ st
    → b.generation + 1 < 18446744073709551616
    → 0 < count b.generation hs
    → Inv b hs
    → Inv (on_failure b st now).0 (remove b.generation hs)
unfolding on_failure
on_failure-Inv b hs state_closed now e w c v = ground (
  arith,
  newest-remove b.generation hs,
  count-remove_self b.generation hs,
  new_generation-Inv (on_failure b state_closed now).0 (remove b.generation hs) b.generation,
)
on_failure-Inv b hs state_open now e w c v = absurd (omega (arith, v.in_open e))
on_failure-Inv b hs state_half_open now e w c v = ground (
  arith,
  newest-remove b.generation hs,
  new_generation-Inv (on_failure b state_half_open now).0 (remove b.generation hs) b.generation,
)

pub report-Inv :
    (b : Breaker) (hs : List ℕ) (success : Bool) (now : ℕ)
    → b.generation + 1 < 18446744073709551616
    → 0 < count b.generation hs
    → Inv b hs
    → Inv
        (if success then (on_success b b.state now, false) else on_failure b b.state now).0
        (remove b.generation hs)
report-Inv b hs true now w c v = on_success-Inv b hs b.state now refl w c v
report-Inv b hs false now w c v = on_failure-Inv b hs b.state now refl w c v

-- `afterRequest` reports a request that is in flight.
pub after_request-Inv :
    (b : Breaker) (hs : List ℕ) (g : ℕ) (success : Bool) (now : ℕ)
    → b.generation + 2 < 18446744073709551616
    → 0 < count g hs
    → Inv b hs
    → Inv (after_request b g success now).0 (remove g hs)
unfolding after_request
after_request-Inv b hs g success now w c v = elim (Bool-cases (eqb b'.generation g)) [
  | inl e ↦ rw e (
      subst
        (λ k.
          Inv
            (if success then (on_success b' b'.state now, false) else on_failure b' b'.state now).0
            (remove k hs))
        ((eqb_iff _ g).0 e)
        (report-Inv b' hs success now (omega (arith, current_state-generation b now))
          (rw ((eqb_iff _ g).0 e) c) v'))
  | inr e ↦ rw e (stale-Inv b' hs g e v')
]
  where
    b' : Breaker
    b' = current_state b now

    v' : Inv b' hs
    v' = current_state-Inv b hs now (omega arith) v
