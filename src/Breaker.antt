-- ===== src/Breaker.antt =====
-- plugins/circuitbreaker/circuitbreaker.go. Times and durations are nanoseconds; the zero
-- `time.Time` is 0. Each reading of the clock is an argument. A nil callback is `none`.
pub mod System
pub mod Counters
pub mod Accounting
pub mod Recovery
mod Tests
pub mod Transitions
pub mod Execute
pub mod Http
use golang_gin_rpc.Base.{
  ℕ, ◌+◌, Bool, true, false, ◌&&◌, not, Option, none, some, List, [], ◌∷◌, ltb, leb, eqb, u32, u64,
  if◌then◌else◌,
}
use golang_gin_rpc.Base.Int.{ℤ, positive_or}

pub data State : Type 0 where
  state_closed state_open state_half_open : State

abbrev pub same_state : State → State → Bool
same_state state_closed state_closed = true
same_state state_open state_open = true
same_state state_half_open state_half_open = true
same_state _ _ = false

-- `other` is an error of the caller's own function.
pub data Err : Type 0 where
  circuit_breaker_open too_many_requests : Err
  other : ℕ → Err

pub record Counts : Type 0 where
  pub requests : ℕ
  pub total_successes : ℕ
  pub total_failures : ℕ
  pub consecutive_successes : ℕ
  pub consecutive_failures : ℕ

abbrev pub no_counts : Counts
no_counts = record {
  requests = 0;
  total_successes = 0;
  total_failures = 0;
  consecutive_successes = 0;
  consecutive_failures = 0;
}

-- `on_state_change` says whether the callback is set; `Breaker.notified` holds its calls.
pub record Config : Type 0 where
  pub max_requests : ℕ
  pub interval : ℤ
  pub timeout : ℤ
  pub ready_to_trip : Option (Counts → Bool)
  pub on_state_change : Bool
  pub is_successful : Option (Option Err → Bool)
  pub fallback : Option (Err → Option Err)

abbrev pub minute : ℕ
minute = 60000000000

pub record Breaker : Type 0 where
  pub max_requests : ℕ
  pub interval : ℕ
  pub timeout : ℕ
  pub ready_to_trip : Option (Counts → Bool)
  pub on_state_change : Bool
  pub is_successful : Option (Option Err → Bool)
  pub fallback : Option (Err → Option Err)
  pub state : State
  pub generation : ℕ
  pub counts : Counts
  pub expiry : ℕ
  pub notified : List (State × State)

-- The expiry that the `switch` of `toNewGeneration` sets.
abbrev expiry_of : State → Breaker → ℕ → ℕ
expiry_of state_closed b now = if eqb b.interval 0 then 0 else now + b.interval
expiry_of state_open b now = now + b.timeout
expiry_of state_half_open b now = 0

unfoldable pub to_new_generation : Breaker → ℕ → Breaker
to_new_generation b now = record b {
  generation = u64 (b.generation + 1);
  counts = no_counts;
  expiry = expiry_of b.state b now;
}

unfoldable pub set_state : Breaker → State → ℕ → Breaker
unfolding to_new_generation
set_state b state now =
    if same_state b.state state
    then b
    else let b' = to_new_generation (record b { state = state }) now in
      if b.on_state_change then record b' { notified = (b.state, state) ∷ b.notified } else b'

current_state_at : State → Breaker → ℕ → Breaker
unfolding set_state to_new_generation
current_state_at state_closed b now =
    if not (eqb b.expiry 0) && ltb b.expiry now then to_new_generation b now else b
current_state_at state_open b now = if ltb b.expiry now then set_state b state_half_open now else b
current_state_at state_half_open b now = b

-- The state and the generation that the code returns are those of the new breaker.
unfoldable pub current_state : Breaker → ℕ → Breaker
unfolding current_state_at
current_state b now = current_state_at b.state b now

abbrev pub admit : State → Breaker → Breaker × ℕ × Option Err
admit state_open b = (b, b.generation, some circuit_breaker_open)
admit state_half_open b =
    if leb b.max_requests b.counts.requests then (b, b.generation, some too_many_requests) else (
      record b { counts = record (b.counts) { requests = u32 (b.counts.requests + 1) } },
      b.generation,
      none,
    )
admit state_closed b = (
  record b { counts = record (b.counts) { requests = u32 (b.counts.requests + 1) } },
  b.generation,
  none,
)

unfoldable pub before_request : Breaker → ℕ → Breaker × ℕ × Option Err
before_request b now = let b' = current_state b now in admit b'.state b'

abbrev pub count_success : Counts → Counts
count_success c = record c {
  total_successes = u32 (c.total_successes + 1);
  consecutive_successes = u32 (c.consecutive_successes + 1);
  consecutive_failures = 0;
}

abbrev pub count_failure : Counts → Counts
count_failure c = record c {
  total_failures = u32 (c.total_failures + 1);
  consecutive_failures = u32 (c.consecutive_failures + 1);
  consecutive_successes = 0;
}

unfoldable pub on_success : Breaker → State → ℕ → Breaker
unfolding set_state
on_success b state_closed now = record b { counts = count_success b.counts }
on_success b state_open now = record b { counts = count_success b.counts }
on_success b state_half_open now =
    let b' = record b { counts = count_success b.counts } in
    if leb b.max_requests b'.counts.consecutive_successes then set_state b' state_closed now else b'

-- The flag says that the call of a nil `readyToTrip` panicked, with the counts already written.
unfoldable pub on_failure : Breaker → State → ℕ → Breaker × Bool
unfolding set_state
on_failure b state_closed now =
    let b' = record b { counts = count_failure b.counts } in
    elim b.ready_to_trip [
      | none ↦ (b', true)
      | some trip ↦ (if trip b'.counts then set_state b' state_open now else b', false)
    ]
on_failure b state_open now = (record b { counts = count_failure b.counts }, false)
on_failure b state_half_open now =
    (set_state (record b { counts = count_failure b.counts }) state_open now, false)

-- The flag is that of `on_failure`.
unfoldable pub after_request : Breaker → ℕ → Bool → ℕ → Breaker × Bool
after_request b before success now =
    let b' = current_state b now in
    if not (eqb b'.generation before)
    then (b', false)
    else if success
    then (on_success b' b'.state now, false)
    else on_failure b' b'.state now

unfoldable pub new : Config → ℕ → Breaker
unfolding to_new_generation
new config now =
    to_new_generation
      (record {
        max_requests = if eqb config.max_requests 0 then 1 else config.max_requests;
        interval = positive_or config.interval minute;
        timeout = positive_or config.timeout minute;
        ready_to_trip = config.ready_to_trip;
        on_state_change = config.on_state_change;
        is_successful = config.is_successful;
        fallback = config.fallback;
        state = state_closed;
        generation = 0;
        counts = no_counts;
        expiry = 0;
        notified = [];
      })
      now

-- `DefaultConfig`.
abbrev pub default_config : Config
default_config = record {
  max_requests = 1;
  interval = ℤ.pos minute;
  timeout = ℤ.pos minute;
  ready_to_trip = some (λ counts. ltb 5 counts.consecutive_failures);
  on_state_change = true;
  is_successful = some (elim [ none ↦ true | some _ ↦ false ]);
  fallback = none;
}
