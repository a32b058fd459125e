-- ===== src/DbBreaker.antt =====
-- plugins/db/circuitbreaker/breaker.go. Times are nanoseconds since 1970, and each reading of the
-- clock is an argument. One atomic operation follows another: a method runs without interruption.
pub mod Recovery
mod Tests
use golang_gin_rpc.Base.{
  ℕ, ◌+◌, ◌-◌, Bool, true, false, ◌||◌, Option, none, some, ltb, leb, eqb, u32, if◌then◌else◌,
}

pub data State : Type 0 where
  state_closed state_open state_half_open : State

pub data Err : Type 0 where
  open_error : Err
  other : ℕ → Err

pub record Config : Type 0 where
  pub max_failures : ℕ
  pub reset_timeout : ℕ
  pub half_open_max_requests : ℕ
  pub success_threshold : ℕ

abbrev pub default_config : Config
default_config = record {
  max_failures = 5;
  reset_timeout = 30000000000;
  half_open_max_requests = 3;
  success_threshold = 2;
}

pub record Breaker : Type 0 where
  pub config : Config
  pub state : State
  pub failures : ℕ
  pub successes : ℕ
  pub requests : ℕ
  pub last_failure_time : ℕ

abbrev or_default : ℕ → ℕ → ℕ
or_default n d = if eqb n 0 then d else n

unfoldable pub new : Config → Breaker
new config = record {
  config = record {
    max_failures = or_default config.max_failures default_config.max_failures;
    reset_timeout = or_default config.reset_timeout default_config.reset_timeout;
    half_open_max_requests =
        or_default config.half_open_max_requests default_config.half_open_max_requests;
    success_threshold = or_default config.success_threshold default_config.success_threshold;
  };
  state = state_closed;
  failures = 0;
  successes = 0;
  requests = 0;
  last_failure_time = 0;
}

-- The flag is what the compare-and-swap returns.
to_open_from : State → Breaker → ℕ → Breaker × Bool
to_open_from state_closed b now =
    (record b { state = state_open; last_failure_time = now; failures = 0 }, true)
to_open_from state_half_open b now = (record b { state = state_open }, true)
to_open_from state_open b now = (b, false)

unfoldable pub to_open : Breaker → ℕ → Breaker × Bool
unfolding to_open_from
to_open b now = to_open_from b.state b now

to_half_open_from : State → Breaker → Breaker × Bool
to_half_open_from state_open b =
    (record b { state = state_half_open; successes = 0; requests = 0 }, true)
to_half_open_from _ b = (b, false)

unfoldable pub to_half_open : Breaker → Breaker × Bool
unfolding to_half_open_from
to_half_open b = to_half_open_from b.state b

to_closed_from : State → Breaker → Breaker × Bool
to_closed_from state_half_open b =
    (record b { state = state_closed; failures = 0; successes = 0; requests = 0 }, true)
to_closed_from _ b = (b, false)

unfoldable pub to_closed : Breaker → Breaker × Bool
unfolding to_closed_from
to_closed b = to_closed_from b.state b

abbrev is_half_open : State → Bool
is_half_open state_half_open = true
is_half_open _ = false

try_half_open : Breaker → Breaker × Option Err
unfolding to_half_open
try_half_open b =
    let (b', moved) = to_half_open b in
    if moved || is_half_open b'.state then (b', none) else (b', some open_error)

can_execute_at : State → Breaker → ℕ → Breaker × Option Err
unfolding try_half_open
can_execute_at state_closed b now = (b, none)
can_execute_at state_open b now =
    if leb b.config.reset_timeout (now - b.last_failure_time)
    then try_half_open b
    else (b, some open_error)
-- `atomic.AddUint32(&cb.requests, ^uint32(0))` takes the addition back.
can_execute_at state_half_open b now =
    let requests = u32 (b.requests + 1) in
    if ltb b.config.half_open_max_requests requests
    then (record b { requests = u32 (requests + 4294967295) }, some open_error)
    else (record b { requests = requests }, none)

unfoldable pub can_execute : Breaker → ℕ → Breaker × Option Err
unfolding can_execute_at
can_execute b now = can_execute_at b.state b now

unfoldable pub on_failure : Breaker → State → ℕ → Breaker
unfolding to_open
on_failure b state_closed now =
    let failures = u32 (b.failures + 1) in
    let b' = record b { failures = failures } in
    if leb b.config.max_failures failures then (to_open b' now).0 else b'
on_failure b state_half_open now = (to_open b now).0
on_failure b state_open now = b

unfoldable pub on_success : Breaker → State → Breaker
unfolding to_closed
on_success b state_closed = record b { failures = 0 }
on_success b state_half_open =
    let successes = u32 (b.successes + 1) in
    let b' = record b { successes = successes } in
    if leb b.config.success_threshold successes then (to_closed b').0 else b'
on_success b state_open = b

unfoldable pub record_result : Breaker → Option Err → ℕ → Breaker
unfolding on_failure on_success
record_result b (some err) now = on_failure b b.state now
record_result b none now = on_success b b.state

-- `Execute`: when it starts, when it ends, what other requests make of the breaker in between, and
-- what the caller's function returns.
unfoldable pub execute : Breaker → ℕ → ℕ → (Breaker → Breaker) → Option Err → Breaker × Option Err
unfolding can_execute record_result
execute b starts ends during fn =
    let (b', refusal) = can_execute b starts in
    elim refusal [ some err ↦ (b', some err) | none ↦ (record_result (during b') fn ends, fn) ]

unfoldable pub force_open : Breaker → ℕ → Breaker
force_open b now = record b { state = state_open; last_failure_time = now }

unfoldable pub force_closed : Breaker → Breaker
force_closed b = record b { state = state_closed; failures = 0; successes = 0; requests = 0 }
