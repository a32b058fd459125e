-- ===== src/DbBreaker/Recovery.antt =====
-- How the database breaker opens, probes and recovers, and where it does not.
use golang_gin_rpc.Base.{
  ℕ, ◌+◌, ◌-◌, ◌≤◌, ◌<◌, ◌≡◌, ◌↔◌, Option, none, some, List, [], ◌∷◌, arith, length,
}
use golang_gin_rpc.DbBreaker.{
  state_closed, state_open, state_half_open, Err, open_error, Breaker, can_execute, record_result,
  execute,
}

-- An open breaker admits a request exactly when the timeout has passed since the time it noted.
pub open_admits_iff :
    (b : Breaker) (now : ℕ)
    → b.state ≡ state_open
    → (((can_execute b now).1 ≡ none) ↔ (b.config.reset_timeout ≤ now - b.last_failure_time))
      × ((can_execute b now).1 ≡ some open_error → (can_execute b now).0 ≡ b)
unfolding can_execute
open_admits_iff b now e = ground arith

-- A failure that brings the failures in a row of a closed breaker to the limit opens it, and every
-- request within the timeout after that failure is refused, as long as the 32-bit counter cannot
-- wrap.
pub trips_and_waits :
    (b : Breaker) (err : Err) (now later : ℕ)
    → b.state ≡ state_closed
    → b.failures + 1 < 4294967296
    → b.config.max_failures ≤ b.failures + 1
    → now ≤ later
    → later < now + b.config.reset_timeout
    → let b' = record_result b (some err) now in
      (b'.state ≡ state_open) × ((can_execute b' later).1 ≡ some open_error)
unfolding record_result can_execute
trips_and_waits b err now later e w f h l = ground arith

-- A failure of a half-open breaker, at a time when the timeout has passed since the last failure
-- that it noted, opens it again without noting the time, so that the next request is admitted at
-- once instead of after the timeout.
pub relapse_does_not_wait :
    (b : Breaker) (err : Err) (now later : ℕ)
    → b.state ≡ state_half_open
    → b.config.reset_timeout ≤ now - b.last_failure_time
    → now ≤ later
    → let b' = record_result b (some err) now in
      (b'.state ≡ state_open)
      × ((can_execute b' later).1 ≡ none)
      × ((can_execute b' later).0.state ≡ state_half_open)
unfolding record_result can_execute
relapse_does_not_wait b err now later e h l = ground arith

-- Requests one after another that all succeed, each with its clock.
pub successes : Breaker → List (ℕ × ℕ) → Breaker
successes b [] = b
successes b ((starts, ends) ∷ rest) = successes (execute b starts ends (λ b. b) none).0 rest

-- A half-open breaker in the middle of its probes: all of them have succeeded.
record Probing (b : Breaker) : Type 0 where
  half : b.state ≡ state_half_open
  counted : b.successes ≡ b.requests + 1
  within : b.requests ≤ b.config.half_open_max_requests
  word : b.config.half_open_max_requests + 1 < 4294967296

first_success :
    (b : Breaker) (starts ends : ℕ)
    → b.state ≡ state_open
    → b.config.reset_timeout ≤ starts - b.last_failure_time
    → b.config.half_open_max_requests + 1 < 4294967296
    → let b' = (execute b starts ends (λ b. b) none).0 in
      (b'.config ≡ b.config)
      × (b.config.success_threshold ≤ 1 → b'.state ≡ state_closed)
      × (1 < b.config.success_threshold → Probing b' × (b'.requests ≡ 0))
unfolding execute
first_success b starts ends e h w = ground arith

next_success :
    (b : Breaker) (starts ends : ℕ)
    → Probing b
    → b.requests < b.config.half_open_max_requests
    → let b' = (execute b starts ends (λ b. b) none).0 in
      (b'.config ≡ b.config)
      × (b.config.success_threshold ≤ b.successes + 1 → b'.state ≡ state_closed)
      × (b.successes + 1 < b.config.success_threshold → Probing b' × (b'.requests ≡ b.requests + 1))
unfolding execute
next_success b starts ends v l = ground arith

no_more :
    (b : Breaker) (starts ends : ℕ) (during : Breaker → Breaker) (fn : Option Err)
    → Probing b
    → b.requests ≡ b.config.half_open_max_requests
    → execute b starts ends during fn ≡ (b, some open_error)
unfolding execute
no_more b starts ends during fn v l = ground arith

probes_stay :
    (b : Breaker) (rest : List (ℕ × ℕ))
    → Probing b
    → b.config.half_open_max_requests + 1 < b.config.success_threshold
    → b.requests + length rest ≡ b.config.half_open_max_requests
    → Probing (successes b rest)
      × ((successes b rest).requests ≡ (successes b rest).config.half_open_max_requests)
unfolding successes
probes_stay b [] v t n = ground arith
probes_stay b ((s, e) ∷ rest) v t n =
    let b' = (execute b s e (λ b. b) none).0 in
    let (c, _, more) = next_success b s e v (omega arith) in
    let (v', r') = more (omega (arith, v)) in
    probes_stay b' rest v' (rw c t) (rw (r', c) (omega arith))

probes_close :
    (b : Breaker) (rest : List (ℕ × ℕ))
    → Probing b
    → b.successes < b.config.success_threshold
    → b.config.success_threshold ≤ b.config.half_open_max_requests + 1
    → b.successes + length rest ≡ b.config.success_threshold
    → (successes b rest).state ≡ state_closed
unfolding successes
probes_close b [] v l t n = absurd (omega arith)
probes_close b ((s, e) ∷ []) v l t n = (next_success b s e v (omega (arith, v))).1 (omega arith)
probes_close b ((s, e) ∷ p ∷ rest) v l t n =
    let b' = (execute b s e (λ b. b) none).0 in
    let (c, _, more) = next_success b s e v (omega (arith, v)) in
    let (v', r') = more (omega arith) in
    probes_close b' (p ∷ rest) v' (rw c (omega (arith, v', v))) (rw c t)
      (rw c (omega (arith, v', v)))

-- When the timeout of an open breaker has passed and its success threshold is at most one more
-- than the requests that the half-open state lets through, as many successful requests one after
-- another as the threshold close it, as long as the 32-bit counter cannot wrap.
pub successes_close :
    (b : Breaker) (s e : ℕ) (rest : List (ℕ × ℕ))
    → b.state ≡ state_open
    → b.config.reset_timeout ≤ s - b.last_failure_time
    → b.config.half_open_max_requests + 1 < 4294967296
    → b.config.success_threshold ≤ b.config.half_open_max_requests + 1
    → length ((s, e) ∷ rest) ≡ b.config.success_threshold
    → (successes b ((s, e) ∷ rest)).state ≡ state_closed
unfolding successes
successes_close b s e [] o h w t n = (first_success b s e o h w).1 (omega arith)
successes_close b s e (p ∷ rest) o h w t n =
    let b' = (execute b s e (λ b. b) none).0 in
    let (c, _, more) = first_success b s e o h w in
    let (v', r') = more (omega arith) in
    probes_close b' (p ∷ rest) v' (rw c (omega (arith, v'))) (rw c t) (rw c (omega (arith, v')))

-- When the success threshold is larger than one more than the requests that the half-open state
-- lets through, an open breaker does not recover by itself: once its timeout has passed and the
-- probes that it admits have all succeeded, it is half-open and refuses the next request, whatever
-- the time, as long as the 32-bit counter cannot wrap.
pub recovery_stuck :
    (b : Breaker) (s e : ℕ) (rest : List (ℕ × ℕ))
    → b.state ≡ state_open
    → b.config.reset_timeout ≤ s - b.last_failure_time
    → b.config.half_open_max_requests + 1 < 4294967296
    → b.config.half_open_max_requests + 1 < b.config.success_threshold
    → length rest ≡ b.config.half_open_max_requests
    → let b' = successes b ((s, e) ∷ rest) in
      (b'.state ≡ state_half_open)
      × ((starts ends : ℕ) (during : Breaker → Breaker) (fn : Option Err)
          → execute b' starts ends during fn ≡ (b', some open_error))
unfolding successes
recovery_stuck b s e rest o h w t n =
    let (c, _, more) = first_success b s e o h w in
    let (v, r) = more (omega arith) in
    let (v', r') =
      probes_stay (execute b s e (λ b. b) none).0 rest v (rw c t) (rw (r, c) (omega arith)) in
    (v'.half, λ starts ends during fn. no_more _ starts ends during fn v' r')
