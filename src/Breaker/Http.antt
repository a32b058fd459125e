-- ===== src/Breaker/Http.antt =====
-- The HTTP middleware: the breaker does not learn what status a handler writes.
use golang_gin_rpc.Base.{
  ◌≤◌, ◌≡◌, Bool, true, false, Option, none, some, arith, String, lookup, string_eq,
  lookup-insert_self,
}
use golang_gin_rpc.Breaker.{Err, Breaker, current_state, before_request, on_success, after_request}
use golang_gin_rpc.Breaker.Execute.{returned, Clock, execute, Group, group_execute, wrap}

execute_nil_error :
    (b : Breaker) (clock : Clock) (success : Option Err → Bool)
    → b.is_successful ≡ some success
    → success none ≡ true
    → (execute {A = Unit {0}} b clock (λ b. b) (returned none none)).0.counts.total_failures
      ≤ b.counts.total_failures
unfolding execute before_request after_request current_state on_success
execute_nil_error b clock success s t = ground arith

-- Whatever status a handler answers with, a call of `Wrap` counts no failure, as long as the
-- handler does not panic and the configured rule takes a nil error for a success: the failures
-- that the breaker of that name has counted do not grow.
pub wrap_counts_no_failure :
    (g : Group) (name : String) (clock : Clock) (b : Breaker) (success : Option Err → Bool)
    → lookup name g ≡ some b
    → b.is_successful ≡ some success
    → success none ≡ true
    → (b' : Breaker) × (lookup name (wrap g name clock (λ b. b) false).0 ≡ some b')
      × (b'.counts.total_failures ≤ b.counts.total_failures)
unfolding wrap group_execute
wrap_counts_no_failure g name clock b success e s t =
    let b' = (execute {A = Unit {0}} b clock (λ b. b) (returned none none)).0 in
    (
      b',
      rw (e, group_execute) (lookup-insert_self name b' g),
      execute_nil_error b clock success s t,
    )
