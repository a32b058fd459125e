-- ===== src/Breaker/Tests.antt =====
-- The breaker on concrete inputs.
use golang_gin_rpc.Base.{◌<◌, ◌≡◌, refl, false, ltb, List, [], ◌∷◌, arith, string_eq}
use golang_gin_rpc.Breaker.{
  state_half_open, default_config, new, before_request, after_request, current_state, on_failure,
}
use golang_gin_rpc.Breaker.System.{System, Event, begins, ends, report, step, run, count}
use golang_gin_rpc.Breaker.Accounting.{SystemInv, new-Inv, run-Inv, refused_while_probing}
use golang_gin_rpc.Breaker.Transitions.{Trail, callback_trail}

abbrev fresh : System
fresh = record { breaker = new default_config 0; in_flight = [] }

-- Six requests fail, and after the timeout a probe begins and does not report.
abbrev story : List Event
story =
    begins 1
    ∷ ends 1 false 1 1
    ∷ begins 2
    ∷ ends 1 false 2 2
    ∷ begins 3
    ∷ ends 1 false 3 3
    ∷ begins 4
    ∷ ends 1 false 4 4
    ∷ begins 5
    ∷ ends 1 false 5 5
    ∷ begins 6
    ∷ ends 1 false 6 6
    ∷ begins 60000000007
    ∷ []

story_probes : (run fresh story).breaker.state ≡ state_half_open
unfolding run step report new before_request after_request current_state on_failure
story_probes = refl

run-Inv_example : SystemInv (run fresh story)
unfolding new
run-Inv_example =
    run-Inv fresh story (λ counts. ltb 5 counts.consecutive_failures) refl (omega arith)
      (new-Inv default_config 0 (omega arith))

refused_while_probing_example :
    0 < count (before_request (run fresh story).breaker 60000000008).1 (run fresh story).in_flight
unfolding run step report new before_request after_request current_state on_failure
refused_while_probing_example =
    refused_while_probing default_config 0 story 60000000008 (omega arith) (omega arith) refl

callback_trail_example : Trail (run fresh story).breaker.state (run fresh story).breaker.notified
callback_trail_example = callback_trail default_config 0 story refl
