-- ===== src/DbBreaker/Tests.antt =====
-- The database breaker on concrete inputs.
use golang_gin_rpc.Base.{◌≡◌, refl, none, some, [], ◌∷◌, arith}
use golang_gin_rpc.DbBreaker.{
  state_closed, state_open, state_half_open, other, Config, Breaker, can_execute, record_result,
}
use golang_gin_rpc.DbBreaker.Recovery.{relapse_does_not_wait, successes, recovery_stuck}

abbrev config : Config
config = record {
  max_failures = 3;
  reset_timeout = 100;
  half_open_max_requests = 1;
  success_threshold = 2;
}

abbrev closing : Breaker
closing = record {
  config = config;
  state = state_closed;
  failures = 2;
  successes = 0;
  requests = 0;
  last_failure_time = 0;
}

abbrev opened : Breaker
opened = record closing { state = state_open; failures = 0; last_failure_time = 1000 }

abbrev probing : Breaker
probing = record opened { state = state_half_open; successes = 0; requests = 0 }

relapse_does_not_wait_example :
    (can_execute (record_result probing (some (other 1)) 1100) 1100).1 ≡ none
relapse_does_not_wait_example =
    (relapse_does_not_wait probing (other 1) 1100 1100 refl (omega arith) (omega arith)).1

abbrev strict : Breaker
strict = record opened { config = record config { success_threshold = 3 } }

recovery_stuck_example :
    (successes strict ((1100, 1101) ∷ (1102, 1103) ∷ [])).state ≡ state_half_open
recovery_stuck_example =
    (recovery_stuck strict 1100 1101 ((1102, 1103) ∷ []) refl (omega arith) (omega arith)
      (omega arith) refl).0
