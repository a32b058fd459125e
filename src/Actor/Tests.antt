-- ===== src/Actor/Tests.antt =====
-- An actor's mailbox and backoff on concrete inputs.
use golang_gin_rpc.Base.{ℕ, ◌≡◌, refl, false, [], ◌∷◌}
use golang_gin_rpc.Base.Int.{pos}
use golang_gin_rpc.Actor.{Supervision, restart_backoff, push, waits}

abbrev twice : Supervision
twice = record {
  strategy = restart_backoff;
  max_consecutive_restarts = 2;
  backoff_initial = pos 100;
  backoff_max = pos 300;
}

-- The maximum is shorter than the initial time.
abbrev hasty : Supervision
hasty = record twice { backoff_max = pos 60 }

a_full_mailbox_waits :
    push {M = ℕ} (record { queue = 1 ∷ 2 ∷ []; capacity = 2; closed = false }) 3
    ≡ (record { queue = 1 ∷ 2 ∷ []; capacity = 2; closed = false }, waits)
unfolding push
a_full_mailbox_waits = refl
