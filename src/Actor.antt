-- ===== src/Actor.antt =====
-- plugins/actor: the mailbox of an actor (mailbox.go) and the time it waits before it is restarted
-- (supervision.go). Times are nanoseconds.
pub mod Backoff
mod Tests
use golang_gin_rpc.Base.{
  ℕ, zero, suc, ◌+◌, ◌*◌, ◌-◌, Bool, true, false, ◌&&◌, Option, none, some, List, [], ◌∷◌, ◌++◌,
  length, ltb, leb, eqb, if◌then◌else◌,
}
use golang_gin_rpc.Base.Int.{ℤ, positive_or}

pub data RestartStrategy : Type 0 where
  restart_never restart_always restart_backoff : RestartStrategy

-- The callbacks only observe and are left out. A limit that is not positive is 0.
pub record Supervision : Type 0 where
  pub strategy : RestartStrategy
  pub max_consecutive_restarts : ℕ
  pub backoff_initial : ℤ
  pub backoff_max : ℤ

-- The loop of `backoffFor`, with the number of turns that are left.
unfoldable pub doubled : ℕ → ℕ → ℕ → ℕ
doubled zero max d = d
doubled (suc n) max d = let rest = doubled n max (d * 2) in if leb max (d * 2) then max else rest

unfoldable pub backoff_for : Supervision → ℕ → ℕ
unfolding doubled
backoff_for sv attempt =
    doubled (attempt - 1) (positive_or sv.backoff_max 5000000000)
      (positive_or sv.backoff_initial 100000000)

-- A mailbox holds at most `capacity` messages of some type.
pub record Mailbox (M : Type 0) : Type 0 where
  pub queue : List M
  pub capacity : ℕ
  pub closed : Bool

-- What a call of `push` does: it puts the message in, finds the mailbox closed, or waits.
pub data Pushed : Type 0 where
  sent mailbox_closed waits : Pushed

module _ {M : Type 0} where
  abbrev pub new_mailbox : ℤ → Mailbox M
  new_mailbox size = record { queue = []; capacity = positive_or size 64; closed = false }

  unfoldable pub push : Mailbox M → M → Mailbox M × Pushed
  push m env =
      if m.closed
      then (m, mailbox_closed)
      else (if ltb (length m.queue) m.capacity
          then (record m { queue = m.queue ++ (env ∷ []) }, sent)
          else (m, waits))

  abbrev pub stop_mailbox : Mailbox M → Mailbox M
  stop_mailbox m = record m { closed = true }
