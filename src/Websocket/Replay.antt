-- ===== src/Websocket/Replay.antt =====
-- plugins/websocket/session.go, the replay buffer: what is sent is stored under its number, and a
-- client that comes back is sent again what has a larger number than the last it has seen.
pub mod Resume
use golang_gin_rpc.Base.{
  ℕ, zero, suc, ◌+◌, ◌-◌, Bool, true, false, List, [], ◌∷◌, ◌++◌, length, ltb, if◌then◌else◌,
}
use golang_gin_rpc.Base.Int.{ℤ, positive_or}

pub record StoredMessage (P : Type 0) : Type 0 where
  pub seq : ℕ
  pub payload : P

pub record ReplayBuffer (P : Type 0) : Type 0 where
  pub cap : ℕ
  pub ring : List (StoredMessage P)

-- `ring[n:]`.
abbrev pub slice_from : {A : Type 0} → ℕ → List A → List A
slice_from zero xs = xs
slice_from (suc n) [] = []
slice_from (suc n) (x ∷ xs) = slice_from n xs

-- A session: its counter and its buffer.
pub record Session (P : Type 0) : Type 0 where
  pub seq : ℕ
  pub buf : ReplayBuffer P

module _ {P : Type 0} where
  -- `normalize` has replaced a capacity that is not positive.
  unfoldable pub new_replay_buffer : ℤ → ReplayBuffer P
  new_replay_buffer capacity = record { cap = positive_or capacity 1024; ring = [] }

  unfoldable pub store : ReplayBuffer P → ℕ → P → ReplayBuffer P
  store b seq payload =
      let ring = b.ring ++ (record { seq = seq; payload = payload } ∷ []) in
      if ltb b.cap (length ring)
      then record b { ring = slice_from (length ring - b.cap) ring }
      else record b { ring = ring }

  unfoldable pub replay_from : List (StoredMessage P) → ℕ → List P
  replay_from [] last_seq = []
  replay_from (m ∷ ring) last_seq =
      if ltb last_seq m.seq
      then m.payload ∷ replay_from ring last_seq
      else replay_from ring last_seq

  unfoldable pub replay_after : ReplayBuffer P → ℕ → List P
  replay_after b last_seq = replay_from b.ring last_seq

  -- A message is sent under the next number and stored.
  unfoldable pub send : Session P → P → Session P
  unfolding store
  send s payload = record { seq = s.seq + 1; buf = store s.buf (s.seq + 1) payload }

  unfoldable pub send_all : Session P → List P → Session P
  send_all s [] = s
  send_all s (p ∷ ps) = send_all (send s p) ps
