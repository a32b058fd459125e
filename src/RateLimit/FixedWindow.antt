-- ===== src/RateLimit/FixedWindow.antt =====
-- plugins/ratelimit/memory_fixed_window.go.
pub mod Window
pub mod Limit
use golang_gin_rpc.Base.{
  ℕ, zero, suc, ◌+◌, ◌-◌, ◌*◌, Bool, true, false, ◌&&◌, not, Option, none, some, List, [], ◌∷◌,
  String, string_eq, ltb, eqb, if◌then◌else◌, Dict, lookup, insert,
}
use golang_gin_rpc.Base.Int.{ℤ, positive_or}
use golang_gin_rpc.RateLimit.Cleanup.{sweep}

pub record WindowBucket : Type 0 where
  pub remaining : ℕ
  pub reset_at : ℕ
  pub last_seen : ℕ

pub record MemoryFixedWindow : Type 0 where
  pub requests : ℕ
  pub window : ℕ
  pub ttl : ℕ
  pub max_keys : ℕ
  pub cleanup_interval : ℕ
  pub last_cleanup : ℕ
  pub clients : Dict String WindowBucket

abbrev minute : ℕ
minute = 60000000000

-- `NewMemoryFixedWindow` at a time.
unfoldable pub new : ℤ → ℤ → ℕ → MemoryFixedWindow
new requests window now =
    let w = positive_or window minute in
    record {
      requests = positive_or requests 100;
      window = w;
      ttl = if ltb (10 * w) minute then minute else 10 * w;
      max_keys = 100000;
      cleanup_interval = w;
      last_cleanup = now;
      clients = [];
    }

unfoldable pub maybe_cleanup : MemoryFixedWindow → ℕ → MemoryFixedWindow
maybe_cleanup l now =
    let interval = if eqb l.cleanup_interval 0 then minute else l.cleanup_interval in
    if not (eqb l.last_cleanup 0) && ltb (now - l.last_cleanup) interval
    then record l { cleanup_interval = interval }
    else record l {
      cleanup_interval = interval;
      last_cleanup = now;
      clients = sweep (λ (b : WindowBucket). b.last_seen) l.ttl l.max_keys now l.clients;
    }

-- The request of a client whose bucket is there.
unfoldable pub serve : ℕ → ℕ → WindowBucket → ℕ → WindowBucket × Bool
serve requests window b now =
    let b' =
      if ltb b.reset_at now
      then record { remaining = requests; reset_at = now + window; last_seen = now }
      else record b { last_seen = now } in
    if eqb b'.remaining 0 then (b', false) else (record b' { remaining = b'.remaining - 1 }, true)

abbrev pub served_client : ℕ → ℕ → Option WindowBucket → ℕ → WindowBucket × Bool
served_client requests window none now =
    (record { remaining = requests - 1; reset_at = now + window; last_seen = now }, true)
served_client requests window (some b) now = serve requests window b now

unfoldable pub allow : MemoryFixedWindow → String → ℕ → MemoryFixedWindow × Bool
allow l key now =
    let l' = maybe_cleanup l now in
    let (b, allowed) = served_client l'.requests l'.window (lookup key l'.clients) now in
    (record l' { clients = insert key b l'.clients }, allowed)

-- How many of the requests for a key at the given times are allowed.
unfoldable pub granted : MemoryFixedWindow → String → List ℕ → ℕ
granted l key [] = 0
granted l key (now ∷ times) =
    let (l', allowed) = allow l key now in
    if allowed then suc (granted l' key times) else granted l' key times
