-- ===== src/RateLimit/TokenBucket.antt =====
-- plugins/ratelimit/token_bucket.go.
pub mod Rate
pub mod Limit
use golang_gin_rpc.Base.{
  ℕ, zero, suc, ◌+◌, ◌-◌, ◌*◌, ◌/◌, Bool, true, false, ◌&&◌, not, Option, none, some, List, [], ◌∷◌,
  String, string_eq, ltb, leb, eqb, if◌then◌else◌, Dict, lookup, insert, min, max,
}
use golang_gin_rpc.Base.Int.{ℤ, positive_or}
use golang_gin_rpc.RateLimit.Cleanup.{sweep}

pub record TokenBucket : Type 0 where
  pub tokens : ℕ
  pub max_tokens : ℕ
  pub refill_rate : ℕ
  pub last_refill : ℕ
  pub last_seen : ℕ

pub record Limiter : Type 0 where
  pub requests_per_minute : ℕ
  pub burst : ℕ
  pub refill_per_second : ℕ
  pub ttl : ℕ
  pub max_keys : ℕ
  pub cleanup_interval : ℕ
  pub last_cleanup : ℕ
  pub buckets : Dict String TokenBucket

abbrev pub second : ℕ
second = 1000000000

-- `NewTokenBucketLimiter` at a time.
unfoldable pub new : ℤ → ℤ → ℕ → Limiter
new requests_per_minute burst now =
    let rate = positive_or requests_per_minute 60 in
    record {
      requests_per_minute = rate;
      burst = positive_or burst (max 1 (rate / 4));
      refill_per_second = if eqb (rate / 60) 0 then 1 else rate / 60;
      ttl = 600 * second;
      max_keys = 100000;
      cleanup_interval = 60 * second;
      last_cleanup = now;
      buckets = [];
    }

unfoldable pub maybe_cleanup : Limiter → ℕ → Limiter
maybe_cleanup l now =
    let interval = if eqb l.cleanup_interval 0 then 60 * second else l.cleanup_interval in
    if not (eqb l.last_cleanup 0) && ltb (now - l.last_cleanup) interval
    then record l { cleanup_interval = interval }
    else record l {
      cleanup_interval = interval;
      last_cleanup = now;
      buckets = sweep (λ (b : TokenBucket). b.last_seen) l.ttl l.max_keys now l.buckets;
    }

-- The first half of `tokenBucket.allow`.
unfoldable pub refill : TokenBucket → ℕ → TokenBucket
refill b now =
    let add = (now - b.last_refill) / second * b.refill_rate in
    if ltb 0 add
    then record b {
      last_seen = now;
      tokens = if ltb b.max_tokens (b.tokens + add) then b.max_tokens else b.tokens + add;
      last_refill = now;
    }
    else record b { last_seen = now }

unfoldable pub allow_bucket : TokenBucket → ℕ → TokenBucket × Bool
allow_bucket b now =
    let b' = refill b now in
    if eqb b'.tokens 0 then (b', false) else (record b' { tokens = b'.tokens - 1 }, true)

abbrev pub fresh : Limiter → ℕ → TokenBucket
fresh l now = record {
  tokens = l.burst;
  max_tokens = l.burst;
  refill_rate = l.refill_per_second;
  last_refill = now;
  last_seen = now;
}

-- The bucket of a key, made when it is missing.
unfoldable pub bucket_of : Limiter → String → ℕ → TokenBucket
bucket_of l key now = elim (lookup key l.buckets) [ none ↦ fresh l now | some b ↦ b ]

unfoldable pub allow : Limiter → String → ℕ → Limiter × Bool
allow l key now =
    let l' = maybe_cleanup l now in
    let (b, allowed) = allow_bucket (bucket_of l' key now) now in
    (record l' { buckets = insert key b l'.buckets }, allowed)

-- How many of the requests for a key at the given times are allowed.
unfoldable pub granted : Limiter → String → List ℕ → ℕ
granted l key [] = 0
granted l key (now ∷ times) =
    let (l', allowed) = allow l key now in
    if allowed then suc (granted l' key times) else granted l' key times
