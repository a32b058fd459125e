-- ===== src/RateLimit/Cleanup.antt =====
-- The cleanup that both in-memory limiters of plugins/ratelimit make of their map from time to time,
-- over a bucket that says when it was last seen. Times are nanoseconds, the zero `time.Time` is 0.
use golang_gin_rpc.Base.{
  ℕ, zero, suc, ◌-◌, ◌≤◌, ◌<◌, ◌≡◌, refl, true, [], ◌∷◌, String, ◌==◌, string_eq, arith, ltb, leb,
  if◌then◌else◌, Dict, erase, length, ◌⊎◌, inl, inr, Bool-cases, ==_iff, keys, contains,
  length-erase-le,
}

module _ {B : Type 0} (last_seen : B → ℕ) where
  -- The buckets that were seen within the time to live.
  unfoldable pub expire : ℕ → ℕ → Dict String B → Dict String B
  expire ttl now [] = []
  expire ttl now ((k, b) ∷ rest) =
      if ltb ttl (now - last_seen b) then expire ttl now rest else (k, b) ∷ expire ttl now rest

  -- The oldest so far, then the entries that are still to be visited.
  oldest_from : String → ℕ → Dict String B → String
  oldest_from key time [] = key
  oldest_from key time ((k, b) ∷ rest) =
      if ltb (last_seen b) time then oldest_from k (last_seen b) rest else oldest_from key time rest

  -- The key that was seen the longest ago, "" for an empty map.
  unfoldable pub oldest : Dict String B → String
  unfolding oldest_from
  oldest [] = ""
  oldest ((k, b) ∷ rest) = oldest_from k (last_seen b) rest

  -- `for len(buckets) > maxKeys`: each turn deletes a bucket, so that their number is fuel enough.
  unfoldable pub evict : ℕ → ℕ → Dict String B → Dict String B
  evict zero max_keys buckets = buckets
  evict (suc fuel) max_keys buckets =
      let rest = evict fuel max_keys (erase (oldest buckets) buckets) in
      if leb (length buckets) max_keys
      then buckets
      else (if oldest buckets == "" then buckets else rest)

  unfoldable pub sweep : ℕ → ℕ → ℕ → Dict String B → Dict String B
  sweep ttl max_keys now buckets =
      let live = if ltb 0 ttl then expire ttl now buckets else buckets in
      if ltb 0 max_keys then evict (length live) max_keys live else live

  oldest_from-contains :
      (key : String) (time : ℕ) (m : Dict String B)
      → (oldest_from key time m ≡ key) ⊎ (contains (keys m) (oldest_from key time m) ≡ true)
  unfolding oldest_from
  oldest_from-contains key time [] = inl refl
  oldest_from-contains key time ((k, b) ∷ m) = ground (
    arith,
    oldest_from-contains k (last_seen b) m,
    oldest_from-contains key time m,
    ==_iff k (oldest_from k (last_seen b) m),
  )

  oldest-contains : (m : Dict String B) → 0 < length m → contains (keys m) (oldest m) ≡ true
  unfolding oldest
  oldest-contains [] h = ground arith
  oldest-contains ((k, b) ∷ m) h =
      ground
        (arith, oldest_from-contains k (last_seen b) m, ==_iff k (oldest_from k (last_seen b) m))

  length-erase-lt :
      (k : String) (m : Dict String B) → contains (keys m) k ≡ true → length (erase k m) < length m
  unfolding erase
  length-erase-lt k [] h = ground arith
  length-erase-lt k ((j, b) ∷ m) h = ground (arith, length-erase-lt k m, length-erase-le k m)

  -- The loop ends with no more buckets than allowed, or because the oldest key is empty.
  evict-bound :
      (fuel max_keys : ℕ) (m : Dict String B)
      → length m ≤ fuel
      → let m' = evict fuel max_keys m in (length m' ≤ max_keys) ⊎ (oldest m' ≡ "")
  unfolding evict
  evict-bound zero max_keys m h = inl (omega arith)
  evict-bound (suc fuel) max_keys m h = ground (
    arith,
    evict-bound fuel max_keys (erase (oldest m) m),
    oldest-contains m,
    length-erase-lt (oldest m) m,
    ==_iff (oldest m) "",
  )

  -- A sweep with a positive limit leaves at most so many buckets, or a bucket under the empty key
  -- that is the oldest, which stops the eviction.
  pub sweep-bound :
      (ttl max_keys now : ℕ) (m : Dict String B)
      → 0 < max_keys
      → let m' = sweep ttl max_keys now m in (length m' ≤ max_keys) ⊎ (oldest m' ≡ "")
  unfolding sweep
  sweep-bound ttl max_keys now m h = elim (Bool-cases (ltb 0 ttl)) [
    | inl e ↦ ground (arith, evict-bound (length (expire ttl now m)) max_keys (expire ttl now m))
    | inr e ↦ ground (arith, evict-bound (length m) max_keys m)
  ]
