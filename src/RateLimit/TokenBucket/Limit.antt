-- ===== src/RateLimit/TokenBucket/Limit.antt =====
-- A limiter while no cleanup is due: a key's requests are those of its bucket.
use golang_gin_rpc.Base.{
  ℕ, suc, ◌+◌, ◌-◌, ◌*◌, ◌/◌, ◌≤◌, ◌<◌, ◌≡◌, refl, true, List, [], ◌∷◌, arith, String, string_eq,
  lookup, insert, lookup-insert_self, Dict, length, subst, sym, ap, ◌∙◌, max,
}
use golang_gin_rpc.RateLimit.TokenBucket.{
  TokenBucket, Limiter, maybe_cleanup, refill, allow_bucket, bucket_of, allow, granted, new, fresh,
}
use native.Mathlib.Nat.{mul-le-mul_right}
use golang_gin_rpc.Base.Int.{ℤ, positive_or, positive_or_pos}
use golang_gin_rpc.RateLimit.TokenBucket.Rate.{Ascending, allowed_times, allowed-rate}

-- No cleanup is due at the times.
abbrev pub Quiet : Limiter → List ℕ → Type 0
Quiet l [] = Unit
Quiet l (t ∷ ts) = (t < l.last_cleanup + l.cleanup_interval) × Quiet l ts

abbrev pub with_buckets : Limiter → Dict String TokenBucket → Limiter
with_buckets l m = record l { buckets = m }

quiet_cleanup :
    (l : Limiter) (now : ℕ)
    → 0 < l.last_cleanup
    → 0 < l.cleanup_interval
    → now < l.last_cleanup + l.cleanup_interval
    → maybe_cleanup l now ≡ l
unfolding maybe_cleanup
quiet_cleanup l now c i h = ground arith

Quiet-buckets :
    (l : Limiter) (m : Dict String TokenBucket) (ts : List ℕ)
    → Quiet l ts
    → Quiet (with_buckets l m) ts
Quiet-buckets l m [] q = tt
Quiet-buckets l m (t ∷ ts) q = (q.0, Quiet-buckets l m ts q.1)

quiet_allow :
    (l : Limiter) (key : String) (now : ℕ)
    → 0 < l.last_cleanup
    → 0 < l.cleanup_interval
    → now < l.last_cleanup + l.cleanup_interval
    → let (b, allowed) = allow_bucket (bucket_of l key now) now in
      allow l key now ≡ (with_buckets l (insert key b l.buckets), allowed)
unfolding allow
quiet_allow l key now c i h = rw (quiet_cleanup l now c i h) refl

bucket-stored :
    (l : Limiter) (key : String) (b : TokenBucket) (now : ℕ)
    → bucket_of (with_buckets l (insert key b l.buckets)) key now ≡ b
unfolding bucket_of
bucket-stored l key b now = rw (lookup-insert_self key b l.buckets, bucket_of) refl

-- While no cleanup is due, the requests for a key are those of one bucket.
pub granted-allowed :
    (l : Limiter) (key : String) (b : TokenBucket) (ts : List ℕ)
    → 0 < l.last_cleanup
    → 0 < l.cleanup_interval
    → Quiet l ts
    → ((now : ℕ) → bucket_of l key now ≡ b)
    → granted l key ts ≡ allowed_times b ts
unfolding granted
granted-allowed l key b [] c i q e = refl
granted-allowed l key b (t ∷ ts) c i q e =
    let b' = (allow_bucket b t).0 in
    let l' = with_buckets l (insert key b' l.buckets) in
    let ih =
      granted-allowed l' key b' ts c i (Quiet-buckets l (insert key b' l.buckets) ts q.1)
        (bucket-stored l key b') in
    rw (quiet_allow l key t c i q.0, granted) (rw (e t) (ground (arith, ih)))

granted-first :
    (l : Limiter) (key : String) (t : ℕ) (ts : List ℕ)
    → 0 < l.last_cleanup
    → 0 < l.cleanup_interval
    → Quiet l (t ∷ ts)
    → granted l key (t ∷ ts) ≡ allowed_times (bucket_of l key t) (t ∷ ts)
unfolding granted
granted-first l key t ts c i q =
    let b' = (allow_bucket (bucket_of l key t) t).0 in
    let l' = with_buckets l (insert key b' l.buckets) in
    let ih =
      granted-allowed l' key b' ts c i (Quiet-buckets l (insert key b' l.buckets) ts q.1)
        (bucket-stored l key b') in
    rw (quiet_allow l key t c i q.0, granted) (ground (arith, ih))

new-bucket :
    (requests_per_minute burst : ℤ) (start : ℕ) (key : String) (t : ℕ)
    → let l = new requests_per_minute burst start in bucket_of l key t ≡ fresh l t
unfolding bucket_of new lookup
new-bucket requests_per_minute burst start key t = refl

-- A new limiter, as long as no cleanup is due, lets through no more requests of a key than the
-- burst and the tokens of the whole seconds since the first of them.
pub granted-rate :
    (requests_per_minute burst : ℤ) (start : ℕ) (key : String) (t : ℕ) (ts : List ℕ) (to : ℕ)
    → let l = new requests_per_minute burst start in
      0 < start
      → Quiet l (t ∷ ts)
      → Ascending t to ts
      → granted l key (t ∷ ts) ≤ l.burst + (to - t) / 1000000000 * l.refill_per_second
unfolding new bucket_of
granted-rate requests_per_minute burst start key t ts to s q a =
    let l = new requests_per_minute burst start in
    rw
      (granted-first l key t ts s (omega arith) q
        ∙ ap (λ b. allowed_times b (t ∷ ts)) (new-bucket requests_per_minute burst start key t))
      (allowed-rate (fresh l t) t to (t ∷ ts) (omega arith) (omega arith, a))

-- Ticks at least a second apart.
abbrev pub Seconds : ℕ → List ℕ → Type 0
Seconds from [] = Unit
Seconds from (t ∷ ts) = (from + 1000000000 ≤ t) × Seconds t ts

one_granted :
    (b : TokenBucket) (t : ℕ)
    → 0 < b.refill_rate
    → 0 < b.max_tokens
    → b.last_refill + 1000000000 ≤ t
    → let (b', allowed) = allow_bucket b t in
      (allowed ≡ true)
      × (b'.last_refill ≡ t)
      × (b'.refill_rate ≡ b.refill_rate)
      × (b'.max_tokens ≡ b.max_tokens)
unfolding allow_bucket refill
one_granted b t r m h =
    let x : 1 ≤ (t - b.last_refill) / 1000000000 = omega arith in
    ground (arith, mul-le-mul_right b.refill_rate x)

spaced_allowed :
    (b : TokenBucket) (ts : List ℕ)
    → 0 < b.refill_rate
    → 0 < b.max_tokens
    → Seconds b.last_refill ts
    → allowed_times b ts ≡ length ts
spaced_allowed b [] r m s = refl
spaced_allowed b (t ∷ ts) r m s =
    let (e, f, r', m') = one_granted b t r m s.0 in
    let ih =
      spaced_allowed (allow_bucket b t).0 ts (omega arith) (omega arith)
        (subst (λ x. Seconds x ts) (sym f) s.1) in
    rw e (omega (arith, ih))

first_granted :
    (requests_per_minute burst : ℤ) (start t : ℕ)
    → let (b, allowed) = allow_bucket (fresh (new requests_per_minute burst start) t) t in
      (allowed ≡ true) × (b.last_refill ≡ t) × (0 < b.refill_rate) × (0 < b.max_tokens)
unfolding new allow_bucket refill
first_granted requests_per_minute burst start t =
    let r = positive_or_pos requests_per_minute 60 (omega arith) in
    ground (arith, positive_or_pos burst (max 1 (positive_or requests_per_minute 60 / 4)))

-- Whatever rate is configured, be it less than sixty requests a minute, a new limiter, as long as
-- no cleanup is due, lets through every request of a key that comes at least a second after the
-- one before it, which is sixty a minute.
pub sixty_a_minute :
    (requests_per_minute burst : ℤ) (start : ℕ) (key : String) (t : ℕ) (ts : List ℕ)
    → let l = new requests_per_minute burst start in
      0 < start → Quiet l (t ∷ ts) → Seconds t ts → granted l key (t ∷ ts) ≡ length (t ∷ ts)
unfolding new bucket_of
sixty_a_minute requests_per_minute burst start key t ts s q a =
    let l = new requests_per_minute burst start in
    let (e, f, r, m) = first_granted requests_per_minute burst start t in
    granted-first l key t ts s (omega arith) q
    ∙ ap (λ b. allowed_times b (t ∷ ts)) (new-bucket requests_per_minute burst start key t)
    ∙ rw e (
        ap suc (
          spaced_allowed (allow_bucket (fresh l t) t).0 ts r m
            (subst (λ x. Seconds x ts) (sym f) a)))
