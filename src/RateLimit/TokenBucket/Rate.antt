-- ===== src/RateLimit/TokenBucket/Rate.antt =====
-- How many requests a token bucket lets through.
use native.Mathlib.Nat.{mul-le-mul_right}
use golang_gin_rpc.Base.{
  ℕ, suc, ◌+◌, ◌-◌, ◌*◌, ◌/◌, ◌≤◌, ◌≡◌, Bool, true, false, List, [], ◌∷◌, arith, string_eq,
  if◌then◌else◌,
}
use golang_gin_rpc.RateLimit.TokenBucket.{TokenBucket, refill, allow_bucket}

-- Times that do not fall, from one to another.
abbrev pub Ascending : ℕ → ℕ → List ℕ → Type 0
Ascending from to [] = from ≤ to
Ascending from to (t ∷ ts) = (from ≤ t) × Ascending t to ts

abbrev pub allowed_times : TokenBucket → List ℕ → ℕ
allowed_times b [] = 0
allowed_times b (t ∷ ts) =
    let (b', allowed) = allow_bucket b t in
    if allowed then suc (allowed_times b' ts) else allowed_times b' ts

pub Ascending-le : (from to : ℕ) (ts : List ℕ) → Ascending from to ts → from ≤ to
Ascending-le from to [] h = h
Ascending-le from to (t ∷ ts) h = omega (arith, h.0, Ascending-le t to ts h.1)

-- Whole seconds of two stretches are at most those of both.
seconds-add :
    (a b c : ℕ) → a ≤ b → b ≤ c → (b - a) / 1000000000 + (c - b) / 1000000000 ≤ (c - a) / 1000000000
seconds-add a b c h k = omega arith

refilled :
    (rate a b c : ℕ)
    → a ≤ b
    → b ≤ c
    → (b - a) / 1000000000 * rate + (c - b) / 1000000000 * rate ≤ (c - a) / 1000000000 * rate
refilled rate a b c h k = omega (arith, mul-le-mul_right rate (seconds-add a b c h k))

later_refilled :
    (rate a b c : ℕ) → a ≤ b → b ≤ c → (c - b) / 1000000000 * rate ≤ (c - a) / 1000000000 * rate
later_refilled rate a b c h k = omega (arith, refilled rate a b c h k)

abbrev pub one_if : Bool → ℕ
one_if true = 1
one_if false = 0

-- A request takes no more than what the time since the last refill has brought.
one_request :
    (b : TokenBucket) (t to : ℕ)
    → b.last_refill ≤ t
    → t ≤ to
    → let (b', allowed) = allow_bucket b t in
      (b'.last_refill ≤ t)
      × (b'.refill_rate ≡ b.refill_rate)
      × (one_if allowed + b'.tokens + (to - b'.last_refill) / 1000000000 * b'.refill_rate
          ≤ b.tokens + (to - b.last_refill) / 1000000000 * b.refill_rate)
unfolding allow_bucket refill
one_request b t to h k = ground (arith, refilled b.refill_rate b.last_refill t to h k)

-- However the requests come, a bucket lets through no more than the tokens that it holds and those
-- that the whole seconds since its last refill have brought.
pub allowed-rate :
    (b : TokenBucket) (from to : ℕ) (ts : List ℕ)
    → b.last_refill ≤ from
    → Ascending from to ts
    → allowed_times b ts ≤ b.tokens + (to - b.last_refill) / 1000000000 * b.refill_rate
allowed-rate b from to [] h a = omega arith
allowed-rate b from to (t ∷ ts) h a =
    let (h', r, n) = one_request b t to (omega (arith, a.0)) (Ascending-le t to ts a.1) in
    let ih = allowed-rate (allow_bucket b t).0 t to ts h' a.1 in ground (arith, n, ih)
