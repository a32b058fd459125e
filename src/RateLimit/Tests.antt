-- ===== src/RateLimit/Tests.antt =====
-- The limiters on concrete inputs.
use golang_gin_rpc.Base.{
  ℕ, ◌+◌, ◌-◌, ◌*◌, ◌/◌, ◌≤◌, ◌≡◌, refl, [], ◌∷◌, arith, min, String, Dict, erase,
}
use golang_gin_rpc.Base.Int.{pos}
use golang_gin_rpc.RateLimit.Cleanup.{sweep, oldest, expire, evict}
use golang_gin_rpc.RateLimit.TokenBucket as Bucket
use golang_gin_rpc.RateLimit.FixedWindow as Fixed
use golang_gin_rpc.RateLimit.TokenBucket.Limit.{granted-rate}
use golang_gin_rpc.RateLimit.FixedWindow.{WindowBucket}
use golang_gin_rpc.RateLimit.FixedWindow.Limit.{granted-window}

abbrev seen : ℕ → WindowBucket
seen t = record { remaining = 1; reset_at = 10; last_seen = t }

abbrev clients : Dict String WindowBucket
clients = ("a", seen 5) ∷ ("b", seen 3) ∷ ("c", seen 7) ∷ []

sweep_evicts :
    sweep (λ (b : WindowBucket). b.last_seen) 100 2 9 clients ≡ ("a", seen 5) ∷ ("c", seen 7) ∷ []
unfolding sweep evict expire oldest erase
sweep_evicts = refl

-- The empty key is the oldest, and nothing is evicted.
empty_key_stops :
    sweep (λ (b : WindowBucket). b.last_seen) 100 1 9 (("", seen 1) ∷ ("a", seen 5) ∷ [])
    ≡ ("", seen 1) ∷ ("a", seen 5) ∷ []
unfolding sweep evict expire oldest
empty_key_stops = refl

abbrev slow : Bucket.Limiter
slow = Bucket.new (pos 10) (pos 3) 1

granted-rate_example :
    Bucket.granted slow "ip" (2 ∷ 2 ∷ 3 ∷ 3 ∷ 1000000002 ∷ [])
    ≤ slow.burst + (1000000002 - 2) / 1000000000 * slow.refill_per_second
unfolding Bucket.new
granted-rate_example =
    granted-rate (pos 10) (pos 3) 1 "ip" 2 (2 ∷ 3 ∷ 3 ∷ 1000000002 ∷ []) 1000000002 (omega arith)
      (omega arith, (omega arith, (omega arith, (omega arith, (omega arith, tt)))))
      (omega arith, (omega arith, (omega arith, (omega arith, omega arith))))

granted-window_example :
    Fixed.granted (Fixed.new (pos 2) (pos 100) 1) "ip" (3 ∷ 4 ∷ 50 ∷ 90 ∷ [])
    ≡ min 4 (Fixed.new (pos 2) (pos 100) 1).requests
unfolding Fixed.new
granted-window_example =
    granted-window (pos 2) (pos 100) 1 "ip" 3 (4 ∷ 50 ∷ 90 ∷ []) (omega arith)
      (omega arith, (omega arith, (omega arith, (omega arith, tt))))
      (omega arith, (omega arith, (omega arith, tt)))
