-- ===== src/RateLimit/FixedWindow/Window.antt =====
-- How many requests of a client a fixed window lets through.
use native.Mathlib.Nat.{mul-le-mul_right}
use golang_gin_rpc.Base.{
  ℕ, suc, ◌+◌, ◌-◌, ◌*◌, ◌≤◌, ◌<◌, ◌≡◌, ap, ◌∙◌, Bool, true, false, List, [], ◌∷◌, arith, string_eq,
  if◌then◌else◌, length, min, ltb, Bool-cases, inl, inr, ltb→lt, ltb→le,
}
use golang_gin_rpc.RateLimit.TokenBucket.Rate.{Ascending, Ascending-le, one_if}
use golang_gin_rpc.RateLimit.FixedWindow.{WindowBucket, serve}

-- How many requests at the given times a bucket lets through.
abbrev pub served : ℕ → ℕ → WindowBucket → List ℕ → ℕ
served requests window b [] = 0
served requests window b (t ∷ ts) =
    let (b', allowed) = serve requests window b t in
    if allowed then suc (served requests window b' ts) else served requests window b' ts

-- All times are at most `end`.
abbrev pub Until : ℕ → List ℕ → Type 0
Until end [] = Unit
Until end (t ∷ ts) = (t ≤ end) × Until end ts

one_in_window :
    (requests window : ℕ) (b : WindowBucket) (t : ℕ)
    → t ≤ b.reset_at
    → let (b', allowed) = serve requests window b t in
      (b'.reset_at ≡ b.reset_at)
      × (one_if allowed + b'.remaining ≡ b.remaining)
      × (allowed ≡ false → b.remaining ≡ 0)
unfolding serve
one_in_window requests window b t h = ground arith

pub served-window :
    (requests window end : ℕ) (b : WindowBucket) (ts : List ℕ)
    → b.reset_at ≡ end
    → Until end ts
    → served requests window b ts ≡ min (length ts) b.remaining
served-window requests window end b [] e u = omega arith
served-window requests window end b (t ∷ ts) e u =
    let (e', n, z) = one_in_window requests window b t (omega (arith, u.0)) in
    let ih = served-window requests window end (serve requests window b t).0 ts (e' ∙ e) u.1 in
    ground (arith, ih, n, z)

one_after :
    (requests window : ℕ) (b : WindowBucket) (t : ℕ)
    → b.reset_at < t
    → let (b', allowed) = serve requests window b t in
      (b'.reset_at ≡ t + window) × (one_if allowed + b'.remaining ≡ requests)
unfolding serve
one_after requests window b t h = ground arith

-- A request pays for itself out of what the window has left and the time to come.
one_paid :
    (requests window to : ℕ) (b : WindowBucket) (t : ℕ)
    → b.reset_at ≤ to + window
    → t ≤ to
    → let (b', allowed) = serve requests window b t in
      (b'.reset_at ≤ to + window)
      × (one_if allowed * window + b'.remaining * window + (to + window - b'.reset_at) * requests
          ≤ b.remaining * window + (to + window - b.reset_at) * requests)
unfolding serve
one_paid requests window to b t h k = elim (Bool-cases (ltb b.reset_at t)) [
  | inl late ↦
      let (e, n) = one_after requests window b t (ltb→lt _ _ late) in
      let m = ap (λ x. x * window) n in
      let x : window + (to - t) ≤ to + window - b.reset_at = omega (arith, ltb→lt _ _ late) in
      let y : to + window - (t + window) ≡ to - t = omega arith in
      let z = mul-le-mul_right requests x in rw e (omega arith, rw y (omega (arith, m, z)))
  | inr within ↦
      let (e, n, _) = one_in_window requests window b t (ltb→le _ _ within) in
      let m = ap (λ x. x * window) n in rw e (h, omega (arith, m))
]

suc_if : (b : Bool) (n : ℕ) → (if b then suc n else n) ≡ one_if b + n
suc_if true n = omega arith
suc_if false n = omega arith

-- However the requests come, those that a bucket lets through by a time are at most what its window
-- has left and the limit times the number of windows from the beginning of that window to that
-- time, a number that need not be whole: the inequality is multiplied by the window's length.
pub served-rate :
    (requests window from to : ℕ) (b : WindowBucket) (ts : List ℕ)
    → b.reset_at ≤ to + window
    → Ascending from to ts
    → served requests window b ts * window
      ≤ b.remaining * window + (to + window - b.reset_at) * requests
served-rate requests window from to b [] h a = omega arith
served-rate requests window from to b (t ∷ ts) h a =
    let (h', n) = one_paid requests window to b t h (Ascending-le t to ts a.1) in
    let ih = served-rate requests window t to (serve requests window b t).0 ts h' a.1 in
    rw
      (suc_if (serve requests window b t).1
        (served requests window (serve requests window b t).0 ts))
      (omega (arith, ih, n))
