-- ===== src/RateLimit/FixedWindow/Limit.antt =====
-- A new fixed window limiter within its first window.
use golang_gin_rpc.Base.{
  ℕ, suc, ◌+◌, ◌-◌, ◌<◌, ◌≡◌, refl, ap, true, List, [], ◌∷◌, arith, String, string_eq, Dict, lookup,
  insert, lookup-insert_self, length, min, some,
}
use golang_gin_rpc.Base.Int.{ℤ, positive_or_pos}
use golang_gin_rpc.RateLimit.FixedWindow.{
  WindowBucket, MemoryFixedWindow, maybe_cleanup, serve, allow, granted, new, served_client,
}
use golang_gin_rpc.RateLimit.FixedWindow.Window.{served, Until, served-window}

-- No cleanup is due at the times.
abbrev pub Quiet : MemoryFixedWindow → List ℕ → Type 0
Quiet l [] = Unit
Quiet l (t ∷ ts) = (t < l.last_cleanup + l.cleanup_interval) × Quiet l ts

abbrev with_clients : MemoryFixedWindow → Dict String WindowBucket → MemoryFixedWindow
with_clients l m = record l { clients = m }

quiet_cleanup :
    (l : MemoryFixedWindow) (now : ℕ)
    → 0 < l.last_cleanup
    → 0 < l.cleanup_interval
    → now < l.last_cleanup + l.cleanup_interval
    → maybe_cleanup l now ≡ l
unfolding maybe_cleanup
quiet_cleanup l now c i h = ground arith

Quiet-clients :
    (l : MemoryFixedWindow) (m : Dict String WindowBucket) (ts : List ℕ)
    → Quiet l ts
    → Quiet (with_clients l m) ts
Quiet-clients l m [] q = tt
Quiet-clients l m (t ∷ ts) q = (q.0, Quiet-clients l m ts q.1)

quiet_allow :
    (l : MemoryFixedWindow) (key : String) (now : ℕ)
    → 0 < l.last_cleanup
    → 0 < l.cleanup_interval
    → now < l.last_cleanup + l.cleanup_interval
    → let (b, allowed) = served_client l.requests l.window (lookup key l.clients) now in
      allow l key now ≡ (with_clients l (insert key b l.clients), allowed)
unfolding allow
quiet_allow l key now c i h = rw (quiet_cleanup l now c i h) refl

granted-served :
    (l : MemoryFixedWindow) (key : String) (b : WindowBucket) (ts : List ℕ)
    → 0 < l.last_cleanup
    → 0 < l.cleanup_interval
    → Quiet l ts
    → lookup key l.clients ≡ some b
    → granted l key ts ≡ served l.requests l.window b ts
unfolding granted
granted-served l key b [] c i q e = refl
granted-served l key b (t ∷ ts) c i q e =
    let b' = (serve l.requests l.window b t).0 in
    let l' = with_clients l (insert key b' l.clients) in
    let ih =
      granted-served l' key b' ts c i (Quiet-clients l (insert key b' l.clients) ts q.1)
        (lookup-insert_self key b' l.clients) in
    rw (quiet_allow l key t c i q.0, granted) (rw e (ground (arith, ih)))

first_served :
    (l : MemoryFixedWindow) (key : String) (t : ℕ) (ts : List ℕ)
    → 0 < l.last_cleanup
    → 0 < l.cleanup_interval
    → Quiet l (t ∷ ts)
    → (served_client l.requests l.window (lookup key l.clients) t).1 ≡ true
    → granted l key (t ∷ ts)
      ≡ suc (
          served l.requests l.window
            (served_client l.requests l.window (lookup key l.clients) t).0
            ts)
unfolding granted
first_served l key t ts c i q e =
    let b = (served_client l.requests l.window (lookup key l.clients) t).0 in
    let l' = with_clients l (insert key b l.clients) in
    let ih =
      granted-served l' key b ts c i (Quiet-clients l (insert key b l.clients) ts q.1)
        (lookup-insert_self key b l.clients) in
    rw (quiet_allow l key t c i q.0, granted) (rw e (ap suc ih))

-- Within the window that its first request opens, as long as no cleanup is due, a new limiter lets
-- through all requests of a key up to the configured limit and no more: as many as there are, or
-- the limit if that is smaller.
pub granted-window :
    (requests window : ℤ) (start : ℕ) (key : String) (t : ℕ) (ts : List ℕ)
    → let l = new requests window start in
      0 < start
      → Quiet l (t ∷ ts)
      → Until (t + l.window) ts
      → granted l key (t ∷ ts) ≡ min (length (t ∷ ts)) l.requests
unfolding new lookup
granted-window requests window start key t ts s q u =
    let l = new requests window start in
    let b : WindowBucket = record {
      remaining = l.requests - 1;
      reset_at = t + l.window;
      last_seen = t;
    } in
    let w = positive_or_pos window 60000000000 (omega arith) in
    let r = positive_or_pos requests 100 (omega arith) in
    omega (
      arith,
      r,
      first_served l key t ts s (omega (arith, w)) q refl,
      served-window l.requests l.window (t + l.window) b ts refl u,
    )
