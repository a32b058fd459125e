-- ===== src/Kernel/Topo/Release.antt =====
-- What taking a name off the queue does to the degrees and to the queue.
use golang_gin_rpc.Base.{
  ℕ, ◌+◌, ◌-◌, ◌≤◌, ◌≡◌, refl, ◌&&◌, List, [], ◌∷◌, ◌++◌, arith, Eq, ◌==◌, ==_iff, Dict, insert,
  lookup-insert, if◌then◌else◌, ltb, eqb,
}
use golang_gin_rpc.Base.Int.{ℤ, pos}
use golang_gin_rpc.Base.Count.{count, count-append}
use golang_gin_rpc.Kernel.Topo.{degree, is_zero, lowered, roots, release}

module _ {K : Type 0} ⦃e : Eq K⦄ where
  -- Each name in the list lowers its own degree by one.
  pub release-degree :
      (v : K) (ns : List K) (deg : Dict K ℤ) (q : List K) (k : ℕ)
      → degree v deg ≡ pos k
      → count v ns ≤ k
      → degree v (release ns deg q).0 ≡ pos (k - count v ns)
  unfolding release
  release-degree v [] deg q k h l = ground arith
  release-degree v (x ∷ ns) deg q k h l =
      let d = lowered (degree x deg) in
      let q' = if is_zero d then q ++ (x ∷ []) else q in
      ground (
        arith,
        release-degree v ns (insert x d deg) q' (if x == v then k - 1 else k),
        lookup-insert x v d deg,
        ==_iff x v,
      )

  -- A name joins the queue when its degree comes to 0.
  pub release-queue :
      (v : K) (ns : List K) (deg : Dict K ℤ) (q : List K) (k : ℕ)
      → degree v deg ≡ pos k
      → count v ns ≤ k
      → count v (release ns deg q).1 ≡ count v q + (if eqb (count v ns) k && ltb 0 k then 1 else 0)
  unfolding release
  release-queue v [] deg q k h l = ground arith
  release-queue v (x ∷ ns) deg q k h l =
      let d = lowered (degree x deg) in
      let q' = if is_zero d then q ++ (x ∷ []) else q in
      ground (
        arith,
        release-queue v ns (insert x d deg) q' (if x == v then k - 1 else k),
        lookup-insert x v d deg,
        count-append v q (x ∷ []),
        ==_iff x v,
      )

  -- The queue starts with the names of degree 0.
  pub count-roots :
      (v : K) (ks : List K) (deg : Dict K ℤ)
      → count v (roots ks deg) ≡ (if is_zero (degree v deg) then count v ks else 0)
  unfolding roots
  count-roots v [] deg = ground arith
  count-roots v (x ∷ ks) deg = ground (arith, count-roots v ks deg, ==_iff x v)

  -- A name that is not in the list does not join the queue.
  pub release-queue_other :
      (v : K) (ns : List K) (deg : Dict K ℤ) (q : List K)
      → count v ns ≡ 0
      → count v (release ns deg q).1 ≡ count v q
  unfolding release
  release-queue_other v [] deg q h = refl
  release-queue_other v (x ∷ ns) deg q h =
      let d = lowered (degree x deg) in
      let q' = if is_zero d then q ++ (x ∷ []) else q in
      ground (arith, release-queue_other v ns (insert x d deg) q', count-append v q (x ∷ []))
