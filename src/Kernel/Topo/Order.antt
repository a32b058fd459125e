-- ===== src/Kernel/Topo/Order.antt =====
-- `topoSort` returns an order of all plugins in which dependencies come first, or a cycle.
use golang_gin_rpc.Base.{
  suc, ◌≤◌, ◌<◌, ◌≡◌, refl, ap, Bool, true, false, List, [], ◌∷◌, arith, Eq, ==_iff, ==_self,
  length, contains, IsDistinct, if◌then◌else◌, ltb, inl, inr, Bool-cases, ltb→lt, ltb→le,
}
use golang_gin_rpc.Base.Count.{count, contains-count, count-IsDistinct, length-le}
use golang_gin_rpc.Kernel.Sort.{sort_slice_stable, count-sort}
use golang_gin_rpc.Kernel.Topo.{Node, names, graph, roots, remaining}
use golang_gin_rpc.Kernel.Topo.Graph.{deps_of, AllDistinct, graph-degree}
use golang_gin_rpc.Kernel.Topo.Release.{count-roots}
use golang_gin_rpc.Kernel.Topo.Loop.{missing, Inv}

module _ {K : Type 0} ⦃e : Eq K⦄ where
  missing-nil : (ds : List K) → missing [] ds ≡ length ds
  missing-nil [] = refl
  missing-nil (d ∷ ds) = ap suc (missing-nil ds)

  pub start-Inv :
      (less : K → K → Bool) (nodes : List (Node K)) (visited : List K)
      → IsDistinct (names nodes)
      → AllDistinct nodes
      → ((v : K) → count v visited ≡ count v (names nodes))
      → Inv nodes
          (graph nodes [] []).0
          (sort_slice_stable less (roots visited (graph nodes [] []).0))
          []
  start-Inv less nodes visited u a h = record {
    placed = λ v. ground (
      arith,
      count-sort less v (roots visited (graph nodes [] []).0),
      count-roots v visited (graph nodes [] []).0,
      h v,
      graph-degree v nodes [] [] u,
      contains-count v (names nodes),
      count-IsDistinct v (names nodes) u,
      missing-nil (deps_of v nodes),
    );
    degrees = λ v c. ground (arith, graph-degree v nodes [] [] u c, missing-nil (deps_of v nodes));
    respects = tt;
  }

  -- A shorter list with no more of anything has as much of everything.
  pub count-eq :
      (xs ys : List K)
      → ((v : K) → count v xs ≤ count v ys)
      → length ys ≤ length xs
      → (v : K) → count v ys ≤ count v xs
  count-eq xs ys h l v = elim (Bool-cases (ltb (count v xs) (count v ys))) [
    | inl more ↦ absurd (
        omega
          (arith, l, length-le (v ∷ xs) ys (λ w. ground (arith, h w, ltb→lt _ _ more, ==_iff v w))))
    | inr less ↦ ltb→le _ _ less
  ]

  pub missing-zero :
      (order ds : List K)
      → ((d : K) → contains ds d ≡ true → contains order d ≡ true)
      → missing order ds ≡ 0
  missing-zero order [] h = refl
  missing-zero order (d ∷ ds) h =
      rw (h d (ground (arith, ==_self d))) (missing-zero order ds (λ k c. h k (ground arith)))

  pub missing_witness :
      (order ds : List K)
      → 0 < missing order ds
      → (d : K) × (contains ds d ≡ true) × (contains order d ≡ false)
  missing_witness order [] h = absurd (omega arith)
  missing_witness order (d ∷ ds) h = elim (Bool-cases (contains order d)) [
    | inl old ↦ let (k, c, n) = missing_witness order ds (rw old at h) in (k, ground arith, n)
    | inr new ↦ (d, ground (arith, ==_self d), new)
  ]

  pub count-remaining :
      (v : K) (ks order : List K)
      → count v (remaining ks order) ≡ (if contains order v then 0 else count v ks)
  unfolding remaining
  count-remaining v [] order = ground arith
  count-remaining v (k ∷ ks) order = ground (arith, count-remaining v ks order, ==_iff k v)
