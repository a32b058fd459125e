-- ===== src/Kernel/Topo/Correct.antt =====
-- `topoSort` returns all plugins with dependencies first, or names that depend on one another.
use golang_gin_rpc.Base.{
  ℕ, zero, suc, ◌≤◌, ◌<◌, ◌≡◌, ◌∙◌, Bool, true, false, not, List, [], ==_self, ◌∷◌, arith, Eq,
  length, contains, IsDistinct, some, if◌then◌else◌, eqb, eqb_iff, lookup, ◌⊎◌, inl, inr,
  Bool-cases,
}
use golang_gin_rpc.Base.Count.{count, contains-count, count-IsDistinct, count-le-length, length-le}
use golang_gin_rpc.Kernel.Sort.{sort_slice_stable, count-sort}
use golang_gin_rpc.Kernel.Topo.{Node, names, Result, ordered, cycle, graph, remaining, topo_sort}
use golang_gin_rpc.Kernel.Topo.Graph.{deps_of, AllDistinct, graph-dependents}
use golang_gin_rpc.Kernel.Topo.Loop.{Respects, Inv, kahn-Inv, names-length, order-short}
use golang_gin_rpc.Kernel.Topo.Order.{start-Inv, count-eq, missing_witness, count-remaining}

-- The plugins that take part: their names are those of a map, their dependencies went through
-- `dedupe`, and all of them take part. The two lists are the map's keys in some order.
module _ {K : Type 0} ⦃e : Eq K⦄ where
  pub record IsGraph (nodes : List (Node K)) (visited listed : List K) : Type 0 where
    pub distinct : IsDistinct (names nodes)
    pub deduped : AllDistinct nodes
    pub visits : (v : K) → count v visited ≡ count v (names nodes)
    pub lists : (v : K) → count v listed ≡ count v (names nodes)
    pub closed :
        (v d : K)
        → contains (names nodes) v ≡ true
        → contains (deps_of v nodes) d ≡ true
        → contains (names nodes) d ≡ true

  -- The order holds every name once, and each after its dependencies.
  abbrev pub IsOrder : List (Node K) → List K → Type 0
  IsOrder nodes order = ((v : K) → count v order ≡ count v (names nodes)) × Respects nodes [] order

  -- Each of the names has a dependency among them.
  abbrev pub IsCyclic : List (Node K) → List K → Type 0
  IsCyclic nodes r =
      (v : K)
      → contains r v ≡ true
      → (d : K) × (contains (deps_of v nodes) d ≡ true) × (contains r d ≡ true)

module _ {K : Type 0} ⦃e : Eq K⦄ (by_seq less : K → K → Bool) (nodes : List (Node K))
    (visited listed : List K) (g : IsGraph nodes visited listed) where
  outcome : List K → Result K
  outcome o =
      if not (eqb (length o) (length nodes))
      then cycle (sort_slice_stable less (remaining listed o))
      else ordered o

  loop_ends :
      (o : List K) × (deg : _) × (topo_sort by_seq less nodes visited listed ≡ some (outcome o))
      × Inv nodes deg [] o
  unfolding topo_sort outcome lookup
  loop_ends =
      let (o, deg, ends, i) =
        kahn-Inv nodes g.distinct g.deduped by_seq (graph nodes [] []).1 (suc (length nodes)) _ _ []
          (λ k. graph-dependents k nodes [] [] g.deduped) (omega arith)
          (start-Inv by_seq nodes visited g.distinct g.deduped g.visits) in
      (o, deg, rw (ends, topo_sort), i)

  all_placed :
      (deg : _) (o : List K)
      → Inv nodes deg [] o
      → length o ≡ length nodes
      → (v : K) → count v o ≡ count v (names nodes)
  all_placed deg o i l v = ground (
    arith,
    i.placed v,
    contains-count v (names nodes),
    count-IsDistinct v (names nodes) g.distinct,
    count-eq o (names nodes) (λ w. ground (arith, i.placed w, contains-count w (names nodes)))
        (omega (arith, names-length nodes g.distinct g.deduped nodes)) v,
  )

  -- The names that the error lists.
  left_over :
      (v : K) (o : List K)
      → contains (sort_slice_stable less (remaining listed o)) v ≡ true
      → (contains o v ≡ false) × (contains (names nodes) v ≡ true)
  left_over v o c = ground (
    arith,
    contains-count v (sort_slice_stable less (remaining listed o)),
    count-sort less v (remaining listed o),
    count-remaining v listed o,
    g.lists v,
    contains-count v (names nodes),
  )

  still_left :
      (v : K) (o : List K)
      → contains o v ≡ false
      → contains (names nodes) v ≡ true
      → contains (sort_slice_stable less (remaining listed o)) v ≡ true
  still_left v o new named = ground (
    arith,
    contains-count v (sort_slice_stable less (remaining listed o)),
    count-sort less v (remaining listed o),
    count-remaining v listed o,
    g.lists v,
    contains-count v (names nodes),
  )

  nothing_left :
      (v : K) (o : List K)
      → eqb (length (sort_slice_stable less (remaining listed o))) 0 ≡ true
      → count v (names nodes) ≤ count v o
  nothing_left v o z = ground (
    arith,
    count-le-length v (sort_slice_stable less (remaining listed o)),
    count-sort less v (remaining listed o),
    count-remaining v listed o,
    g.lists v,
    contains-count v o,
    count-IsDistinct v (names nodes) g.distinct,
  )

  -- A name that is not in the order waits for another one that is not.
  waits :
      (deg : _) (o : List K)
      → Inv nodes deg [] o
      → IsCyclic nodes (sort_slice_stable less (remaining listed o))
  waits deg o i v c =
      let (new, named) = left_over v o c in
      let (d, dep, out) =
        missing_witness o (deps_of v nodes)
          (ground (arith, i.placed v, new, named, contains-count v o)) in
      (d, dep, still_left d o out (g.closed v d named dep))

  some_left :
      (deg : _) (o : List K)
      → Inv nodes deg [] o
      → ¬ (length o ≡ length nodes)
      → 0 < length (sort_slice_stable less (remaining listed o))
  some_left deg o i short =
      elim (Bool-cases (eqb (length (sort_slice_stable less (remaining listed o))) 0)) [
        | inl none_left ↦ absurd (
            short (
              omega (
                arith,
                order-short nodes g.distinct g.deduped deg [] o i,
                names-length nodes g.distinct g.deduped nodes,
                length-le (names nodes) o (λ v. nothing_left v o none_left),
              )))
        | inr left ↦ ground arith
      ]

  -- Whatever order the maps are visited in, `topoSort` ends: with an order of all plugins in which
  -- each comes after its dependencies, or with names each of which depends on one of them. Names are
  -- distinct, and every dependency is the name of a plugin.
  pub topo_sort_correct :
      ((o : List K) × (topo_sort by_seq less nodes visited listed ≡ some (ordered o))
        × IsOrder nodes o)
      ⊎ ((r : List K) × (topo_sort by_seq less nodes visited listed ≡ some (cycle r))
          × IsCyclic nodes r
          × (0 < length r))
  unfolding outcome
  topo_sort_correct =
      let (o, deg, ends, i) = loop_ends in
      elim (Bool-cases (eqb (length o) (length nodes))) [
        | inl full ↦
            inl (o, ends ∙ rw full, (all_placed deg o i ((eqb_iff _ _).0 full), i.respects))
        | inr part ↦ inr (
          sort_slice_stable less (remaining listed o),
          ends ∙ rw part,
          waits deg o i,
          some_left deg o i (ground arith),
        )
      ]

  no_descent :
      (rank : K → ℕ) (r : List K)
      → ((v d : K) → contains (deps_of v nodes) d ≡ true → rank d < rank v)
      → IsCyclic nodes r
      → (n : ℕ) (v : K) → rank v < n
      → contains r v ≡ true
      → ⊥
  no_descent rank r h c zero v l m = elim l [ ]
  no_descent rank r h c (suc n) v l m =
      let (d, dep, here) = c v m in no_descent rank r h c n d (omega (arith, h v d dep)) here

  head_in : (r : List K) → 0 < length r → (v : K) × (contains r v ≡ true)
  head_in [] l = elim l [ ]
  head_in (v ∷ r) l = (v, ground (arith, ==_self v))

  -- When the dependencies have no cycle, that is when some rank falls along each of them,
  -- `topoSort` succeeds, with an order of all plugins in which each comes after its dependencies.
  pub topo_sort-acyclic :
      (rank : K → ℕ)
      → ((v d : K) → contains (deps_of v nodes) d ≡ true → rank d < rank v)
      → (o : List K) × (topo_sort by_seq less nodes visited listed ≡ some (ordered o))
        × IsOrder nodes o
  topo_sort-acyclic rank h = elim topo_sort_correct [
    | inl sorted ↦ sorted
    | inr (r, _, c, l) ↦
        let (v, m) = head_in r l in absurd (no_descent rank r h c (suc (rank v)) v (omega arith) m)
  ]
