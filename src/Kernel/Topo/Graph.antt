-- ===== src/Kernel/Topo/Graph.antt =====
-- What the first loop of `topoSort` builds: for each name how many dependencies it has, and which
-- names depend on it.
use golang_gin_rpc.Base.{
  ◌≡◌, refl, sym, true, false, ◌&&◌, List, [], ◌∷◌, ◌++◌, arith, Eq, ◌==◌, ==_iff, Dict, insert,
  lookup-insert, length, contains, IsDistinct, if◌then◌else◌,
}
use mathlib.Core.List.{append-nil, append_assoc}
use golang_gin_rpc.Base.Int.{ℤ, pos}
use golang_gin_rpc.Base.Count.{count}
use golang_gin_rpc.Kernel.Topo.{Node, names, degree, dependents_of, add_dependents, graph}

module _ {K : Type 0} ⦃e : Eq K⦄ where
  -- The dependencies of a name: those of the first node that carries it.
  abbrev pub deps_of : K → List (Node K) → List K
  deps_of k [] = []
  deps_of k (n ∷ nodes) = if n.name == k then n.deps else deps_of k nodes

  -- The names that depend on a name.
  abbrev pub users : K → List (Node K) → List K
  users d [] = []
  users d (n ∷ nodes) = if contains n.deps d then n.name ∷ users d nodes else users d nodes

  -- Every node lists its dependencies once.
  abbrev pub AllDistinct : List (Node K) → Type 0
  AllDistinct [] = Unit
  AllDistinct (n ∷ nodes) = IsDistinct n.deps × AllDistinct nodes

  dependents-add :
      (k name : K) (deps : List K) (m : Dict K (List K))
      → IsDistinct deps
      → dependents_of k (add_dependents name deps m)
        ≡ (if contains deps k then dependents_of k m ++ (name ∷ []) else dependents_of k m)
  unfolding add_dependents
  dependents-add k name [] m d = refl
  dependents-add k name (dep ∷ deps) m d = ground (
    arith,
    dependents-add k name deps (insert dep (dependents_of dep m ++ (name ∷ [])) m) d.1,
    lookup-insert dep k (dependents_of dep m ++ (name ∷ [])) m,
    ==_iff dep k,
  )

  pub graph-dependents :
      (k : K) (nodes : List (Node K)) (deg : Dict K ℤ) (m : Dict K (List K))
      → AllDistinct nodes
      → dependents_of k (graph nodes deg m).1 ≡ dependents_of k m ++ users k nodes
  unfolding graph
  graph-dependents k [] deg m d = sym (append-nil _)
  graph-dependents k (n ∷ nodes) deg m d = ground (
    arith,
    graph-dependents k nodes (insert n.name (pos (length n.deps)) deg)
        (add_dependents n.name n.deps m) d.1,
    dependents-add k n.name n.deps m d.0,
    append_assoc (dependents_of k m) (n.name ∷ []) (users k nodes),
  )

  pub graph-degree_other :
      (k : K) (nodes : List (Node K)) (deg : Dict K ℤ) (m : Dict K (List K))
      → contains (names nodes) k ≡ false
      → degree k (graph nodes deg m).0 ≡ degree k deg
  unfolding graph
  graph-degree_other k [] deg m h = refl
  graph-degree_other k (n ∷ nodes) deg m h = ground (
    arith,
    graph-degree_other k nodes (insert n.name (pos (length n.deps)) deg)
        (add_dependents n.name n.deps m),
    lookup-insert n.name k (pos (length n.deps)) deg,
  )

  pub graph-degree :
      (k : K) (nodes : List (Node K)) (deg : Dict K ℤ) (m : Dict K (List K))
      → IsDistinct (names nodes)
      → contains (names nodes) k ≡ true
      → degree k (graph nodes deg m).0 ≡ pos (length (deps_of k nodes))
  unfolding graph
  graph-degree k [] deg m d h = ground arith
  graph-degree k (n ∷ nodes) deg m d h = ground (
    arith,
    graph-degree k nodes (insert n.name (pos (length n.deps)) deg) (add_dependents n.name n.deps m)
        d.1,
    graph-degree_other k nodes (insert n.name (pos (length n.deps)) deg)
        (add_dependents n.name n.deps m),
    lookup-insert n.name k (pos (length n.deps)) deg,
    ==_iff n.name k,
  )

  -- A name stands once among the users of each of its dependencies.
  pub count-users :
      (k d : K) (nodes : List (Node K))
      → IsDistinct (names nodes)
      → count k (users d nodes)
        ≡ (if contains (names nodes) k && contains (deps_of k nodes) d then 1 else 0)
  count-users k d [] h = refl
  count-users k d (n ∷ nodes) h = ground (arith, count-users k d nodes h.1, ==_iff n.name k)
