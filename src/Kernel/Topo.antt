-- ===== src/Kernel/Topo.antt =====
-- pkg/kernel/loader.go, `topoSort`, over any type of names that `==` compares. A node is a plugin's
-- name with its dependencies, and the order of a list of nodes is the order in which `range`
-- happens to visit the map.
pub mod Graph
pub mod Release
pub mod Loop
pub mod Order
pub mod Correct
use golang_gin_rpc.Base.{
  ℕ, zero, suc, Bool, true, false, not, Option, none, some, List, [], ◌∷◌, ◌++◌, map, Eq, ◌==◌,
  Dict, lookup, insert, length, contains, eqb, if◌then◌else◌,
}
use golang_gin_rpc.Base.Int.{ℤ, pos, negsuc}
use golang_gin_rpc.Kernel.Sort.{sort_slice_stable}

pub record Node (K : Type 0) : Type 0 where
  pub name : K
  pub deps : List K

abbrev pub names : {K : Type 0} → List (Node K) → List K
names [] = []
names (n ∷ nodes) = n.name ∷ names nodes

-- `x--`, and the test of the result for 0.
abbrev pub lowered : ℤ → ℤ
lowered (pos zero) = negsuc 0
lowered (pos (suc n)) = pos n
lowered (negsuc n) = negsuc (suc n)

abbrev pub is_zero : ℤ → Bool
is_zero (pos n) = eqb n 0
is_zero (negsuc n) = false

pub data Result (K : Type 0) : Type 0 where
  ordered : List K → Result K
  cycle : List K → Result K

module _ {K : Type 0} ⦃e : Eq K⦄ where
  -- A missing key reads as the zero value.
  abbrev pub degree : K → Dict K ℤ → ℤ
  degree k m = elim (lookup k m) [ none ↦ pos 0 | some x ↦ x ]

  abbrev pub dependents_of : K → Dict K (List K) → List K
  dependents_of k m = elim (lookup k m) [ none ↦ [] | some x ↦ x ]

  -- `for _, dep := range deps { dependents[dep] = append(dependents[dep], name) }`
  unfoldable pub add_dependents : K → List K → Dict K (List K) → Dict K (List K)
  add_dependents name [] m = m
  add_dependents name (dep ∷ deps) m =
      add_dependents name deps (insert dep (dependents_of dep m ++ (name ∷ [])) m)

  -- The first loop over the plugins.
  unfoldable pub graph : List (Node K) → Dict K ℤ → Dict K (List K) → Dict K ℤ × Dict K (List K)
  graph [] indegree dependents = (indegree, dependents)
  graph (n ∷ nodes) indegree dependents =
      graph nodes (insert n.name (pos (length n.deps)) indegree)
        (add_dependents n.name n.deps dependents)

  -- The second loop: the plugins without dependencies.
  unfoldable pub roots : List K → Dict K ℤ → List K
  roots [] indegree = []
  roots (k ∷ ks) indegree =
      if is_zero (degree k indegree) then k ∷ roots ks indegree else roots ks indegree

  -- `for _, next := range dependents[name]`
  unfoldable pub release : List K → Dict K ℤ → List K → Dict K ℤ × List K
  release [] indegree queue = (indegree, queue)
  release (next ∷ rest) indegree queue =
      let d = lowered (degree next indegree) in
      release rest (insert next d indegree) (if is_zero d then queue ++ (next ∷ []) else queue)

  -- `for len(queue) > 0`; `none` means that the fuel ran out.
  unfoldable pub kahn :
      ℕ → (K → K → Bool) → Dict K (List K) → Dict K ℤ → List K → List K → Option (List K)
  kahn zero by_seq dependents indegree queue order = none
  kahn (suc fuel) by_seq dependents indegree [] order = some order
  kahn (suc fuel) by_seq dependents indegree (name ∷ queue) order =
      let (indegree', queue') = release (dependents_of name dependents) indegree queue in
      kahn fuel by_seq dependents indegree' (sort_slice_stable by_seq queue') (order ++ (name ∷ []))

  -- The names that are not in the order.
  unfoldable pub remaining : List K → List K → List K
  remaining [] order = []
  remaining (k ∷ ks) order =
      if not (contains order k) then k ∷ remaining ks order else remaining ks order

  -- `visited` and `listed` are the names in the order in which the second and the last `range`
  -- visit the map; `less` compares names as texts.
  unfoldable pub topo_sort :
      (K → K → Bool) → (K → K → Bool) → List (Node K) → List K → List K → Option (Result K)
  topo_sort by_seq less nodes visited listed =
      let (indegree, dependents) = graph nodes [] [] in
      let queue = sort_slice_stable by_seq (roots visited indegree) in
      elim (kahn (suc (length nodes)) by_seq dependents indegree queue []) [
        | none ↦ none
        | some order ↦ some (
            if not (eqb (length order) (length nodes))
            then cycle (sort_slice_stable less (remaining listed order))
            else ordered order)
      ]
