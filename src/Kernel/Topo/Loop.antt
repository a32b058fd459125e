-- ===== src/Kernel/Topo/Loop.antt =====
-- The invariant of the loop of `topoSort`.
use golang_gin_rpc.Base.{
  ℕ, zero, suc, ◌+◌, ◌≤◌, ◌<◌, ◌≡◌, refl, ap, Bool, true, false, ◌&&◌, List, [], ◌∷◌, ◌++◌, arith,
  Eq, ◌==◌, ==_iff, ==_self, Dict, length, length-append, contains, contains-append, IsDistinct,
  Bool-cases, inl, inr, some, if◌then◌else◌, eqb,
}
use mathlib.Core.List.{append-nil, append_assoc}
use golang_gin_rpc.Base.Int.{ℤ, pos}
use golang_gin_rpc.Base.Count.{count, count-append, contains-count, count-IsDistinct, length-le}
use golang_gin_rpc.Kernel.Sort.{sort_slice_stable, count-sort}
use golang_gin_rpc.Kernel.Topo.{Node, names, degree, dependents_of, release, kahn}
use golang_gin_rpc.Kernel.Topo.Graph.{deps_of, users, AllDistinct, count-users}
use golang_gin_rpc.Kernel.Topo.Release.{release-degree, release-queue, release-queue_other}

module _ {K : Type 0} ⦃e : Eq K⦄ where
  -- How many of the dependencies are not in the order yet.
  abbrev pub missing : List K → List K → ℕ
  missing order [] = 0
  missing order (d ∷ ds) = if contains order d then missing order ds else suc (missing order ds)

  pub missing-append :
      (order : List K) (x : K) (ds : List K)
      → contains order x ≡ false
      → missing order ds ≡ missing (order ++ (x ∷ [])) ds + count x ds
  missing-append order x [] h = omega arith
  missing-append order x (d ∷ ds) h =
      ground (
        arith,
        missing-append order x ds h,
        contains-append order (x ∷ []) d,
        ==_iff x d,
        ==_iff d x,
      )

  deps-IsDistinct :
      (k : K) (nodes : List (Node K)) → AllDistinct nodes → IsDistinct (deps_of k nodes)
  deps-IsDistinct k [] a = tt
  deps-IsDistinct k (n ∷ nodes) a = elim (Bool-cases (n.name == k)) [
    | inl same ↦ rw same a.0
    | inr other ↦ rw other (deps-IsDistinct k nodes a.1)
  ]

module _ {K : Type 0} ⦃e : Eq K⦄ (nodes : List (Node K)) where
  -- A name is ready when it is a node's and none of its dependencies is missing.
  abbrev pub ready : List K → K → ℕ
  ready order v =
      if contains (names nodes) v && eqb (missing order (deps_of v nodes)) 0 then 1 else 0

  -- Every name in the rest comes after its dependencies.
  abbrev pub Respects : List K → List K → Type 0
  Respects seen [] = Unit
  Respects seen (n ∷ rest) = (missing seen (deps_of n nodes) ≡ 0) × Respects (seen ++ (n ∷ [])) rest

  pub record Inv (deg : Dict K ℤ) (queue order : List K) : Type 0 where
    pub placed : (v : K) → count v order + count v queue ≡ ready order v
    pub degrees :
        (v : K)
        → contains (names nodes) v ≡ true
        → degree v deg ≡ pos (missing order (deps_of v nodes))
    pub respects : Respects [] order

  Respects-append :
      (seen order : List K) (x : K)
      → Respects seen order
      → missing (seen ++ order) (deps_of x nodes) ≡ 0
      → Respects seen (order ++ (x ∷ []))
  Respects-append seen [] x r m = (rw (append-nil seen) at m, tt)
  Respects-append seen (n ∷ order) x r m =
      (r.0, Respects-append (seen ++ (n ∷ [])) order x r.1 (rw append_assoc m))

module _ {K : Type 0} ⦃e : Eq K⦄ (nodes : List (Node K)) (u : IsDistinct (names nodes))
    (a : AllDistinct nodes) where
  -- The name at the head of the queue is new, and the loop has put its dependencies in the order.
  head_ready :
      (deg : Dict K ℤ) (x : K) (queue order : List K)
      → Inv nodes deg (x ∷ queue) order
      → (contains order x ≡ false)
        × (contains (names nodes) x ≡ true)
        × (missing order (deps_of x nodes) ≡ 0)
        × (count x queue ≡ 0)
  head_ready deg x queue order v = ground (arith, v.placed x, contains-count x order, ==_self x)

  step_degrees :
      (deg : Dict K ℤ) (x v : K) (queue order : List K)
      → Inv nodes deg (x ∷ queue) order
      → contains (names nodes) v ≡ true
      → degree v (release (users x nodes) deg queue).0
        ≡ pos (missing (order ++ (x ∷ [])) (deps_of v nodes))
  step_degrees deg x v queue order i c = ground (
    arith,
    release-degree v (users x nodes) deg queue (missing order (deps_of v nodes)),
    i.degrees v c,
    count-users v x nodes u,
    contains-count x (deps_of v nodes),
    count-IsDistinct x (deps_of v nodes) (deps-IsDistinct v nodes a),
    missing-append order x (deps_of v nodes),
    head_ready deg x queue order i,
  )

  step_placed :
      (deg : Dict K ℤ) (x v : K) (queue order : List K)
      → Inv nodes deg (x ∷ queue) order
      → count v (order ++ (x ∷ [])) + count v (release (users x nodes) deg queue).1
        ≡ ready nodes (order ++ (x ∷ [])) v
  step_placed deg x v queue order i = elim (Bool-cases (contains (names nodes) v)) [
    | inl c ↦ ground (
      arith,
      c,
      release-queue v (users x nodes) deg queue (missing order (deps_of v nodes)),
      i.degrees v c,
      i.placed v,
      count-append v order (x ∷ []),
      count-users v x nodes u,
      contains-count x (deps_of v nodes),
      count-IsDistinct x (deps_of v nodes) (deps-IsDistinct v nodes a),
      missing-append order x (deps_of v nodes),
      head_ready deg x queue order i,
    )
    | inr c ↦ ground (
      arith,
      c,
      release-queue_other v (users x nodes) deg queue,
      i.placed v,
      count-append v order (x ∷ []),
      count-users v x nodes u,
      ==_iff x v,
      head_ready deg x queue order i,
    )
  ]

  step-Inv :
      (less : K → K → Bool) (deg : Dict K ℤ) (x : K) (queue order : List K)
      → Inv nodes deg (x ∷ queue) order
      → Inv nodes
          (release (users x nodes) deg queue).0
          (sort_slice_stable less (release (users x nodes) deg queue).1)
          (order ++ (x ∷ []))
  step-Inv less deg x queue order i = record {
    placed = λ v. rw (count-sort less v _) (step_placed deg x v queue order i);
    degrees = λ v c. step_degrees deg x v queue order i c;
    respects = Respects-append nodes [] order x i.respects (head_ready deg x queue order i).2;
  }

  pub names-length : (ns : List (Node K)) → length (names ns) ≡ length ns
  names-length [] = refl
  names-length (n ∷ ns) = ap suc (names-length ns)

  pub order-short :
      (deg : Dict K ℤ) (queue order : List K)
      → Inv nodes deg queue order
      → length order ≤ length nodes
  order-short deg queue order i = rw (names-length nodes) at (
      length-le order (names nodes)
        (λ v. ground (arith, i.placed v, contains-count v (names nodes))))

  -- The loop ends with an empty queue: the fuel is more than the names that are left.
  pub kahn-Inv :
      (less : K → K → Bool) (m : Dict K (List K)) (fuel : ℕ) (deg : Dict K ℤ) (queue order : List K)
      → ((k : K) → dependents_of k m ≡ users k nodes)
      → length nodes < fuel + length order
      → Inv nodes deg queue order
      → (o : List K) × (deg' : Dict K ℤ) × (kahn fuel less m deg queue order ≡ some o)
        × Inv nodes deg' [] o
  unfolding kahn
  kahn-Inv less m zero deg queue order h f i = absurd (omega (arith, order-short deg queue order i))
  kahn-Inv less m (suc fuel) deg [] order h f i = (order, deg, refl, i)
  kahn-Inv less m (suc fuel) deg (x ∷ queue) order h f i =
      let (o, deg', e, i') =
        kahn-Inv less m fuel (release (users x nodes) deg queue).0
          (sort_slice_stable less (release (users x nodes) deg queue).1) (order ++ (x ∷ [])) h
          (omega (arith, length-append order (x ∷ []))) (step-Inv less deg x queue order i) in
      (o, deg', rw (h x) e, i')
