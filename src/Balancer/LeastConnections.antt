-- ===== src/Balancer/LeastConnections.antt =====
-- plugins/loadbalancer/strategies.go: which target the least connections selection takes, and what
-- follows for the counts of the connections.
use golang_gin_rpc.Base.{
  ℕ, ◌≡◌, ◌≢◌, refl, true, Bool-cases, List, [], ◌∷◌, arith, inl, inr, nat_eq, ==_iff, ==_self,
  eqb_iff, All, contains, string_eq,
}
use golang_gin_rpc.Base.Int.{ℤ, lt_int, ◌≤ℤ◌}
use golang_gin_rpc.Balancer.{
  Store, Balancer, Selected, target, failed, panicked, connections, one_more, least, add_connection,
  healthy_targets, only_healthy, select_least,
}

pub least-mem :
    (store : Store) (p : ℕ) (targets : List ℕ)
    → contains (p ∷ targets) (least store p targets) ≡ true
unfolding least
least-mem store p [] = ground (arith, ==_self p)
least-mem store p (q ∷ targets) =
    ground (arith, least-mem store p targets, least-mem store q targets, ==_iff p q)

pub least-le :
    (store : Store) (p : ℕ) (targets : List ℕ) (z : ℤ)
    → connections store (least store p targets) ≡ z
    → (z ≤ℤ connections store p) × All (λ q. z ≤ℤ connections store q) targets
unfolding least
least-le store p [] z e = (rw e (omega arith), tt)
least-le store p (q ∷ targets) z e =
    elim (Bool-cases (lt_int (connections store q) (connections store p))) [
      | inl lt ↦ let (h, hs) = least-le store q targets z (rw lt at e) in (ground arith, (h, hs))
      | inr ge ↦ let (h, hs) = least-le store p targets z (rw ge at e) in (h, (ground arith, hs))
    ]

-- A connection more or less changes no target's health.
only_healthy-add_connection :
    (p : ℕ) (store : Store) (targets : List ℕ)
    → only_healthy (add_connection p store) targets ≡ only_healthy store targets
unfolding only_healthy add_connection
only_healthy-add_connection p store [] = refl
only_healthy-add_connection p store (q ∷ targets) =
    ground (arith, only_healthy-add_connection p store targets)

pub healthy-add_connection :
    (p : ℕ) (store : Store) (lb : Balancer)
    → healthy_targets (add_connection p store) lb ≡ healthy_targets store lb
unfolding healthy_targets
healthy-add_connection p store lb = rw (only_healthy-add_connection p store lb.targets)

-- What a selection of a target leaves: the target is among the given ones and none of these has
-- fewer connections; its count is one more, and nothing else in the store has changed.
abbrev pub IsLeast : List ℕ → Store → Store × Selected → Type 0
IsLeast targets store (store', target p) =
    (contains targets p ≡ true)
    × All (λ q. connections store p ≤ℤ connections store q) targets
    × (store' p ≡ record (store p) { connection_count = one_more (connections store p) })
    × ((q : ℕ) → p ≢ q → store' q ≡ store q)
IsLeast targets store (store', failed e) = (targets ≡ []) × (store' ≡ store)
IsLeast targets store (store', panicked) = ⊥

pub add_connection_self :
    (p : ℕ) (store : Store)
    → add_connection p store p
      ≡ record (store p) { connection_count = one_more (connections store p) }
unfolding add_connection
add_connection_self p store = rw (==_self p)

pub add_connection-other : (p q : ℕ) (store : Store) → p ≢ q → add_connection p store q ≡ store q
unfolding add_connection
add_connection-other p q store h = ground (arith, eqb_iff p q)

select_least_of :
    (targets : List ℕ) (store : Store) (lb : Balancer)
    → healthy_targets store lb ≡ targets
    → IsLeast targets store (select_least store lb)
unfolding select_least
select_least_of [] store lb e = rw (e, select_least) (refl, refl)
select_least_of (p ∷ rest) store lb e =
    let s = least store p rest in
    rw (e, select_least)
      (
        least-mem store p rest,
        least-le store p rest (connections store s) refl,
        add_connection_self s store,
        λ q h. add_connection-other s q store h,
      )

-- The least connections selection returns one of the healthy targets (of all, where health is not
-- checked) such that none of them has fewer connections, counts one connection more for it, in 32
-- bits, and changes nothing else of any target. It gives the error that there are no targets exactly
-- when none is healthy, and then changes nothing.
pub select_least-IsLeast :
    (store : Store) (lb : Balancer)
    → IsLeast (healthy_targets store lb) store (select_least store lb)
select_least-IsLeast store lb = select_least_of (healthy_targets store lb) store lb refl
