-- ===== src/Balancer/Release.antt =====
-- plugins/loadbalancer/strategies.go: a selection by least connections and its release.
use golang_gin_rpc.Base.{
  ℕ, zero, suc, ◌≡◌, refl, sym, ◌∙◌, ap, subst, true, false, Bool-cases, Option, none, List, [],
  ◌∷◌, arith, inl, inr, nat_eq, ◌==◌, ==_iff, ==_self, eqb_iff, contains, string_eq,
}
use golang_gin_rpc.Base.Int.{ℤ, pos, negsuc, ◌≤ℤ◌}
use golang_gin_rpc.Balancer.{
  Store, Balancer, Selected, target, failed, panicked, update, connections, one_more, one_less,
  least, add_connection, healthy_targets, only_healthy, select_least, release_from,
  release_connection, Err,
}
use golang_gin_rpc.Balancer.LeastConnections.{least-mem}
use mathlib.Core.Path.{fun_ext}

-- No two targets in the list have one address.
abbrev pub AddressesDiffer : Store → List ℕ → Type 0
AddressesDiffer store targets =
    (p q : ℕ)
    → contains targets p ≡ true
    → contains targets q ≡ true
    → (store p).address ≡ (store q).address
    → p ≡ q

-- A 32-bit count.
abbrev pub IsInt32 : ℤ → Type 0
IsInt32 z = (negsuc 2147483647 ≤ℤ z) × (z ≤ℤ pos 2147483647)

one_less-one_more : (z : ℤ) → IsInt32 z → one_less (one_more z) ≡ z
one_less-one_more (pos n) h = ground arith
one_less-one_more (negsuc zero) h = refl
one_less-one_more (negsuc (suc n)) h = ground arith

abbrev lowered : ℕ → Store → Store
lowered p store =
    update store p (record (store p) { connection_count = one_less (connections store p) })

released :
    (p : ℕ) (store : Store)
    → IsInt32 (connections store p)
    → lowered p (add_connection p store) ≡ store
unfolding add_connection
released p store h =
    fun_ext λ q. ground (arith, one_less-one_more (connections store p) h, eqb_iff p q, ==_self p)

address-add : (p q : ℕ) (store : Store) → (add_connection p store q).address ≡ (store q).address
unfolding add_connection
address-add p q store = ground (arith, eqb_iff p q)

abbrev answered : Store → Store × Option Err
answered store = (store, none)

release_from-added :
    (p : ℕ) (store : Store) (targets : List ℕ)
    → contains targets p ≡ true
    → ((q : ℕ) → contains targets q ≡ true → (store p).address ≡ (store q).address → p ≡ q)
    → IsInt32 (connections store p)
    → release_from (store p).address targets (add_connection p store) ≡ (store, none)
unfolding release_from
release_from-added p store [] mem differ h = cc
release_from-added p store (q ∷ targets) mem differ h =
    elim (Bool-cases ((add_connection p store q).address == (store p).address)) [
      | inl same ↦
          let a : (store p).address ≡ (store q).address =
            sym ((==_iff (add_connection p store q).address (store p).address).0 same)
            ∙ address-add p q store in
          let e : p ≡ q = differ q (ground (arith, ==_self q)) a in
          rw same (
            subst (λ (x : ℕ). answered (lowered x (add_connection p store)) ≡ answered store) e
              (ap answered (released p store h)))
      | inr other ↦ rw other (
          release_from-added p store targets (later other)
            (λ r m. differ r (ground (arith, ==_iff q r))) h)
    ]
  where
    later :
        ((add_connection p store q).address == (store p).address) ≡ false
        → contains targets p ≡ true
    later other = ground (
      arith,
      address-add p q store,
      ==_self (store p).address,
      ==_iff q p,
      ap (λ r. (store r).address) {x = q} {y = p},
    )

only_healthy-mem :
    (store : Store) (targets : List ℕ) (p : ℕ)
    → contains (only_healthy store targets) p ≡ true
    → contains targets p ≡ true
unfolding only_healthy
only_healthy-mem store [] p h = h
only_healthy-mem store (q ∷ targets) p h = ground (arith, only_healthy-mem store targets p)

healthy_targets-mem :
    (store : Store) (lb : Balancer) (p : ℕ)
    → contains (healthy_targets store lb) p ≡ true
    → contains lb.targets p ≡ true
unfolding healthy_targets
healthy_targets-mem store lb p h = ground (arith, only_healthy-mem store lb.targets p)

-- What ReleaseConnection at the address of the selected target leaves.
abbrev pub Restores : Balancer → Store → Store × Selected → Type 0
Restores lb store (store', target p) =
    release_connection (store p).address lb store' ≡ (store, none)
Restores lb store (store', failed e) = store' ≡ store
Restores lb store (store', panicked) = ⊥

release_of :
    (targets : List ℕ) (store : Store) (lb : Balancer)
    → healthy_targets store lb ≡ targets
    → AddressesDiffer store lb.targets
    → ((p : ℕ) → IsInt32 (connections store p))
    → Restores lb store (select_least store lb)
unfolding select_least release_connection
release_of [] store lb e d h = rw (e, select_least) refl
release_of (p ∷ rest) store lb e d h =
    let s = least store p rest in
    let mem : contains lb.targets s ≡ true =
      healthy_targets-mem store lb s (rw e (least-mem store p rest)) in
    rw (e, select_least) (release_from-added s store lb.targets mem (λ q m. d s q mem m) (h s))

-- ReleaseConnection undoes a selection by least connections: called with the address of the target
-- that the selection returned, it succeeds and leaves every target as it was before the selection.
-- The targets of the balancer have different addresses, and the counts are of 32 bits.
pub release-select_least :
    (store : Store) (lb : Balancer)
    → AddressesDiffer store lb.targets
    → ((p : ℕ) → IsInt32 (connections store p))
    → Restores lb store (select_least store lb)
release-select_least store lb d h = release_of (healthy_targets store lb) store lb refl d h
