-- ===== src/Balancer/Balance.antt =====
-- plugins/loadbalancer/strategies.go: the counts of the connections over many selections.
use golang_gin_rpc.Base.{
  ℕ, zero, suc, ◌+◌, ◌<◌, ◌≡◌, refl, sym, ◌∙◌, subst, true, Bool-cases, List, [], ◌∷◌, arith, ◌⊎◌,
  inl, inr, nat_eq, ◌==◌, ==_iff, if◌then◌else◌, eqb_iff, All, contains, string_eq,
}
use golang_gin_rpc.Base.Int.{pos, ◌≤ℤ◌}
use golang_gin_rpc.Balancer.{
  Store, Balancer, connections, one_more, least, add_connection, healthy_targets, select_least,
}
use golang_gin_rpc.Balancer.LeastConnections.{least-mem, least-le, healthy-add_connection}

-- Every count is the number or one more.
abbrev pub IsBalanced : ℕ → Store → List ℕ → Type 0
IsBalanced m store targets =
    All (λ p. (connections store p ≡ pos m) ⊎ (connections store p ≡ pos (suc m))) targets

balanced_at :
    (m : ℕ) (store : Store) (targets : List ℕ) (p : ℕ)
    → IsBalanced m store targets
    → contains targets p ≡ true
    → (connections store p ≡ pos m) ⊎ (connections store p ≡ pos (suc m))
balanced_at m store [] p b h = cc
balanced_at m store (q ∷ targets) p b h = elim (Bool-cases (q == p)) [
  | inl e ↦ rw (sym ((==_iff q p).0 e)) b.0
  | inr n ↦ balanced_at m store targets p b.1 (rw n at h)
]

connections-add :
    (s q : ℕ) (store : Store)
    → connections (add_connection s store) q
      ≡ (if s == q then one_more (connections store q) else connections store q)
unfolding add_connection
connections-add s q store = ground (arith, eqb_iff s q)

-- The one selected had the smaller count.
IsBalanced-low :
    (m s : ℕ) (store : Store) (targets : List ℕ)
    → m < 2147483647
    → connections store s ≡ pos m
    → IsBalanced m store targets
    → IsBalanced m (add_connection s store) targets
IsBalanced-low m s store [] h e b = tt
IsBalanced-low m s store (q ∷ targets) h e b = (
  ground (arith, connections-add s q store, eqb_iff s q),
  IsBalanced-low m s store targets h e b.1,
)

-- All had the greater one.
IsBalanced-high :
    (m s : ℕ) (store : Store) (targets : List ℕ)
    → suc m < 2147483647
    → All (λ q. pos (suc m) ≤ℤ connections store q) targets
    → IsBalanced m store targets
    → IsBalanced (suc m) (add_connection s store) targets
IsBalanced-high m s store [] h l b = tt
IsBalanced-high m s store (q ∷ targets) h l b = (
  ground (arith, connections-add s q store, eqb_iff s q),
  IsBalanced-high m s store targets h l.1 b.1,
)

unfoldable pub select_times : ℕ → Store → Balancer → Store
select_times zero store lb = store
select_times (suc k) store lb = select_times k (select_least store lb).0 lb

IsBalanced-step :
    (m p : ℕ) (rest : List ℕ) (store : Store)
    → suc m < 2147483647
    → IsBalanced m store (p ∷ rest)
    → IsBalanced m (add_connection (least store p rest) store) (p ∷ rest)
      ⊎ IsBalanced (suc m) (add_connection (least store p rest) store) (p ∷ rest)
IsBalanced-step m p rest store h b =
    let s = least store p rest in
    elim (balanced_at m store (p ∷ rest) s b (least-mem store p rest)) [
      | inl low ↦ inl (IsBalanced-low m s store (p ∷ rest) (omega arith) low b)
      | inr high ↦
          inr (IsBalanced-high m s store (p ∷ rest) h (least-le store p rest (pos (suc m)) high) b)
    ]

select_least-cons :
    (p : ℕ) (rest : List ℕ) (store : Store) (lb : Balancer)
    → healthy_targets store lb ≡ p ∷ rest
    → (select_least store lb).0 ≡ add_connection (least store p rest) store
unfolding select_least
select_least-cons p rest store lb e = rw (e, select_least)

IsBalanced-times :
    (k m : ℕ) (targets : List ℕ) (store : Store) (lb : Balancer)
    → healthy_targets store lb ≡ targets
    → m + k < 2147483647
    → IsBalanced m store targets
    → (n : ℕ) × IsBalanced n (select_times k store lb) targets
unfolding select_times
IsBalanced-times k m [] store lb e h b = (m, tt)
IsBalanced-times zero m (p ∷ rest) store lb e h b = (m, b)
IsBalanced-times (suc k) m (p ∷ rest) store lb e h b =
    let s = least store p rest in
    let e' : healthy_targets (add_connection s store) lb ≡ p ∷ rest =
      healthy-add_connection s store lb ∙ e in
    subst (λ (x : Store). (n : ℕ) × IsBalanced n (select_times k x lb) (p ∷ rest))
      (sym (select_least-cons p rest store lb e))
      (elim (IsBalanced-step m p rest store (omega arith) b) [
        | inl low ↦ IsBalanced-times k m (p ∷ rest) (add_connection s store) lb e' (omega arith) low
        | inr high ↦
            IsBalanced-times k (suc m) (p ∷ rest) (add_connection s store) lb e' (omega arith) high
      ])

All-zero :
    (store : Store) (targets : List ℕ)
    → All (λ p. connections store p ≡ pos 0) targets
    → IsBalanced 0 store targets
All-zero store [] h = tt
All-zero store (p ∷ targets) h = (inl h.0, All-zero store targets h.1)

-- The least connections selection keeps the targets level: from targets without connections, after
-- any number of selections and no release, the counts of any two healthy targets (any two, where
-- health is not checked) differ by one at most. There are fewer selections than a signed 32-bit
-- counter counts, and the health of the targets stays as it is.
pub select_times-level :
    (k : ℕ) (store : Store) (lb : Balancer)
    → k < 2147483647
    → All (λ p. connections store p ≡ pos 0) (healthy_targets store lb)
    → (m : ℕ) × IsBalanced m (select_times k store lb) (healthy_targets store lb)
select_times-level k store lb h z =
    IsBalanced-times k 0 (healthy_targets store lb) store lb refl (omega arith)
      (All-zero store (healthy_targets store lb) z)
