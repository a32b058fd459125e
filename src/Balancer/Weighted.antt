-- ===== src/Balancer/Weighted.antt =====
-- plugins/loadbalancer/strategies.go: how the weights share the random numbers out.
use golang_gin_rpc.Base.{
  ℕ, zero, suc, ◌+◌, ◌≤◌, ◌<◌, ◌≡◌, refl, ◌∙◌, ap, ap₂, true, false, Bool-cases, ◌&&◌, none, some,
  List, [], ◌∷◌, ◌++◌, arith, inl, inr, nat_eq, ◌==◌, if◌then◌else◌, ltb, eqb, u64, Option,
}
use golang_gin_rpc.Base.Count.{count, count-append}
use golang_gin_rpc.Balancer.{
  Store, Balancer, healthy_targets, share, total_weight, pick, select_weighted,
}
use golang_gin_rpc.Balancer.RoundRobin.{chosen_by}

-- The weights that are positive, added up.
unfoldable pub weight_sum : Store → List ℕ → ℕ
weight_sum store [] = 0
weight_sum store (p ∷ targets) = share (store p).weight + weight_sum store targets

total-sum :
    (store : Store) (targets : List ℕ)
    → weight_sum store targets < 9223372036854775808
    → total_weight store targets ≡ weight_sum store targets
unfolding total_weight weight_sum
total-sum store [] w = refl
total-sum store (p ∷ targets) w =
    let rest = total-sum store targets (omega arith) in ground (arith, rest)

-- The loop over the weights where no sum wraps.
plain_pick : Store → List ℕ → ℕ → ℕ → Option ℕ
plain_pick store [] roll current = none
plain_pick store (p ∷ targets) roll current =
    let w = share (store p).weight in
    let rest = plain_pick store targets roll (current + w) in
    if ltb 0 w && ltb roll (current + w) then some p else rest

pick-plain :
    (store : Store) (targets : List ℕ) (roll current : ℕ)
    → current + weight_sum store targets < 9223372036854775808
    → pick store targets roll current ≡ plain_pick store targets roll current
unfolding pick plain_pick weight_sum
pick-plain store [] roll current h = refl
pick-plain store (p ∷ targets) roll current h =
    let w = share (store p).weight in
    let s : u64 (current + w) ≡ current + w = omega arith in
    let i : ltb (current + w) 9223372036854775808 ≡ true = ground arith in
    let rest = pick-plain store targets roll (current + w) (omega arith) in
    ground (arith, s, i, rest)

-- The targets that are chosen for the random numbers from one on, a number of them.
picks : Store → List ℕ → ℕ → ℕ → ℕ → List ℕ
picks store targets current roll zero = []
picks store targets current roll (suc k) =
    elim (plain_pick store targets roll current) [ none ↦ [] | some p ↦ p ∷ [] ]
    ++ picks store targets current (roll + 1) k

-- The weights of a target, added up over its places in the list.
unfoldable pub weight_of : Store → ℕ → List ℕ → ℕ
weight_of store v [] = 0
weight_of store v (p ∷ targets) =
    (if p == v then share (store p).weight else 0) + weight_of store v targets

-- The numbers below the bound of the first target go to it.
count-picks-head :
    (v p : ℕ) (store : Store) (targets : List ℕ) (current roll k : ℕ)
    → current ≤ roll
    → roll + k ≤ current + share (store p).weight
    → count v (picks store (p ∷ targets) current roll k) ≡ (if p == v then k else 0)
unfolding picks plain_pick
count-picks-head v p store targets current roll zero h b = ground arith
count-picks-head v p store targets current roll (suc k) h b =
    let w : ltb 0 (share (store p).weight) ≡ true = ground arith in
    let r : ltb roll (current + share (store p).weight) ≡ true = ground arith in
    rw (w, r)
      (ground (
        arith,
        count-picks-head v p store targets current (roll + 1) k,
        count-append v (p ∷ []) (picks store (p ∷ targets) current (roll + 1) k),
      ))

-- The others go to the targets after it.
picks-tail :
    (p : ℕ) (store : Store) (targets : List ℕ) (current roll k : ℕ)
    → current + share (store p).weight ≤ roll
    → picks store (p ∷ targets) current roll k
      ≡ picks store targets (current + share (store p).weight) roll k
unfolding picks plain_pick
picks-tail p store targets current roll zero h = refl
picks-tail p store targets current roll (suc k) h =
    let r : ltb roll (current + share (store p).weight) ≡ false = ground arith in
    elim (Bool-cases (ltb 0 (share (store p).weight))) [
      | inl w ↦ rw (w, r, picks-tail p store targets current (roll + 1) k (omega arith))
      | inr w ↦ rw (w, picks-tail p store targets current (roll + 1) k (omega arith))
    ]

count-picks-add :
    (v : ℕ) (store : Store) (targets : List ℕ) (current roll j k : ℕ)
    → count v (picks store targets current roll (j + k))
      ≡ count v (picks store targets current roll j)
        + count v (picks store targets current (roll + j) k)
unfolding picks
count-picks-add v store targets current roll zero k = ground arith
count-picks-add v store targets current roll (suc j) k =
    let e : suc j + k ≡ suc (j + k) = omega arith in
    let d : roll + suc j ≡ roll + 1 + j = omega arith in
    let head : List ℕ = elim (plain_pick store targets roll current) [
      | none ↦ []
      | some p ↦ p ∷ []
    ] in
    rw
      (
        e,
        d,
        count-append v head (picks store targets current (roll + 1) (j + k)),
        count-append v head (picks store targets current (roll + 1) j),
        count-picks-add v store targets current (roll + 1) j k,
      )
      (omega arith)

count-picks :
    (v : ℕ) (store : Store) (targets : List ℕ) (current : ℕ)
    → count v (picks store targets current current (weight_sum store targets))
      ≡ weight_of store v targets
unfolding picks weight_of weight_sum
count-picks v store [] current = refl
count-picks v store (p ∷ targets) current =
    let w = share (store p).weight in
    count-picks-add v store (p ∷ targets) current current w (weight_sum store targets)
    ∙ ap₂ (λ a b. a + b)
        (count-picks-head v p store targets current current w (omega arith) (omega arith))
        (ap (count v) (
            picks-tail p store targets current (current + w) (weight_sum store targets)
              (omega arith))
          ∙ count-picks v store targets (current + w))

plain_pick-is_some :
    (store : Store) (targets : List ℕ) (roll current : ℕ)
    → current ≤ roll
    → roll < current + weight_sum store targets
    → (p : ℕ) × (plain_pick store targets roll current ≡ some p)
unfolding plain_pick weight_sum
plain_pick-is_some store [] roll current h b = absurd (omega arith)
plain_pick-is_some store (p ∷ targets) roll current h b =
    elim (Bool-cases
      (ltb 0 (share (store p).weight) && ltb roll (current + share (store p).weight))) [
        | inl here ↦ (p, rw here)
        | inr later ↦ rw later (
            plain_pick-is_some store targets roll (current + share (store p).weight) (ground arith)
              (omega arith))
      ]

-- The targets that the selection returns for the random numbers from one on.
unfoldable pub outcomes : Store → Balancer → ℕ → ℕ → List ℕ
outcomes store lb roll zero = []
outcomes store lb roll (suc k) =
    chosen_by (select_weighted (λ _. roll) store lb) ++ outcomes store lb (roll + 1) k

select-pick :
    (p : ℕ) (rest : List ℕ) (store : Store) (lb : Balancer) (roll : ℕ)
    → healthy_targets store lb ≡ p ∷ rest
    → weight_sum store (p ∷ rest) < 9223372036854775808
    → roll < weight_sum store (p ∷ rest)
    → chosen_by (select_weighted (λ _. roll) store lb)
      ≡ elim (plain_pick store (p ∷ rest) roll 0) [ none ↦ [] | some q ↦ q ∷ [] ]
unfolding select_weighted
select-pick p rest store lb roll e bound h =
    let total = total_weight store (p ∷ rest) in
    let t : total ≡ weight_sum store (p ∷ rest) = total-sum store (p ∷ rest) bound in
    let z : eqb total 0 ≡ false = ground (arith, t) in
    let i : ltb total 9223372036854775808 ≡ true = ground (arith, t) in
    let (q, found) = plain_pick-is_some store (p ∷ rest) roll 0 (omega arith) (omega arith) in
    let same = pick-plain store (p ∷ rest) roll 0 (omega arith) ∙ found in
    rw (e, z, i, same, found, select_weighted)

outcomes-picks :
    (p : ℕ) (rest : List ℕ) (store : Store) (lb : Balancer) (roll k : ℕ)
    → healthy_targets store lb ≡ p ∷ rest
    → weight_sum store (p ∷ rest) < 9223372036854775808
    → roll + k ≤ weight_sum store (p ∷ rest)
    → outcomes store lb roll k ≡ picks store (p ∷ rest) 0 roll k
unfolding outcomes picks
outcomes-picks p rest store lb roll zero e w h = refl
outcomes-picks p rest store lb roll (suc k) e w h =
    ap₂ (λ l r. l ++ r) (select-pick p rest store lb roll e w (omega arith))
      (outcomes-picks p rest store lb (roll + 1) k e w (omega arith))

outcomes_of :
    (v : ℕ) (targets : List ℕ) (store : Store) (lb : Balancer)
    → healthy_targets store lb ≡ targets
    → weight_sum store targets < 9223372036854775808
    → count v (outcomes store lb 0 (weight_sum store targets)) ≡ weight_of store v targets
unfolding outcomes weight_of weight_sum
outcomes_of v [] store lb e w = refl
outcomes_of v (p ∷ rest) store lb e w =
    ap (count v) (outcomes-picks p rest store lb 0 (weight_sum store (p ∷ rest)) e w (omega arith))
    ∙ count-picks v store (p ∷ rest) 0

-- The weighted selection is proportional: of the random numbers below the total weight, each target
-- is returned for exactly as many as its weight says, added up over its places among the healthy
-- targets (all targets, where health is not checked). A target with a weight that is not positive is
-- returned for none of them, and so is any that is not healthy. The weights that are positive add up
-- to less than 2^63, so that the sum does not wrap.
pub outcomes-weight :
    (store : Store) (lb : Balancer) (v : ℕ)
    → weight_sum store (healthy_targets store lb) < 9223372036854775808
    → count v (outcomes store lb 0 (total_weight store (healthy_targets store lb)))
      ≡ weight_of store v (healthy_targets store lb)
outcomes-weight store lb v w =
    let targets = healthy_targets store lb in
    ap (λ n. count v (outcomes store lb 0 n)) (total-sum store targets w)
    ∙ outcomes_of v targets store lb refl w
