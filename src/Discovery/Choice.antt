-- ===== src/Discovery/Choice.antt =====
-- plugins/discovery/loadbalancer.go: what NextInstance returns, and the index of the round robin.
use golang_gin_rpc.Base.{
  ℕ, zero, suc, ◌-◌, ◌%◌, ◌≤◌, ◌<◌, ◌≡◌, ◌≢◌, refl, true, false, Bool-cases, none, some,
  none-absurd, Option-cases, List, [], ◌∷◌, arith, inl, inr, String, string_eq, ◌==◌, length,
  get_elem?, eqb, ltb, Dict, All,
}
use golang_gin_rpc.Discovery.{
  ServiceInstance, Strategy, LoadBalancer, Answer, at_index, next_round_robin, instance_weight,
  is_above_zero, total_weight, pick_weighted, choose_weighted, get_connections, least_conn_from,
  hash_from, codes, choose_hashed, choose_ip_hash, dispatch, next_instance,
}
use golang_gin_rpc.Discovery.Strategy.{
  round_robin, random, weighted_random, least_conn, ip_hash, other,
}
use golang_gin_rpc.Discovery.Answer.{instance_of, no_instances, nil_instance, panicked}

abbrev pub IsOneOf : ServiceInstance → List ServiceInstance → Type 0
IsOneOf x xs = (i : ℕ) × (get_elem? xs i ≡ some x)

-- The answer is one of the instances.
abbrev pub IsChosen : List ServiceInstance → Answer → Type 0
IsChosen xs (instance_of x) = IsOneOf x xs
IsChosen xs no_instances = ⊥
IsChosen xs nil_instance = ⊥
IsChosen xs panicked = ⊥

get_elem-lt :
    (xs : List ServiceInstance) (i : ℕ)
    → i < length xs
    → (x : ServiceInstance) × (get_elem? xs i ≡ some x)
get_elem-lt [] i h = absurd (omega arith)
get_elem-lt (x ∷ xs) zero h = (x, refl)
get_elem-lt (x ∷ xs) (suc i) h = get_elem-lt xs i (omega arith)

pub get_elem-ge : (xs : List ServiceInstance) (i : ℕ) → length xs ≤ i → get_elem? xs i ≡ none
get_elem-ge [] i h = refl
get_elem-ge (x ∷ xs) zero h = absurd (omega arith)
get_elem-ge (x ∷ xs) (suc i) h = get_elem-ge xs i (omega arith)

at_index-IsChosen :
    (xs : List ServiceInstance) (i : ℕ) → i < length xs → IsChosen xs (at_index xs i)
at_index-IsChosen xs i h = let (x, e) = get_elem-lt xs i h in rw (e, IsChosen) (i, e)

IsOneOf-cons :
    (x y : ServiceInstance) (xs : List ServiceInstance) → IsOneOf x xs → IsOneOf x (y ∷ xs)
IsOneOf-cons x y xs (i, e) = (suc i, e)

pick_weighted-IsOneOf :
    (xs : List ServiceInstance) (goal : ℕ) (x : ServiceInstance)
    → pick_weighted xs goal ≡ some x
    → IsOneOf x xs
unfolding pick_weighted
pick_weighted-IsOneOf [] goal x e = none-absurd e
pick_weighted-IsOneOf (y ∷ xs) goal x e = elim (Bool-cases (ltb goal (instance_weight y))) [
  | inl here ↦ (0, rw here at e)
  | inr later ↦
      IsOneOf-cons x y xs (pick_weighted-IsOneOf xs (goal - instance_weight y) x (rw later at e))
]

choose_weighted-IsChosen :
    (intn : ℕ → ℕ) (xs : List ServiceInstance)
    → 0 < length xs
    → is_above_zero (total_weight xs) ≡ true
    → IsChosen xs (choose_weighted intn xs)
unfolding choose_weighted
choose_weighted-IsChosen intn xs h positive =
    elim (Option-cases (pick_weighted xs (intn (total_weight xs)))) [
      | inl e ↦
          rw (positive, e, choose_weighted, IsChosen)
            (at_index-IsChosen xs (length xs - 1) (omega arith))
      | inr (x, e) ↦
          rw (positive, e, choose_weighted, IsChosen)
            (pick_weighted-IsOneOf xs (intn (total_weight xs)) x e)
    ]

-- The instance has no more connections than the bound and than any of the list.
abbrev pub IsFewest : Dict String ℕ → List ServiceInstance → Answer → Type 0
IsFewest counts xs (instance_of x) =
    All (λ (y : ServiceInstance). get_connections x.id counts ≤ get_connections y.id counts) xs
IsFewest counts xs no_instances = ⊥
IsFewest counts xs nil_instance = ⊥
IsFewest counts xs panicked = ⊥

-- The loop ends with the instance that it began with or with one of the list.
least_from :
    (counts : Dict String ℕ) (x : ServiceInstance) (xs : List ServiceInstance)
    → (y : ServiceInstance) × (least_conn_from counts
          (get_connections x.id counts)
          (instance_of x)
          xs
        ≡ instance_of y)
      × IsOneOf y (x ∷ xs)
      × (get_connections y.id counts ≤ get_connections x.id counts)
      × All (λ (z : ServiceInstance). get_connections y.id counts ≤ get_connections z.id counts) xs
unfolding least_conn_from
least_from counts x [] = (x, refl, (0, refl), omega arith, tt)
least_from counts x (z ∷ xs) =
    elim (Bool-cases (ltb (get_connections z.id counts) (get_connections x.id counts))) [
      | inl lt ↦
          let (y, e, (i, at), le, all) = least_from counts z xs in
          (y, rw lt e, (suc i, at), ground arith, (le, all))
      | inr ge ↦
          let (y, e, (i, at), le, all) = least_from counts x xs in
          (y, rw ge e, skip y x z xs i at, le, (ground arith, all))
    ]
  where
    skip :
        (y x z : ServiceInstance) (xs : List ServiceInstance) (i : ℕ)
        → get_elem? (x ∷ xs) i ≡ some y
        → IsOneOf y (x ∷ z ∷ xs)
    skip y x z xs zero e = (0, e)
    skip y x z xs (suc i) e = (suc (suc i), e)

least_conn_from-IsFewest :
    (counts : Dict String ℕ) (xs : List ServiceInstance)
    → 0 < length xs
    → ((id : String) → get_connections id counts < 9223372036854775807)
    → IsChosen xs (least_conn_from counts 9223372036854775807 nil_instance xs)
      × IsFewest counts xs (least_conn_from counts 9223372036854775807 nil_instance xs)
unfolding least_conn_from
least_conn_from-IsFewest counts [] h b = absurd (omega arith)
least_conn_from-IsFewest counts (x ∷ xs) h b =
    let lt : ltb (get_connections x.id counts) 9223372036854775807 ≡ true =
      ground (arith, b x.id) in
    let (y, e, at, le, all) = least_from counts x xs in rw (lt, e) (at, (le, all))

choose_hashed-IsChosen :
    (xs : List ServiceInstance) (hash : ℕ)
    → 0 < length xs
    → hash ≢ 9223372036854775808
    → IsChosen xs (choose_hashed xs hash)
unfolding choose_hashed
choose_hashed-IsChosen xs hash h n = elim (Bool-cases (ltb hash 9223372036854775808)) [
  | inl low ↦ rw low (at_index-IsChosen xs (hash % length xs) (grind arith))
  | inr high ↦
      let e : eqb hash 9223372036854775808 ≡ false = ground arith in
      rw (high, e) (at_index-IsChosen xs ((18446744073709551616 - hash) % length xs) (grind arith))
]

choose_ip_hash-IsChosen :
    (xs : List ServiceInstance) (client_ip : String)
    → 0 < length xs
    → hash_from 0 (codes client_ip) ≢ 9223372036854775808
    → IsChosen xs (choose_ip_hash xs client_ip)
unfolding choose_ip_hash
choose_ip_hash-IsChosen xs client_ip h n = elim (Bool-cases (client_ip == "")) [
  | inl e ↦ rw e (at_index-IsChosen xs 0 h)
  | inr e ↦ rw e (choose_hashed-IsChosen xs (hash_from 0 (codes client_ip)) h n)
]

-- The selection keeps the instances, the counts and the strategy, and leaves the index in range.
abbrev pub Keeps : LoadBalancer → LoadBalancer → Type 0
Keeps lb lb' =
    (lb'.instances ≡ lb.instances)
    × (lb'.connections ≡ lb.connections)
    × (lb'.strategy ≡ lb.strategy)
    × (lb'.current_index < length lb.instances)

next_round_robin-IsChosen :
    (lb : LoadBalancer)
    → lb.current_index < length lb.instances
    → IsChosen lb.instances (next_round_robin lb).1 × Keeps lb (next_round_robin lb).0
unfolding next_round_robin
next_round_robin-IsChosen lb h =
    let (x, e) = get_elem-lt lb.instances lb.current_index h in
    rw (e, next_round_robin) ((lb.current_index, e), (refl, refl, refl, grind arith))

module _ (intn : ℕ → ℕ) (random_below : (n : ℕ) → 0 < n → intn n < n) (client_ip : String)
    (not_least : hash_from 0 (codes client_ip) ≢ 9223372036854775808) (lb : LoadBalancer)
    (counted : (id : String) → get_connections id lb.connections < 9223372036854775807)
    (weighed : is_above_zero (total_weight lb.instances) ≡ true)
    (in_range : lb.current_index < length lb.instances) where
  dispatch-IsChosen :
      (strategy : Strategy)
      → IsChosen lb.instances (dispatch strategy intn client_ip lb).1
        × Keeps lb (dispatch strategy intn client_ip lb).0
  unfolding dispatch
  dispatch-IsChosen round_robin = next_round_robin-IsChosen lb in_range
  dispatch-IsChosen random = (
    at_index-IsChosen lb.instances (intn (length lb.instances))
        (random_below (length lb.instances) (omega arith)),
    (refl, refl, refl, in_range),
  )
  dispatch-IsChosen weighted_random = (
    choose_weighted-IsChosen intn lb.instances (omega arith) weighed,
    (refl, refl, refl, in_range),
  )
  dispatch-IsChosen least_conn = (
    (least_conn_from-IsFewest lb.connections lb.instances (omega arith) counted).0,
    (refl, refl, refl, in_range),
  )
  dispatch-IsChosen ip_hash = (
    choose_ip_hash-IsChosen lb.instances client_ip (omega arith) not_least,
    (refl, refl, refl, in_range),
  )
  dispatch-IsChosen (other name) = next_round_robin-IsChosen lb in_range

  -- While the index of the round robin lies within the instances, NextInstance returns one of them,
  -- whatever the strategy: no panic, no nil instance and no error. It leaves the index within them,
  -- and the instances, the counts and the strategy as they are; so this holds of every later call.
  -- Random numbers are below their bound, the counts below the largest integer, the weights add up to
  -- an int above 0, which a sum that wraps at 64 bits need not be, and the hash of the address is not
  -- the least integer of 64 bits, which its negation leaves negative.
  pub next_instance-IsChosen :
      IsChosen lb.instances (next_instance intn client_ip lb).1
      × Keeps lb (next_instance intn client_ip lb).0
  unfolding next_instance
  next_instance-IsChosen =
      let e : eqb (length lb.instances) 0 ≡ false = ground arith in
      rw e (dispatch-IsChosen lb.strategy)
