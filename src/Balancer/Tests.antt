-- ===== src/Balancer/Tests.antt =====
-- The load balancers on concrete inputs.
use golang_gin_rpc.Base.{
  ℕ, zero, suc, ◌+◌, ◌*◌, ◌≤◌, ◌<◌, ◌≡◌, refl, true, false, some, [], ◌∷◌, arith, nat_eq, ◌==◌,
  ==_iff, if◌then◌else◌, eqb, All, length, String, string_eq,
}
use golang_gin_rpc.Base.Count.{count}
use golang_gin_rpc.Base.Int.{ℤ, pos, negsuc}
use golang_gin_rpc.Balancer.{
  Store, Balancer, Strategy, healthy_targets, only_healthy, update_targets, close, total_weight,
  connections, Err,
}
use golang_gin_rpc.Balancer.RoundRobin.{chosen, chosen-rounds}
use golang_gin_rpc.Balancer.Weighted.{outcomes, weight_of, weight_sum, outcomes-weight}
use golang_gin_rpc.Balancer.Balance.{IsBalanced, select_times, select_times-level}
use golang_gin_rpc.Balancer.Release.{AddressesDiffer}

-- Three targets, of the weights 3, 1 and -1, and the second is not healthy.
abbrev address_of : ℕ → String
address_of zero = "a"
address_of (suc zero) = "b"
address_of (suc (suc n)) = "c"

abbrev weight_at : ℕ → ℤ
weight_at zero = pos 3
weight_at (suc zero) = pos 1
weight_at (suc (suc n)) = negsuc 0

abbrev store : Store
store p = record {
  address = address_of p;
  weight = weight_at p;
  healthy = if eqb p 1 then false else true;
  connection_count = pos 0;
}

abbrev three : Balancer
three = record {
  strategy = Strategy.round_robin;
  targets = 0 ∷ 1 ∷ 2 ∷ [];
  enable_health_check = true;
  closed = false;
  current = 5;
}

two_are_healthy : healthy_targets store three ≡ 0 ∷ 2 ∷ []
unfolding healthy_targets only_healthy
two_are_healthy = refl

some_are_healthy : 0 < length (healthy_targets store three)
unfolding healthy_targets only_healthy
some_are_healthy = omega arith

chosen-rounds_example :
    count 2 (chosen (3 * length (healthy_targets store three)) store three)
    ≡ 3 * count 2 (healthy_targets store three)
chosen-rounds_example = chosen-rounds 3 store three some_are_healthy in_range 2
  where
    in_range : 5 + 3 * length (healthy_targets store three) ≤ 18446744073709551616
    in_range = rw two_are_healthy (omega arith)

small : weight_sum store (0 ∷ 2 ∷ []) < 9223372036854775808
unfolding weight_sum
small = omega arith

outcomes-weight_example :
    count 0 (outcomes store three 0 (total_weight store (healthy_targets store three)))
    ≡ weight_of store 0 (healthy_targets store three)
outcomes-weight_example = outcomes-weight store three 0 (rw two_are_healthy small)

no_connections : All (λ p. connections store p ≡ pos 0) (healthy_targets store three)
unfolding healthy_targets only_healthy
no_connections = (refl, (refl, tt))

select_times-level_example :
    (m : ℕ) × IsBalanced m (select_times 7 store three) (healthy_targets store three)
select_times-level_example = select_times-level 7 store three (omega arith) no_connections

unequal : (s t : String) → (s == t) ≡ false → s ≡ t → ⊥
unequal s t n e = ground (arith, ==_iff s t)

addresses_differ : AddressesDiffer store (0 ∷ 1 ∷ 2 ∷ [])
addresses_differ zero zero hp hq e = refl
addresses_differ zero (suc zero) hp hq e = absurd (unequal "a" "b" refl e)
addresses_differ zero (suc (suc n)) hp hq e = absurd (unequal "a" "c" refl e)
addresses_differ (suc zero) zero hp hq e = absurd (unequal "b" "a" refl e)
addresses_differ (suc zero) (suc zero) hp hq e = refl
addresses_differ (suc zero) (suc (suc n)) hp hq e = absurd (unequal "b" "c" refl e)
addresses_differ (suc (suc n)) zero hp hq e = absurd (unequal "c" "a" refl e)
addresses_differ (suc (suc n)) (suc zero) hp hq e = absurd (unequal "c" "b" refl e)
addresses_differ (suc (suc n)) (suc (suc m)) hp hq e = ground arith

-- After the close nothing is selected, and the targets cannot be updated.
closed_takes_none : (update_targets (0 ∷ []) (close three)).1 ≡ some Err.load_balancer_failed
unfolding update_targets close
closed_takes_none = refl
