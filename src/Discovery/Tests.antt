-- ===== src/Discovery/Tests.antt =====
-- The discovery on concrete inputs.
use golang_gin_rpc.Base.{
  ℕ, ◌+◌, ◌-◌, ◌<◌, ◌≡◌, ◌≢◌, refl, true, false, Option, none, some, List, [], ◌∷◌, arith, ◌↔◌,
  String, string_eq, lookup, IsDistinct,
}
use golang_gin_rpc.Base.Int.{pos}
use golang_gin_rpc.Discovery.{
  ServiceInstance, Strategy, LoadBalancer, Answer, get_connections, next_instance, update_instances,
  hash_from, codes, is_above_zero, total_weight, instance_weight, atoi_positive, digits,
}
use golang_gin_rpc.Discovery.Choice.{IsChosen, Keeps, next_instance-IsChosen}
use golang_gin_rpc.Discovery.Shrink.{shrink_panics}
use golang_gin_rpc.Discovery.Tracking.{
  Act, acts, open_trackers, count_of, IsOrderly, acts-open_trackers,
}
use golang_gin_rpc.Discovery.Static
use golang_gin_rpc.Discovery.Static.{Call}
use golang_gin_rpc.Discovery.Static.Registered.{find_id, ids, registered, get_service-registered}
use golang_gin_rpc.Discovery.Selector.{Selector, Request, Outcome, select_instance, after_requests}
use golang_gin_rpc.Discovery.Selector.Failure.{failure_sticks}
use golang_gin_rpc.Discovery.Watcher.{instances_equal}
use golang_gin_rpc.Discovery.Watcher.Changes.{SamePlaces, instances_equal-SamePlaces}
use golang_gin_rpc.Discovery.Manager.{Backend, Manager, is_unhealthy, new_manager, start, stop}
use golang_gin_rpc.Discovery.Manager.Restart.{Event, run, step, restart_panics}

abbrev instance : String → String → ServiceInstance
instance id weight = record {
  id = id;
  name = "api";
  address = "10.0.0.1";
  port = pos 80;
  payload = ("weight", weight) ∷ [];
}

weights :
    total_weight (instance "a" "3" ∷ instance "b" "+12" ∷ instance "c" "-4" ∷ instance "d" "x" ∷ [])
    ≡ 17
unfolding total_weight instance_weight lookup atoi_positive digits
weights = refl

abbrev balancer : LoadBalancer
balancer = record {
  strategy = Strategy.round_robin;
  instances = instance "a" "3" ∷ instance "b" "1" ∷ instance "c" "1" ∷ [];
  current_index = 2;
  connections = [];
}

-- The random number below `n` that is the largest.
abbrev largest : ℕ → ℕ
largest n = n - 1

largest_below : (n : ℕ) → 0 < n → largest n < n
largest_below n h = omega arith

no_connections : (id : String) → get_connections id [] < 9223372036854775807
unfolding lookup
no_connections id = omega arith

not_least : hash_from 0 (codes "10.1.2.3") ≢ 9223372036854775808
unfolding hash_from
not_least = omega arith

positive : is_above_zero (total_weight balancer.instances) ≡ true
unfolding total_weight instance_weight lookup atoi_positive digits
positive = refl

next_instance-IsChosen_example :
    IsChosen balancer.instances (next_instance largest "10.1.2.3" balancer).1
    × Keeps balancer (next_instance largest "10.1.2.3" balancer).0
next_instance-IsChosen_example =
    next_instance-IsChosen largest largest_below "10.1.2.3" not_least balancer no_connections
      positive (omega arith)

-- One instance is left after two selections.
shrink_panics_example :
    next_instance largest "" (update_instances (instance "a" "3" ∷ []) balancer)
    ≡ (update_instances (instance "a" "3" ∷ []) balancer, Answer.panicked)
shrink_panics_example =
    shrink_panics (instance "a" "3" ∷ []) balancer largest "" tt (omega arith) (omega arith)

abbrev history : List Act
history = Act.closed 1 "a" ∷ Act.opened 3 "b" ∷ Act.opened 2 "a" ∷ Act.opened 1 "a" ∷ []

acts-open_trackers_example :
    get_connections "a" (acts history balancer).connections
    ≡ get_connections "a" [] + count_of "a" (open_trackers history)
unfolding IsOrderly open_trackers
acts-open_trackers_example = acts-open_trackers history balancer "a" (refl, tt)

abbrev calls : List Call
calls =
    Call.deregistering (instance "b" "1")
    ∷ Call.registering (instance "b" "1")
    ∷ Call.registering (instance "a" "3")
    ∷ []

get_service-registered_example :
    ((id : String)
      → find_id id (Static.get_service "api" (Static.after calls)) ≡ registered calls "api" id)
    × IsDistinct (ids (Static.get_service "api" (Static.after calls)))
get_service-registered_example = get_service-registered calls "api"

abbrev selector : Selector
selector = record { balancers = []; default_strategy = Strategy.round_robin }

abbrev request : Option (List ServiceInstance) → Request
request found = record { service_name = "api"; client_ip = ""; intn = largest; found = found }

unknown : lookup {K = String} {V = LoadBalancer} "api" [] ≡ none
unfolding lookup
unknown = refl

failure_sticks_example :
    ((select_instance (request none) selector).1 ≡ Outcome.not_found)
    × ((requests : List Request) (r : Request)
        → r.service_name ≡ "api"
        → (select_instance r
            (after_requests requests (select_instance (request none) selector).0)).1
          ≡ Outcome.none_available)
failure_sticks_example = failure_sticks (request none) selector unknown refl

instances_equal-SamePlaces_example :
    (instances_equal
        (instance "a" "3" ∷ instance "b" "1" ∷ [])
        (instance "b" "7" ∷ instance "a" "3" ∷ [])
      ≡ true)
    ↔ SamePlaces
        (instance "a" "3" ∷ instance "b" "1" ∷ [])
        (instance "b" "7" ∷ instance "a" "3" ∷ [])
instances_equal-SamePlaces_example =
    instances_equal-SamePlaces (instance "a" "3" ∷ instance "b" "1" ∷ [])
      (instance "b" "7" ∷ instance "a" "3" ∷ []) (refl, (refl, tt)) (refl, (refl, tt))

-- A registry that counts its entries, and cannot take one out.
abbrev counter : Backend ℕ
counter = record { registers = λ i n. (n + 1, true); deregisters = λ i n. (n, false) }

abbrev manager : Manager ℕ
manager = new_manager true false true "api" 0

abbrev running : Manager ℕ
running = record manager { started = true; checking = true }

abbrev halted : Manager ℕ
halted = record manager { stop_closed = true }

abbrev again : Manager ℕ
again = record halted { started = true; checking = false }

stops : stop counter running ≡ some halted
unfolding stop new_manager
stops = refl

starts_again : run counter (Event.starting (instance "a" "3") ∷ []) halted ≡ some again
unfolding run step start new_manager
starts_again = refl

restart_panics_example :
    (again.checking ≡ false) × (again.started ≡ true → stop counter again ≡ none)
restart_panics_example =
    restart_panics counter running halted again (Event.starting (instance "a" "3") ∷ []) refl stops
      starts_again

well : is_unhealthy counter (instance "a" "3") manager ≡ false
unfolding new_manager lookup
well = refl
