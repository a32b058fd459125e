-- ===== src/Discovery/Selector.antt =====
-- plugins/discovery/loadbalancer.go: the registry of load balancers and the selector, which asks the
-- manager for the instances of a service when it first meets it. What the manager answers is an
-- argument, `none` where it gives an error.
pub mod Failure
use golang_gin_rpc.Base.{
  ℕ, ◌≡◌, refl, sym, ◌∙◌, ap, subst, Bool, true, false, Bool-cases, Option, none, some,
  Option-cases, List, [], ◌∷◌, inl, inr, String, string_eq, ◌==◌, ==_iff, Dict, lookup, insert,
  erase, lookup-insert, lookup-insert_self,
}
use golang_gin_rpc.Discovery.{
  ServiceInstance, Strategy, LoadBalancer, Answer, new_load_balancer, update_instances,
  next_instance, increment_connections, set_strategy,
}
use golang_gin_rpc.Discovery.Answer.{instance_of, no_instances, nil_instance, panicked}

-- `ServiceRegistry`.
abbrev pub Balancers : Type 0
Balancers = Dict String LoadBalancer

pub record Selector : Type 0 where
  pub balancers : Balancers
  pub default_strategy : Strategy

unfoldable pub register_service : String → Strategy → Balancers → Balancers
register_service name strategy balancers = insert name (new_load_balancer strategy) balancers

unfoldable pub update_service_instances : String → List ServiceInstance → Balancers → Balancers
update_service_instances name instances balancers = elim (lookup name balancers) [
  | none ↦ balancers
  | some lb ↦ insert name (update_instances instances lb) balancers
]

unfoldable pub remove_service : String → Balancers → Balancers
remove_service name balancers = erase name balancers

-- What SelectInstance gives.
pub data Outcome : Type 0 where
  selected : ServiceInstance → Outcome
  not_found : Outcome
  none_available : Outcome
  broken : Outcome

-- One request: the service, the client, the random numbers, and what the manager would answer.
pub record Request : Type 0 where
  pub service_name : String
  pub client_ip : String
  pub intn : ℕ → ℕ
  pub found : Option (List ServiceInstance)

-- The tracker of the connection is opened on the instance; a nil instance is a panic, too.
unfoldable pub finish : String → Balancers → LoadBalancer × Answer → Balancers × Outcome
finish name balancers (lb, instance_of i) =
    (insert name (increment_connections i.id lb) balancers, selected i)
finish name balancers (lb, no_instances) = (insert name lb balancers, none_available)
finish name balancers (lb, nil_instance) = (insert name lb balancers, broken)
finish name balancers (lb, panicked) = (insert name lb balancers, broken)

unfoldable pub select_from : Request → LoadBalancer → Balancers → Balancers × Outcome
select_from q lb balancers = finish q.service_name balancers (next_instance q.intn q.client_ip lb)

-- `SelectInstance`: a service that is not registered is registered before the manager is asked.
unfoldable pub select_instance : Request → Selector → Selector × Outcome
select_instance q s = elim (lookup q.service_name s.balancers) [
  | some lb ↦
      let (balancers, o) = select_from q lb s.balancers in (record s { balancers = balancers }, o)
  | none ↦
      let made = register_service q.service_name s.default_strategy s.balancers in
      elim q.found [
        | none ↦ (record s { balancers = made }, not_found)
        | some instances ↦
            let (balancers, o) =
              select_from q (update_instances instances (new_load_balancer s.default_strategy))
                made in
            (record s { balancers = balancers }, o)
      ]
]

-- `UpdateService`.
unfoldable pub update_service : String → Option (List ServiceInstance) → Selector → Selector × Bool
update_service name none s = (s, false)
update_service name (some instances) s =
    (record s { balancers = update_service_instances name instances s.balancers }, true)

unfoldable pub set_service_strategy : String → Strategy → Selector → Selector
set_service_strategy name strategy s = elim (lookup name s.balancers) [
  | none ↦ record s { balancers = register_service name strategy s.balancers }
  | some lb ↦ record s { balancers = insert name (set_strategy strategy lb) s.balancers }
]

-- The selector after a number of requests.
unfoldable pub after_requests : List Request → Selector → Selector
after_requests [] s = s
after_requests (q ∷ requests) s = after_requests requests (select_instance q s).0
