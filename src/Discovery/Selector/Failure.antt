-- ===== src/Discovery/Selector/Failure.antt =====
-- plugins/discovery/loadbalancer.go: the selector when the manager has failed once.
use golang_gin_rpc.Base.{
  ◌≡◌, refl, sym, ◌∙◌, ap, subst, false, Bool-cases, none, some, Option-cases, List, [], ◌∷◌, inl,
  inr, String, string_eq, ◌==◌, ==_iff, lookup, insert, lookup-insert, lookup-insert_self,
}
use golang_gin_rpc.Discovery.{
  LoadBalancer, Answer, new_load_balancer, update_instances, next_instance, increment_connections,
}
use golang_gin_rpc.Discovery.Answer.{instance_of, no_instances, nil_instance, panicked}
use golang_gin_rpc.Discovery.Selector.Outcome.{not_found, none_available}
use golang_gin_rpc.Discovery.Selector.{
  Balancers, Selector, register_service, Request, finish, select_from, select_instance,
  after_requests,
}

-- The service is registered and has no instances.
abbrev pub IsEmptyAt : String → Balancers → Type 0
IsEmptyAt name balancers =
    (lb : LoadBalancer) × (lookup name balancers ≡ some lb) × (lb.instances ≡ [])

next_instance-empty :
    (q : Request) (lb : LoadBalancer)
    → lb.instances ≡ []
    → next_instance q.intn q.client_ip lb ≡ (lb, no_instances)
unfolding next_instance
next_instance-empty q lb e = rw e

select_from-empty :
    (q : Request) (lb : LoadBalancer) (balancers : Balancers)
    → lb.instances ≡ []
    → select_from q lb balancers ≡ (insert q.service_name lb balancers, none_available)
unfolding select_from finish
select_from-empty q lb balancers empty =
    ap (finish q.service_name balancers) (next_instance-empty q lb empty)

select-empty :
    (q : Request) (s : Selector) (lb : LoadBalancer)
    → lookup q.service_name s.balancers ≡ some lb
    → lb.instances ≡ []
    → select_instance q s
      ≡ (record s { balancers = insert q.service_name lb s.balancers }, none_available)
unfolding select_instance
select-empty q s lb e empty =
    rw (e, select_instance) (rw (select_from-empty q lb s.balancers empty))

select-IsEmptyAt :
    (q : Request) (s : Selector)
    → IsEmptyAt q.service_name s.balancers
    → ((select_instance q s).1 ≡ none_available)
      × IsEmptyAt q.service_name (select_instance q s).0.balancers
select-IsEmptyAt q s (lb, e, empty) =
    rw (select-empty q s lb e empty)
      (refl, (lb, lookup-insert_self q.service_name lb s.balancers, empty))

finish-other :
    (name other : String) (balancers : Balancers) (r : LoadBalancer × Answer)
    → (other == name) ≡ false
    → lookup name (finish other balancers r).0 ≡ lookup name balancers
unfolding finish
finish-other name other balancers (lb, instance_of i) n =
    rw (lookup-insert other name (increment_connections i.id lb) balancers, n)
finish-other name other balancers (lb, no_instances) n =
    rw (lookup-insert other name lb balancers, n)
finish-other name other balancers (lb, nil_instance) n =
    rw (lookup-insert other name lb balancers, n)
finish-other name other balancers (lb, panicked) n = rw (lookup-insert other name lb balancers, n)

-- A request for another service leaves the balancer of this one.
select-other :
    (name : String) (q : Request) (s : Selector)
    → (q.service_name == name) ≡ false
    → lookup name (select_instance q s).0.balancers ≡ lookup name s.balancers
unfolding select_instance select_from register_service
select-other name q s n = elim (Option-cases (lookup q.service_name s.balancers)) [
  | inr (lb, e) ↦
      rw (e, select_instance)
        (finish-other name q.service_name s.balancers (next_instance q.intn q.client_ip lb) n)
  | inl e ↦ elim (Option-cases q.found) [
    | inl u ↦
        rw (e, u, select_instance)
          (rw (
            lookup-insert q.service_name name (new_load_balancer s.default_strategy) s.balancers,
            n,
          ))
    | inr (instances, u) ↦
        rw (e, u, select_instance)
          (finish-other name q.service_name
              (insert q.service_name (new_load_balancer s.default_strategy) s.balancers)
              (next_instance q.intn q.client_ip
                (update_instances instances (new_load_balancer s.default_strategy)))
              n
            ∙ rw (
              lookup-insert q.service_name name (new_load_balancer s.default_strategy) s.balancers,
              n,
            ))
  ]
]

requests-IsEmptyAt :
    (name : String) (requests : List Request) (s : Selector)
    → IsEmptyAt name s.balancers
    → IsEmptyAt name (after_requests requests s).balancers
unfolding after_requests
requests-IsEmptyAt name [] s h = h
requests-IsEmptyAt name (q ∷ requests) s h =
    requests-IsEmptyAt name requests (select_instance q s).0
      (elim (Bool-cases (q.service_name == name)) [
        | inl e ↦
            let p : q.service_name ≡ name = (==_iff q.service_name name).0 e in
            subst (λ n. IsEmptyAt n (select_instance q s).0.balancers) p
              (select-IsEmptyAt q s (subst (λ n. IsEmptyAt n s.balancers) (sym p) h)).1
        | inr n ↦ let (lb, e, empty) = h in (lb, select-other name q s n ∙ e, empty)
      ])

first_failure :
    (q : Request) (s : Selector)
    → lookup q.service_name s.balancers ≡ none
    → q.found ≡ none
    → ((select_instance q s).1 ≡ not_found)
      × IsEmptyAt q.service_name (select_instance q s).0.balancers
unfolding select_instance register_service new_load_balancer
first_failure q s e u =
    rw (e, u, select_instance)
      (
        refl,
        (
          new_load_balancer s.default_strategy,
          lookup-insert_self q.service_name (new_load_balancer s.default_strategy) s.balancers,
          refl,
        ),
      )

-- One failure of the manager at the first request for a service is never made good by later
-- requests: the first gives that error, and after it, whatever requests for any services follow and
-- whatever the manager would answer then, each for this service gives that no instance is available.
pub failure_sticks :
    (q : Request) (s : Selector)
    → lookup q.service_name s.balancers ≡ none
    → q.found ≡ none
    → ((select_instance q s).1 ≡ not_found)
      × ((requests : List Request) (r : Request)
          → r.service_name ≡ q.service_name
          → (select_instance r (after_requests requests (select_instance q s).0)).1
            ≡ none_available)
failure_sticks q s e u =
    let (failed, empty) = first_failure q s e u in
    (
      failed,
      λ requests r same.
          (select-IsEmptyAt r (after_requests requests (select_instance q s).0) (
            subst (λ n. IsEmptyAt n (after_requests requests (select_instance q s).0).balancers)
              (sym same)
              (requests-IsEmptyAt q.service_name requests (select_instance q s).0 empty))).0,
    )
