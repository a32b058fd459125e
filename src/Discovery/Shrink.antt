-- ===== src/Discovery/Shrink.antt =====
-- plugins/discovery/loadbalancer.go: the index of the round robin when there are fewer instances.
use golang_gin_rpc.Base.{ℕ, ◌≤◌, ◌<◌, ◌≡◌, false, List, arith, String, string_eq, length, eqb}
use golang_gin_rpc.Discovery.{
  ServiceInstance, Strategy, LoadBalancer, next_round_robin, dispatch, next_instance,
  update_instances,
}
use golang_gin_rpc.Discovery.Strategy.{
  round_robin, random, weighted_random, least_conn, ip_hash, other,
}
use golang_gin_rpc.Discovery.Answer.{panicked}
use golang_gin_rpc.Discovery.Choice.{get_elem-ge}

-- The strategies that go round.
abbrev pub GoesRound : Strategy → Type 0
GoesRound round_robin = Unit
GoesRound random = ⊥
GoesRound weighted_random = ⊥
GoesRound least_conn = ⊥
GoesRound ip_hash = ⊥
GoesRound (other name) = Unit

dispatch_past :
    (strategy : Strategy) (intn : ℕ → ℕ) (client_ip : String) (lb : LoadBalancer)
    → GoesRound strategy
    → length lb.instances ≤ lb.current_index
    → dispatch strategy intn client_ip lb ≡ (lb, panicked)
unfolding dispatch next_round_robin
dispatch_past round_robin intn client_ip lb g h =
    rw (get_elem-ge lb.instances lb.current_index h, next_round_robin)
dispatch_past random intn client_ip lb g h = absurd g
dispatch_past weighted_random intn client_ip lb g h = absurd g
dispatch_past least_conn intn client_ip lb g h = absurd g
dispatch_past ip_hash intn client_ip lb g h = absurd g
dispatch_past (other name) intn client_ip lb g h =
    rw (get_elem-ge lb.instances lb.current_index h, next_round_robin)

-- UpdateInstances with fewer instances than the index of the round robin has passed breaks the
-- balancer: every selection from then on panics with an index out of range, as the index stays where
-- it is. The strategy is the round robin, or one that is not known, and there are instances.
pub shrink_panics :
    (instances : List ServiceInstance) (lb : LoadBalancer) (intn : ℕ → ℕ) (client_ip : String)
    → GoesRound lb.strategy
    → 0 < length instances
    → length instances ≤ lb.current_index
    → next_instance intn client_ip (update_instances instances lb)
      ≡ (update_instances instances lb, panicked)
unfolding next_instance update_instances
shrink_panics instances lb intn client_ip g h b =
    let e : eqb (length instances) 0 ≡ false = ground arith in
    rw e (dispatch_past lb.strategy intn client_ip (update_instances instances lb) g b)
