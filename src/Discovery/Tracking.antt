-- ===== src/Discovery/Tracking.antt =====
-- plugins/discovery/loadbalancer.go: the counts of the connections.
use golang_gin_rpc.Base.{
  Bool, Bool-cases, true, false, ◌&&◌, ◌||◌, eqb, ap, sym, inl, inr, ℕ, ◌+◌, ◌-◌, ◌≡◌, none, some,
  List, [], ◌∷◌, arith, String, string_eq, ◌==◌, ==_iff, if◌then◌else◌, Dict, lookup, insert, has,
  lookup-insert,
}
use golang_gin_rpc.Discovery.{
  ServiceInstance, LoadBalancer, track_new, is_found, drop_old, update_instances, get_connections,
  increment_connections, decrement_connections,
}

lookup-track_new :
    (instances : List ServiceInstance) (counts : Dict String ℕ) (id : String)
    → lookup id (track_new instances counts)
      ≡ (if has id counts then lookup id counts else if is_found id instances then some 0 else none)
unfolding track_new
lookup-track_new [] counts id = ground arith
lookup-track_new (i ∷ instances) counts id = ground (
  arith,
  lookup-track_new instances (if has i.id counts then counts else insert i.id 0 counts) id,
  lookup-insert i.id id 0 counts,
  ==_iff i.id id,
)

lookup-drop_old :
    (instances : List ServiceInstance) (counts : Dict String ℕ) (id : String)
    → lookup id (drop_old instances counts)
      ≡ (if is_found id instances then lookup id counts else none)
unfolding drop_old lookup
lookup-drop_old instances [] id = ground arith
lookup-drop_old instances ((j, n) ∷ counts) id =
    ground (arith, lookup-drop_old instances counts id, ==_iff j id)

-- After UpdateInstances exactly the ids of the new instances are counted: one that was counted
-- before keeps its count, and the others begin at 0.
pub lookup-update_instances :
    (instances : List ServiceInstance) (lb : LoadBalancer) (id : String)
    → lookup id (update_instances instances lb).connections
      ≡ (if is_found id instances then some (get_connections id lb.connections) else none)
unfolding update_instances
lookup-update_instances instances lb id = ground (
  arith,
  lookup-drop_old instances (track_new instances lb.connections) id,
  lookup-track_new instances lb.connections id,
)

get-increment :
    (id j : String) (lb : LoadBalancer)
    → get_connections j (increment_connections id lb).connections
      ≡ (if id == j then get_connections j lb.connections + 1 else get_connections j lb.connections)
unfolding increment_connections
get-increment id j lb =
    ground (
      arith,
      lookup-insert id j (get_connections id lb.connections + 1) lb.connections,
      ==_iff id j,
    )

get-decrement :
    (id j : String) (lb : LoadBalancer)
    → get_connections j (decrement_connections id lb).connections
      ≡ (if id == j then get_connections j lb.connections - 1 else get_connections j lb.connections)
unfolding decrement_connections
get-decrement id j lb =
    ground (
      arith,
      lookup-insert id j (get_connections id lb.connections - 1) lb.connections,
      ==_iff id j,
    )

-- A connection tracker, by a number, with the instance that it was made for: `NewConnectionTracker`
-- counts it, and each call of its `Close` counts it off.
pub data Act : Type 0 where
  opened : ℕ → String → Act
  closed : ℕ → String → Act

unfoldable pub act : Act → LoadBalancer → LoadBalancer
act (opened tracker id) lb = increment_connections id lb
act (closed tracker id) lb = decrement_connections id lb

-- The acts, the latest first.
unfoldable pub acts : List Act → LoadBalancer → LoadBalancer
acts [] lb = lb
acts (a ∷ history) lb = act a (acts history lb)

abbrev is_tracker : ℕ → String → ℕ × String → Bool
is_tracker tracker id (t, i) = eqb tracker t && id == i

abbrev is_among : ℕ → String → List (ℕ × String) → Bool
is_among tracker id [] = false
is_among tracker id (x ∷ trackers) = is_tracker tracker id x || is_among tracker id trackers

abbrev take_out : ℕ → String → List (ℕ × String) → List (ℕ × String)
take_out tracker id [] = []
take_out tracker id (x ∷ trackers) =
    let rest = take_out tracker id trackers in
    if is_tracker tracker id x then trackers else x ∷ rest

-- The trackers that are open: those made, less those closed.
unfoldable pub open_trackers : List Act → List (ℕ × String)
open_trackers [] = []
open_trackers (opened tracker id ∷ history) = (tracker, id) ∷ open_trackers history
open_trackers (closed tracker id ∷ history) = take_out tracker id (open_trackers history)

abbrev pub count_of : String → List (ℕ × String) → ℕ
count_of id [] = 0
count_of id ((t, i) ∷ trackers) = (if i == id then 1 else 0) + count_of id trackers

-- A tracker is closed while it is open, and so not a second time.
unfoldable pub IsOrderly : List Act → Type 0
IsOrderly [] = Unit
IsOrderly (opened tracker id ∷ history) = IsOrderly history
IsOrderly (closed tracker id ∷ history) =
    (is_among tracker id (open_trackers history) ≡ true) × IsOrderly history

count-take_out :
    (tracker : ℕ) (j id : String) (trackers : List (ℕ × String))
    → is_among tracker j trackers ≡ true
    → count_of id trackers ≡ (if j == id then 1 else 0) + count_of id (take_out tracker j trackers)
count-take_out tracker j id [] h = absurd (ground arith)
count-take_out tracker j id ((t, i) ∷ trackers) h =
    elim (Bool-cases (is_tracker tracker j (t, i))) [
      | inl here ↦
          let same : j ≡ i = (==_iff j i).0 (ground (arith, here)) in
          rw here (ap (λ x. (if x == id then 1 else 0) + count_of id trackers) (sym same))
      | inr other ↦
          let rest = count-take_out tracker j id trackers (ground (arith, other, h)) in
          rw other (omega (arith, rest))
    ]

-- Through any sequence of trackers that are opened and closed, on any instances, the count of each
-- instance is its count at the beginning and one for each of its trackers that is open. No tracker
-- is closed twice: `Close` would count it off again.
pub acts-open_trackers :
    (history : List Act) (lb : LoadBalancer) (id : String)
    → IsOrderly history
    → get_connections id (acts history lb).connections
      ≡ get_connections id lb.connections + count_of id (open_trackers history)
unfolding acts act open_trackers IsOrderly
acts-open_trackers [] lb id h = omega arith
acts-open_trackers (opened tracker j ∷ history) lb id h =
    ground (arith, acts-open_trackers history lb id h, get-increment j id (acts history lb))
acts-open_trackers (closed tracker j ∷ history) lb id h = ground (
  arith,
  acts-open_trackers history lb id h.1,
  get-decrement j id (acts history lb),
  count-take_out tracker j id (open_trackers history) h.0,
)
