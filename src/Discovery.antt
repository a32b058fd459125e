-- ===== src/Discovery.antt =====
-- plugins/discovery/interface.go and loadbalancer.go: the instances of a service, and the choice of
-- one of them. Random numbers are an argument, counts stay below 2^63, and no instance is nil.
-- Static, Selector, Manager and Watcher are about the code around it.
pub mod Choice
pub mod Shrink
pub mod Tracking
pub mod Static
pub mod Selector
pub mod Manager
pub mod Watcher
mod Tests
use Prim.Native.Char.{code}
use golang_gin_rpc.Base.{
  u64, ℕ, zero, suc, ◌+◌, ◌-◌, ◌*◌, ◌%◌, ◌≡◌, Bool, true, false, not, ◌&&◌, ◌||◌, Option, none,
  some, List, [], ◌∷◌, map, String, string_eq, ◌==◌, if◌then◌else◌, length, get_elem?, eqb, ltb,
  leb, u64, Dict, lookup, insert, has, contains,
}
use golang_gin_rpc.Base.Int.{ℤ}

pub record ServiceInstance : Type 0 where
  pub id : String
  pub name : String
  pub address : String
  pub port : ℤ
  pub payload : Dict String String

pub data Strategy : Type 0 where
  round_robin : Strategy
  random : Strategy
  weighted_random : Strategy
  least_conn : Strategy
  ip_hash : Strategy
  other : String → Strategy

pub record LoadBalancer : Type 0 where
  pub strategy : Strategy
  pub instances : List ServiceInstance
  pub current_index : ℕ
  pub connections : Dict String ℕ

unfoldable pub new_load_balancer : Strategy → LoadBalancer
new_load_balancer strategy = record {
  strategy = strategy;
  instances = [];
  current_index = 0;
  connections = [];
}

-- The loop that makes the missing counts.
unfoldable pub track_new : List ServiceInstance → Dict String ℕ → Dict String ℕ
track_new [] counts = counts
track_new (i ∷ instances) counts =
    track_new instances (if has i.id counts then counts else insert i.id 0 counts)

-- The loop that looks for an id.
abbrev pub is_found : String → List ServiceInstance → Bool
is_found id [] = false
is_found id (i ∷ instances) = i.id == id || is_found id instances

-- The loop that deletes the counts of other instances.
unfoldable pub drop_old : List ServiceInstance → Dict String ℕ → Dict String ℕ
drop_old instances [] = []
drop_old instances ((id, n) ∷ counts) =
    let rest = drop_old instances counts in if is_found id instances then (id, n) ∷ rest else rest

unfoldable pub update_instances : List ServiceInstance → LoadBalancer → LoadBalancer
update_instances instances lb = record lb {
  instances = instances;
  connections = drop_old instances (track_new instances lb.connections);
}

-- What a selection gives. `nil_instance` is the nil pointer, and `panicked` an index out of
-- range or a random number from no range.
pub data Answer : Type 0 where
  instance_of : ServiceInstance → Answer
  no_instances : Answer
  nil_instance : Answer
  panicked : Answer

abbrev pub at_index : List ServiceInstance → ℕ → Answer
at_index instances i = elim (get_elem? instances i) [ none ↦ panicked | some x ↦ instance_of x ]

-- `roundRobin`, which moves the index after it has read the instance.
unfoldable pub next_round_robin : LoadBalancer → LoadBalancer × Answer
next_round_robin lb = elim (get_elem? lb.instances lb.current_index) [
  | none ↦ (lb, panicked)
  | some x ↦
      (record lb { current_index = (lb.current_index + 1) % length lb.instances }, instance_of x)
]

abbrev pub codes : String → List ℕ
codes String.[] = []
codes (String.◌∷◌ c s) = code c ∷ codes s

-- `strconv.Atoi` of a number above 0; any other text, the empty one and one out of range give 0.
unfoldable pub digits : ℕ → List ℕ → Option ℕ
digits n [] = some n
digits n (c ∷ cs) =
    let rest = digits (n * 10 + (c - b'0')) cs in if leb b'0' c && leb c b'9' then rest else none

abbrev pub in_range : Option ℕ → ℕ
in_range none = 0
in_range (some n) = if ltb n 9223372036854775808 then n else 0

unfoldable pub atoi_positive : List ℕ → ℕ
atoi_positive [] = 0
atoi_positive (c ∷ cs) =
    if eqb c b'+'
    then elim cs [ [] ↦ 0 | d ∷ ds ↦ in_range (digits 0 (d ∷ ds)) ]
    else in_range (digits 0 (c ∷ cs))

-- `instance.Payload["weight"]`, the empty text where it is missing.
abbrev pub text_or_empty : Option String → String
text_or_empty none = ""
text_or_empty (some s) = s

unfoldable pub instance_weight : ServiceInstance → ℕ
instance_weight i =
    let weight = atoi_positive (codes (text_or_empty (lookup "weight" i.payload))) in
    if leb weight 0 then 1 else weight

-- The sum of the weights, an int of 64 bits that wraps.
unfoldable pub total_weight : List ServiceInstance → ℕ
total_weight [] = 0
total_weight (i ∷ instances) = u64 (instance_weight i + total_weight instances)

-- An int above 0: half of the words are negative.
abbrev pub is_above_zero : ℕ → Bool
is_above_zero n = ltb 0 n && ltb n 9223372036854775808

-- The loop of `weightedRandom`: `target -= weight; if target < 0`.
unfoldable pub pick_weighted : List ServiceInstance → ℕ → Option ServiceInstance
pick_weighted [] goal = none
pick_weighted (i ∷ instances) goal =
    let rest = pick_weighted instances (goal - instance_weight i) in
    if ltb goal (instance_weight i) then some i else rest

-- `rand.Intn` panics where its argument is not above 0.
unfoldable pub choose_weighted : (ℕ → ℕ) → List ServiceInstance → Answer
choose_weighted intn instances =
    let total = total_weight instances in
    if is_above_zero total
    then elim (pick_weighted instances (intn total)) [
      | none ↦ at_index instances (length instances - 1)
      | some i ↦ instance_of i
    ]
    else panicked

abbrev pub count_or_zero : Option ℕ → ℕ
count_or_zero none = 0
count_or_zero (some n) = n

-- `GetConnections`.
abbrev pub get_connections : String → Dict String ℕ → ℕ
get_connections id counts = count_or_zero (lookup id counts)

-- The loop of `leastConn`, with the least count so far and the instance that has it.
unfoldable pub least_conn_from : Dict String ℕ → ℕ → Answer → List ServiceInstance → Answer
least_conn_from counts min selected [] = selected
least_conn_from counts min selected (i ∷ instances) =
    let n = get_connections i.id counts in
    least_conn_from counts (if ltb n min then n else min)
      (if ltb n min then instance_of i else selected) instances

-- `hash*31 + int(c)` wraps at 64 bits.
unfoldable pub hash_from : ℕ → List ℕ → ℕ
hash_from hash [] = hash
hash_from hash (c ∷ cs) = hash_from (u64 (hash * 31 + c)) cs

-- `if hash < 0 { hash = -hash }`. The least integer stays negative, and its remainder is not
-- positive: an index that is 0 or out of range.
unfoldable pub choose_hashed : List ServiceInstance → ℕ → Answer
choose_hashed instances hash =
    if ltb hash 9223372036854775808
    then at_index instances (hash % length instances)
    else if eqb hash 9223372036854775808
    then if eqb (hash % length instances) 0 then at_index instances 0 else panicked
    else at_index instances ((18446744073709551616 - hash) % length instances)

unfoldable pub choose_ip_hash : List ServiceInstance → String → Answer
choose_ip_hash instances client_ip =
    if client_ip == ""
    then at_index instances 0
    else choose_hashed instances (hash_from 0 (codes client_ip))

-- The `switch` of `NextInstance`.
unfoldable pub dispatch : Strategy → (ℕ → ℕ) → String → LoadBalancer → LoadBalancer × Answer
dispatch round_robin intn client_ip lb = next_round_robin lb
dispatch random intn client_ip lb = (lb, at_index lb.instances (intn (length lb.instances)))
dispatch weighted_random intn client_ip lb = (lb, choose_weighted intn lb.instances)
dispatch least_conn intn client_ip lb =
    (lb, least_conn_from lb.connections 9223372036854775807 nil_instance lb.instances)
dispatch ip_hash intn client_ip lb = (lb, choose_ip_hash lb.instances client_ip)
dispatch (other name) intn client_ip lb = next_round_robin lb

unfoldable pub next_instance : (ℕ → ℕ) → String → LoadBalancer → LoadBalancer × Answer
next_instance intn client_ip lb =
    if eqb (length lb.instances) 0
    then (lb, no_instances)
    else dispatch lb.strategy intn client_ip lb

unfoldable pub increment_connections : String → LoadBalancer → LoadBalancer
increment_connections id lb = record lb {
  connections = insert id (get_connections id lb.connections + 1) lb.connections;
}

unfoldable pub decrement_connections : String → LoadBalancer → LoadBalancer
decrement_connections id lb =
    if ltb 0 (get_connections id lb.connections)
    then record lb {
      connections = insert id (get_connections id lb.connections - 1) lb.connections;
    }
    else lb

unfoldable pub set_strategy : Strategy → LoadBalancer → LoadBalancer
set_strategy strategy lb = record lb { strategy = strategy; current_index = 0 }
