-- ===== src/Balancer.antt =====
-- plugins/loadbalancer (loadbalancer.go, factory.go, strategies.go). A target is reached by its
-- address in memory, a number, so that a target that stands twice in the list is one target; the
-- store says what stands there. Random numbers are arguments. Metadata, times and the log are left
-- out.
pub mod RoundRobin
pub mod Weighted
pub mod LeastConnections
pub mod Balance
pub mod Release
mod Tests
use golang_gin_rpc.Base.{
  ℕ, zero, suc, ◌+◌, ◌-◌, ◌*◌, ◌%◌, ◌≡◌, Bool, true, false, not, ◌&&◌, Option, none, some, List, [],
  ◌∷◌, String, string_eq, ◌==◌, if◌then◌else◌, length, get_elem?, eqb, ltb, u64,
}
use golang_gin_rpc.Base.Int.{ℤ, pos, negsuc, lt_int}

pub record Target : Type 0 where
  pub address : String
  pub weight : ℤ
  pub healthy : Bool
  pub connection_count : ℤ

-- What stands at each address in memory.
abbrev pub Store : Type 0
Store = ℕ → Target

abbrev pub update : Store → ℕ → Target → Store
update store p t q = if eqb p q then t else store q

unfoldable pub new_target : String → Target
new_target address = record {
  address = address;
  weight = pos 1;
  healthy = true;
  connection_count = pos 0;
}

unfoldable pub set_weight : ℤ → ℕ → Store → Store
set_weight weight p store = update store p (record (store p) { weight = weight })

unfoldable pub set_healthy : Bool → ℕ → Store → Store
set_healthy healthy p store = update store p (record (store p) { healthy = healthy })

pub data Strategy : Type 0 where
  round_robin : Strategy
  random : Strategy
  weighted : Strategy
  least_connections : Strategy
  other : String → Strategy

pub data Err : Type 0 where
  load_balancer_failed : Err
  no_targets_available : Err
  target_not_found : Err
  unknown_strategy : String → Err

-- `BaseLoadBalancer` with the option that it reads, and the counter of the round robin.
pub record Balancer : Type 0 where
  pub strategy : Strategy
  pub targets : List ℕ
  pub enable_health_check : Bool
  pub closed : Bool
  pub current : ℕ

-- The four constructors by way of `Create`.
unfoldable pub create : Strategy → Bool → Balancer × Option Err
create strategy enable_health_check = (
  record {
    strategy = strategy;
    targets = [];
    enable_health_check = enable_health_check;
    closed = false;
    current = 0;
  },
  elim strategy [ other name ↦ some (unknown_strategy name) | _ ↦ none ],
)

unfoldable pub update_targets : List ℕ → Balancer → Balancer × Option Err
update_targets targets lb =
    if lb.closed then (lb, some load_balancer_failed) else (record lb { targets = targets }, none)

unfoldable pub close : Balancer → Balancer
close lb = record lb { closed = true; targets = [] }

-- The loop of `GetHealthyTargets`.
unfoldable pub only_healthy : Store → List ℕ → List ℕ
only_healthy store [] = []
only_healthy store (p ∷ targets) =
    let rest = only_healthy store targets in if (store p).healthy then p ∷ rest else rest

unfoldable pub healthy_targets : Store → Balancer → List ℕ
healthy_targets store lb =
    if lb.enable_health_check then only_healthy store lb.targets else lb.targets

-- What a selection returns: a target, an error, or a panic: an index out of range, or a
-- random number from no range.
pub data Selected : Type 0 where
  target : ℕ → Selected
  failed : Err → Selected
  panicked : Selected

abbrev pub at_index : List ℕ → ℕ → Selected
at_index targets i = elim (get_elem? targets i) [ none ↦ panicked | some p ↦ target p ]

-- `AddUint64(&lb.current, 1) - 1` wraps at 64 bits, and so does the counter.
unfoldable pub select_round_robin : Store → Balancer → Balancer × Selected
select_round_robin store lb = elim (healthy_targets store lb) [
  | [] ↦ (lb, failed no_targets_available)
  | p ∷ rest ↦ (
    record lb { current = u64 (lb.current + 1) },
    at_index (p ∷ rest) (lb.current % length (p ∷ rest)),
  )
]

-- `Intn(n)` is the random number below `n`.
unfoldable pub select_random : (ℕ → ℕ) → Store → Balancer → Selected
select_random intn store lb = elim (healthy_targets store lb) [
  | [] ↦ failed no_targets_available
  | p ∷ rest ↦ at_index (p ∷ rest) (intn (length (p ∷ rest)))
]

-- A weight, where it is positive.
abbrev pub share : ℤ → ℕ
share (pos n) = n
share (negsuc n) = 0

-- `totalWeight`, an int of 64 bits that wraps; half of the words are negative.
unfoldable pub total_weight : Store → List ℕ → ℕ
total_weight store [] = 0
total_weight store (p ∷ targets) = u64 (share (store p).weight + total_weight store targets)

-- The loop over the cumulative weights; `none` if it ends without a choice.
unfoldable pub pick : Store → List ℕ → ℕ → ℕ → Option ℕ
pick store [] roll current_weight = none
pick store (p ∷ targets) roll current_weight =
    let w = share (store p).weight in
    let sum = u64 (current_weight + w) in
    let rest = pick store targets roll sum in
    if ltb 0 w && (ltb roll sum && ltb sum 9223372036854775808) then some p else rest

unfoldable pub select_weighted : (ℕ → ℕ) → Store → Balancer → Selected
select_weighted intn store lb = elim (healthy_targets store lb) [
  | [] ↦ failed no_targets_available
  | p ∷ rest ↦
      let total = total_weight store (p ∷ rest) in
      if eqb total 0
      then at_index (p ∷ rest) (intn (length (p ∷ rest)))
      else if ltb total 9223372036854775808
      then elim (pick store (p ∷ rest) (intn total) 0) [ none ↦ target p | some q ↦ target q ]
      else panicked
]

-- `AddInt32(&count, 1)` and `AddInt32(&count, -1)` wrap at 32 bits.
abbrev pub one_more : ℤ → ℤ
one_more (pos n) = if eqb n 2147483647 then negsuc 2147483647 else pos (suc n)
one_more (negsuc zero) = pos 0
one_more (negsuc (suc n)) = negsuc n

abbrev pub one_less : ℤ → ℤ
one_less (pos zero) = negsuc 0
one_less (pos (suc n)) = pos n
one_less (negsuc n) = if eqb n 2147483647 then pos 2147483647 else negsuc (suc n)

abbrev pub connections : Store → ℕ → ℤ
connections store p = (store p).connection_count

-- The loop that looks for the least count, from the target selected so far.
unfoldable pub least : Store → ℕ → List ℕ → ℕ
least store selected [] = selected
least store selected (p ∷ targets) =
    least store (if lt_int (connections store p) (connections store selected) then p else selected)
      targets

unfoldable pub add_connection : ℕ → Store → Store
add_connection p store =
    update store p (record (store p) { connection_count = one_more (connections store p) })

unfoldable pub select_least : Store → Balancer → Store × Selected
select_least store lb = elim (healthy_targets store lb) [
  | [] ↦ (store, failed no_targets_available)
  | p ∷ rest ↦ (add_connection (least store p rest) store, target (least store p rest))
]

-- The loop of `ReleaseConnection`.
unfoldable pub release_from : String → List ℕ → Store → Store × Option Err
release_from address [] store = (store, some target_not_found)
release_from address (p ∷ targets) store =
    if (store p).address == address
    then (
      update store p (record (store p) { connection_count = one_less (connections store p) }),
      none,
    )
    else release_from address targets store

unfoldable pub release_connection : String → Balancer → Store → Store × Option Err
release_connection address lb store = release_from address lb.targets store

-- The loop of `GetConnectionCount`.
unfoldable pub count_from : String → List ℕ → Store → ℤ
count_from address [] store = pos 0
count_from address (p ∷ targets) store =
    if (store p).address == address then connections store p else count_from address targets store
