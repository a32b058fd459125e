-- ===== src/Discovery/Watcher.antt =====
-- plugins/discovery/manager.go: the watcher's test whether the instances of a service have changed,
-- and the polls of its loop.
pub mod Entries
pub mod Changes
use golang_gin_rpc.Base.{
  ℕ, zero, suc, ◌≤◌, ◌≡◌, refl, sym, ◌∙◌, ap, Bool, true, false, Bool-cases, ◌&&◌, ◌||◌, not,
  Option, none, some, Option-cases, List, [], ◌∷◌, ◌++◌, arith, inl, inr, ◌↔◌, String, string_eq,
  ◌==◌, ==_iff, ==_self, if◌then◌else◌, Dict, keys, lookup, insert, has, lookup-insert, length, eqb,
  map, contains, IsDistinct, is_some,
}
use golang_gin_rpc.Base.Int.{ℤ, same_int, same_int_iff}
use golang_gin_rpc.Discovery.{ServiceInstance}
use golang_gin_rpc.Discovery.Static.Registered.{find_id, ids}

-- The two loops that make a map of the instances.
unfoldable pub by_id :
    List ServiceInstance → Dict String ServiceInstance → Dict String ServiceInstance
by_id [] m = m
by_id (i ∷ instances) m = by_id instances (insert i.id i m)

abbrev pub same_place : ServiceInstance → Option ServiceInstance → Bool
same_place i none = false
same_place i (some j) = i.address == j.address && same_int i.port j.port

-- The loop over the first map, in any order.
unfoldable pub all_placed : Dict String ServiceInstance → Dict String ServiceInstance → Bool
all_placed [] b = true
all_placed ((id, i) ∷ a) b = if same_place i (lookup id b) then all_placed a b else false

unfoldable pub instances_equal : List ServiceInstance → List ServiceInstance → Bool
instances_equal a b =
    if eqb (length a) (length b) then all_placed (by_id a []) (by_id b []) else false

-- A tick: what the poll gives (`none` is an error), the instances last sent and those sent so far.
unfoldable pub tick :
    Option (List ServiceInstance)
    → List ServiceInstance × List (List ServiceInstance)
    → List ServiceInstance × List (List ServiceInstance)
tick none (last, sent) = (last, sent)
tick (some instances) (last, sent) =
    if instances_equal last instances then (last, sent) else (instances, sent ++ instances ∷ [])
