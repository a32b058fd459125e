-- ===== src/Discovery/Watcher/Entries.antt =====
-- plugins/discovery/manager.go: the maps that instancesEqual makes of two lists of instances.
use golang_gin_rpc.Base.{
  ◌≡◌, refl, sym, ◌∙◌, Bool, true, false, ◌&&◌, ◌||◌, List, [], ◌∷◌, ◌++◌, arith, String, string_eq,
  ◌==◌, ==_iff, if◌then◌else◌, Dict, lookup, insert, has, length, eqb, map, contains, IsDistinct,
  All,
}
use golang_gin_rpc.Discovery.{ServiceInstance}
use golang_gin_rpc.Discovery.Static.Registered.{find_id, ids}
use golang_gin_rpc.Discovery.Watcher.{by_id, same_place, all_placed, instances_equal}
use mathlib.Core.List.{append_assoc, append-nil}

abbrev entry : ServiceInstance → String × ServiceInstance
entry i = (i.id, i)

insert-append :
    (k : String) (i : ServiceInstance) (m : Dict String ServiceInstance)
    → has k m ≡ false
    → insert k i m ≡ m ++ (k, i) ∷ []
unfolding insert lookup
insert-append k i [] h = refl
insert-append k i ((j, x) ∷ m) h = ground (arith, insert-append k i m)

has-append :
    (j : String) (i : ServiceInstance) (m : Dict String ServiceInstance)
    → has j (m ++ entry i ∷ []) ≡ (has j m || i.id == j)
unfolding lookup
has-append j i [] = ground arith
has-append j i ((k, x) ∷ m) = ground (arith, has-append j i m)

fresh-append :
    (i : ServiceInstance) (instances : List ServiceInstance) (m : Dict String ServiceInstance)
    → contains (ids instances) i.id ≡ false
    → All (λ (x : ServiceInstance). has x.id m ≡ false) instances
    → All (λ (x : ServiceInstance). has x.id (m ++ entry i ∷ []) ≡ false) instances
fresh-append i [] m n h = tt
fresh-append i (x ∷ instances) m n h = (
  ground (arith, has-append x.id i m, ==_iff i.id x.id, ==_iff x.id i.id),
  fresh-append i instances m (ground arith) h.1,
)

by_id-append :
    (instances : List ServiceInstance) (m : Dict String ServiceInstance)
    → IsDistinct (ids instances)
    → All (λ (x : ServiceInstance). has x.id m ≡ false) instances
    → by_id instances m ≡ m ++ map entry instances
unfolding by_id
by_id-append [] m d h = sym (append-nil m)
by_id-append (i ∷ instances) m d h = rw (insert-append i.id i m h.0) (
    by_id-append instances (m ++ entry i ∷ []) d.1 (fresh-append i instances m d.0 h.1)
    ∙ append_assoc m (entry i ∷ []) (map entry instances))

none_has :
    (instances : List ServiceInstance)
    → All (λ (x : ServiceInstance). has {V = ServiceInstance} x.id [] ≡ false) instances
unfolding lookup
none_has [] = tt
none_has (i ∷ instances) = (refl, none_has instances)

lookup-entries :
    (id : String) (instances : List ServiceInstance)
    → lookup id (map entry instances) ≡ find_id id instances
unfolding lookup
lookup-entries id [] = refl
lookup-entries id (i ∷ instances) = rw (lookup-entries id instances)

unfoldable pub every_placed : List ServiceInstance → List ServiceInstance → Bool
every_placed [] b = true
every_placed (i ∷ a) b = same_place i (find_id i.id b) && every_placed a b

all_placed-entries :
    (a b : List ServiceInstance) → all_placed (map entry a) (map entry b) ≡ every_placed a b
unfolding all_placed every_placed
all_placed-entries [] b = refl
all_placed-entries (i ∷ a) b = ground (arith, lookup-entries i.id b, all_placed-entries a b)

pub instances_equal-every :
    (a b : List ServiceInstance)
    → IsDistinct (ids a)
    → IsDistinct (ids b)
    → instances_equal a b ≡ (if eqb (length a) (length b) then every_placed a b else false)
unfolding instances_equal
instances_equal-every a b d e =
    rw (by_id-append a [] d (none_has a), by_id-append b [] e (none_has b), all_placed-entries a b)
