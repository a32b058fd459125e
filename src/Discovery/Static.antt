-- ===== src/Discovery/Static.antt =====
-- plugins/discovery/static.go: the registry in memory. An instance is a value here, as the code
-- copies each that it takes and gives.
pub mod Registered
use golang_gin_rpc.Base.{
  ◌≡◌, Bool, true, false, Option, none, some, List, [], ◌∷◌, String, string_eq, Dict, lookup,
  insert, erase, map,
}
use golang_gin_rpc.Discovery.{ServiceInstance}

abbrev pub Bucket : Type 0
Bucket = Dict String ServiceInstance

-- Service name, instance id and instance.
abbrev pub Registry : Type 0
Registry = Dict String Bucket

abbrev pub bucket_or_empty : Option Bucket → Bucket
bucket_or_empty none = []
bucket_or_empty (some bucket) = bucket

unfoldable pub register : ServiceInstance → Registry → Registry
register i services =
    insert i.name (insert i.id i (bucket_or_empty (lookup i.name services))) services

-- `if len(bucket) == 0`, after the deletion.
abbrev pub keep_bucket : String → Bucket → Registry → Registry
keep_bucket name [] services = erase name services
keep_bucket name (entry ∷ bucket) services = insert name (entry ∷ bucket) services

unfoldable pub deregister : ServiceInstance → Registry → Registry
deregister i services = elim (lookup i.name services) [
  | none ↦ services
  | some bucket ↦ keep_bucket i.name (erase i.id bucket) services
]

abbrev pub values : Bucket → List ServiceInstance
values bucket = map (λ entry. entry.1) bucket

-- `GetService`: in the order in which Go visits the bucket.
unfoldable pub get_service : String → Registry → List ServiceInstance
get_service name services = values (bucket_or_empty (lookup name services))

-- A call that changes the registry.
pub data Call : Type 0 where
  registering : ServiceInstance → Call
  deregistering : ServiceInstance → Call

unfoldable pub call : Call → Registry → Registry
call (registering i) services = register i services
call (deregistering i) services = deregister i services

-- The calls on an empty registry, the latest first.
unfoldable pub after : List Call → Registry
after [] = []
after (c ∷ history) = call c (after history)
