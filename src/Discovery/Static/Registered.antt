-- ===== src/Discovery/Static/Registered.antt =====
-- plugins/discovery/static.go: what GetService returns after any calls.
use golang_gin_rpc.Base.{
  ◌≡◌, refl, sym, ◌∙◌, ap₂, subst, false, Bool-cases, ◌&&◌, ◌||◌, Option, none, some, Option-cases,
  List, [], ◌∷◌, arith, inl, inr, String, string_eq, ◌==◌, ==_iff, if◌then◌else◌, keys, lookup,
  insert, erase, has, lookup-insert, lookup-erase, contains-keys, map, IsDistinct, All,
}
use golang_gin_rpc.Discovery.{ServiceInstance}
use golang_gin_rpc.Discovery.Static.{
  Bucket, Registry, bucket_or_empty, register, keep_bucket, deregister, values, get_service, Call,
  call, after,
}
use golang_gin_rpc.Discovery.Static.Call.{registering, deregistering}

-- The last registration of the id under the name, unless a deregistration has followed it.
unfoldable pub registered : List Call → String → String → Option ServiceInstance
registered [] name id = none
registered (registering i ∷ history) name id =
    if i.name == name && i.id == id then some i else registered history name id
registered (deregistering i ∷ history) name id =
    if i.name == name && i.id == id then none else registered history name id

-- The first instance of the list with an id.
abbrev pub find_id : String → List ServiceInstance → Option ServiceInstance
find_id id [] = none
find_id id (i ∷ instances) = if i.id == id then some i else find_id id instances

abbrev pub ids : List ServiceInstance → List String
ids instances = map (λ (i : ServiceInstance). i.id) instances

-- Each key once, and each instance under its own id.
abbrev IsKeyed : Bucket → Type 0
IsKeyed [] = Unit
IsKeyed ((id, i) ∷ bucket) = (id ≡ i.id) × (has id bucket ≡ false) × IsKeyed bucket

abbrev AllKeyed : Registry → Type 0
AllKeyed services = All (λ entry. IsKeyed entry.1) services

has-insert :
    (id j : String) (i : ServiceInstance) (bucket : Bucket)
    → has j (insert id i bucket) ≡ (id == j || has j bucket)
has-insert id j i bucket = ground (arith, lookup-insert id j i bucket)

has-erase-false :
    (id j : String) (bucket : Bucket) → has j bucket ≡ false → has j (erase id bucket) ≡ false
has-erase-false id j bucket h = ground (arith, lookup-erase id j bucket)

insert-IsKeyed :
    (i : ServiceInstance) (bucket : Bucket) → IsKeyed bucket → IsKeyed (insert i.id i bucket)
unfolding insert lookup
insert-IsKeyed i [] h = (refl, refl, tt)
insert-IsKeyed i ((j, k) ∷ bucket) h = elim (Bool-cases (j == i.id)) [
  | inl e ↦ rw e (refl, ground (arith, ==_iff j i.id), h.2)
  | inr n ↦ rw n (
    h.0,
    ground (arith, has-insert i.id j i bucket, ==_iff i.id j, ==_iff j i.id),
    insert-IsKeyed i bucket h.2,
  )
]

erase-IsKeyed : (id : String) (bucket : Bucket) → IsKeyed bucket → IsKeyed (erase id bucket)
unfolding erase
erase-IsKeyed id [] h = tt
erase-IsKeyed id ((j, k) ∷ bucket) h = elim (Bool-cases (j == id)) [
  | inl e ↦ rw e (erase-IsKeyed id bucket h.2)
  | inr n ↦ rw n (h.0, has-erase-false id j bucket h.1, erase-IsKeyed id bucket h.2)
]

lookup-IsKeyed :
    (name : String) (services : Registry)
    → AllKeyed services
    → IsKeyed (bucket_or_empty (lookup name services))
unfolding lookup
lookup-IsKeyed name [] h = tt
lookup-IsKeyed name ((n, bucket) ∷ services) h = elim (Bool-cases (n == name)) [
  | inl e ↦ rw e h.0
  | inr e ↦ rw e (lookup-IsKeyed name services h.1)
]

insert-AllKeyed :
    (name : String) (bucket : Bucket) (services : Registry)
    → IsKeyed bucket
    → AllKeyed services
    → AllKeyed (insert name bucket services)
unfolding insert
insert-AllKeyed name bucket [] k h = (k, tt)
insert-AllKeyed name bucket ((n, b) ∷ services) k h = elim (Bool-cases (n == name)) [
  | inl e ↦ rw e (k, h.1)
  | inr e ↦ rw e (h.0, insert-AllKeyed name bucket services k h.1)
]

erase-AllKeyed :
    (name : String) (services : Registry) → AllKeyed services → AllKeyed (erase name services)
unfolding erase
erase-AllKeyed name [] h = tt
erase-AllKeyed name ((n, b) ∷ services) h = elim (Bool-cases (n == name)) [
  | inl e ↦ rw e (erase-AllKeyed name services h.1)
  | inr e ↦ rw e (h.0, erase-AllKeyed name services h.1)
]

keep_bucket-AllKeyed :
    (name : String) (bucket : Bucket) (services : Registry)
    → IsKeyed bucket
    → AllKeyed services
    → AllKeyed (keep_bucket name bucket services)
keep_bucket-AllKeyed name [] services k h = erase-AllKeyed name services h
keep_bucket-AllKeyed name (entry ∷ bucket) services k h =
    insert-AllKeyed name (entry ∷ bucket) services k h

register-AllKeyed :
    (i : ServiceInstance) (services : Registry) → AllKeyed services → AllKeyed (register i services)
unfolding register
register-AllKeyed i services h =
    let bucket = bucket_or_empty (lookup i.name services) in
    insert-AllKeyed i.name (insert i.id i bucket) services
      (insert-IsKeyed i bucket (lookup-IsKeyed i.name services h)) h

deregister-AllKeyed :
    (i : ServiceInstance) (services : Registry)
    → AllKeyed services
    → AllKeyed (deregister i services)
unfolding deregister
deregister-AllKeyed i services h = elim (Option-cases (lookup i.name services)) [
  | inl e ↦ rw (e, deregister) h
  | inr (bucket, e) ↦
      rw (e, deregister)
        (keep_bucket-AllKeyed i.name (erase i.id bucket) services
          (erase-IsKeyed i.id bucket (rw e at (lookup-IsKeyed i.name services h))) h)
]

after-AllKeyed : (history : List Call) → AllKeyed (after history)
unfolding after call
after-AllKeyed [] = tt
after-AllKeyed (registering i ∷ history) =
    register-AllKeyed i (after history) (after-AllKeyed history)
after-AllKeyed (deregistering i ∷ history) =
    deregister-AllKeyed i (after history) (after-AllKeyed history)

find_id-values :
    (id : String) (bucket : Bucket) → IsKeyed bucket → find_id id (values bucket) ≡ lookup id bucket
unfolding lookup
find_id-values id [] h = refl
find_id-values id ((j, i) ∷ bucket) h = rw (h.0, find_id-values id bucket h.2)

ids-values : (bucket : Bucket) → IsKeyed bucket → ids (values bucket) ≡ keys bucket
ids-values [] h = refl
ids-values ((j, i) ∷ bucket) h = ap₂ (λ a b. a ∷ b) (sym h.0) (ids-values bucket h.2)

keys-IsDistinct : (bucket : Bucket) → IsKeyed bucket → IsDistinct (keys bucket)
keys-IsDistinct [] h = tt
keys-IsDistinct ((j, i) ∷ bucket) h = (contains-keys j bucket ∙ h.1, keys-IsDistinct bucket h.2)

abbrev entry_of : String → String → Registry → Option ServiceInstance
entry_of name id services = lookup id (bucket_or_empty (lookup name services))

entry_of-register :
    (i : ServiceInstance) (name id : String) (services : Registry)
    → entry_of name id (register i services)
      ≡ (if i.name == name && i.id == id then some i else entry_of name id services)
unfolding register
entry_of-register i name id services = ground (
  arith,
  lookup-insert i.name name (insert i.id i (bucket_or_empty (lookup i.name services))) services,
  lookup-insert i.id id i (bucket_or_empty (lookup i.name services)),
  ==_iff i.name name,
)

entry_of-keep_bucket :
    (n name id : String) (bucket : Bucket) (services : Registry)
    → entry_of name id (keep_bucket n bucket services)
      ≡ (if n == name then lookup id bucket else entry_of name id services)
unfolding lookup
entry_of-keep_bucket n name id [] services = ground (arith, lookup-erase n name services)
entry_of-keep_bucket n name id (entry ∷ bucket) services =
    ground (arith, lookup-insert n name (entry ∷ bucket) services)

entry_of-deregister :
    (i : ServiceInstance) (name id : String) (services : Registry)
    → entry_of name id (deregister i services)
      ≡ (if i.name == name && i.id == id then none else entry_of name id services)
unfolding deregister lookup
entry_of-deregister i name id services = elim (Option-cases (lookup i.name services)) [
  | inl e ↦ rw (e, deregister) (ground (arith, ==_iff i.name name))
  | inr (bucket, e) ↦
      rw (e, deregister)
        (ground (
          arith,
          entry_of-keep_bucket i.name name id (erase i.id bucket) services,
          lookup-erase i.id id bucket,
          ==_iff i.name name,
        ))
]

entry_of-after :
    (history : List Call) (name id : String)
    → entry_of name id (after history) ≡ registered history name id
unfolding after call registered lookup
entry_of-after [] name id = refl
entry_of-after (registering i ∷ history) name id =
    ground (arith, entry_of-register i name id (after history), entry_of-after history name id)
entry_of-after (deregistering i ∷ history) name id =
    ground (arith, entry_of-deregister i name id (after history), entry_of-after history name id)

-- After any calls, GetService returns for the name of a service one instance for each id that is
-- registered under the name: the one of the last registration, unless a deregistration of the name
-- and the id has followed it. No id is returned twice.
pub get_service-registered :
    (history : List Call) (name : String)
    → ((id : String) → find_id id (get_service name (after history)) ≡ registered history name id)
      × IsDistinct (ids (get_service name (after history)))
unfolding get_service
get_service-registered history name =
    let h = lookup-IsKeyed name (after history) (after-AllKeyed history) in
    let bucket = bucket_or_empty (lookup name (after history)) in
    (
      λ id. find_id-values id bucket h ∙ entry_of-after history name id,
      subst (λ l. IsDistinct l) (sym (ids-values bucket h)) (keys-IsDistinct bucket h),
    )
