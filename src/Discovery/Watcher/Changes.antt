-- ===== src/Discovery/Watcher/Changes.antt =====
-- plugins/discovery/manager.go: which changes of the instances the watcher sees.
use golang_gin_rpc.Base.{
  ◌≤◌, ◌≡◌, refl, sym, ◌∙◌, ap, subst, subst₂, true, false, Bool-cases, Option, none, some,
  Option-cases, some-injective, none-absurd, List, [], ◌∷◌, arith, inl, inr, ◌↔◌, String, string_eq,
  ◌==◌, ==_iff, ==_self, if◌then◌else◌, length, eqb, contains, IsDistinct, is_some, All,
}
use golang_gin_rpc.Base.Int.{ℤ, same_int_iff}
use golang_gin_rpc.Base.Count.{count, length-le, count-IsDistinct, contains-count}
use golang_gin_rpc.Discovery.{ServiceInstance}
use golang_gin_rpc.Discovery.Static.Registered.{find_id, ids}
use golang_gin_rpc.Discovery.Watcher.{same_place, instances_equal}
use golang_gin_rpc.Discovery.Watcher.Entries.{every_placed, instances_equal-every}

-- Where an id is: the address and the port.
abbrev pub placed : Option ServiceInstance → Option (String × ℤ)
placed none = none
placed (some i) = some (i.address, i.port)

abbrev pub place : String → List ServiceInstance → Option (String × ℤ)
place id instances = placed (find_id id instances)

contains-find_id :
    (id : String) (xs : List ServiceInstance) → contains (ids xs) id ≡ is_some (find_id id xs)
contains-find_id id [] = refl
contains-find_id id (i ∷ xs) = ground (arith, contains-find_id id xs)

find_id-id :
    (id : String) (xs : List ServiceInstance) (i : ServiceInstance)
    → find_id id xs ≡ some i
    → i.id ≡ id
find_id-id id [] i e = none-absurd e
find_id-id id (x ∷ xs) i e = elim (Bool-cases (x.id == id)) [
  | inl h ↦
      let p : some x ≡ some i = rw h at e in
      subst (λ (y : ServiceInstance). y.id ≡ id) (some-injective p) ((==_iff x.id id).0 h)
  | inr h ↦ find_id-id id xs i (rw h at e)
]

same_place-placed :
    (i : ServiceInstance) (o : Option ServiceInstance)
    → (same_place i o ≡ true) ↔ (placed o ≡ some (i.address, i.port))
same_place-placed i none = ground arith
same_place-placed i (some j) =
    ground (arith, ==_iff i.address j.address, same_int_iff i.port j.port)

-- What the loop over the first instances has seen.
every_placed-place :
    (id : String) (a b : List ServiceInstance) (i : ServiceInstance)
    → every_placed a b ≡ true
    → find_id id a ≡ some i
    → place id b ≡ some (i.address, i.port)
unfolding every_placed
every_placed-place id [] b i h e = none-absurd e
every_placed-place id (x ∷ a) b i h e = elim (Bool-cases (x.id == id)) [
  | inl same ↦
      let p : some x ≡ some i = rw same at e in
      let q : x ≡ i = some-injective p in
      let r : x.id ≡ id = (==_iff x.id id).0 same in
      let t : place x.id b ≡ some (x.address, x.port) =
        (same_place-placed x (find_id x.id b)).0 (ground arith) in
      subst₂ (λ (j : String) (y : ServiceInstance). place j b ≡ some (y.address, y.port)) r q t
  | inr other ↦ every_placed-place id a b i (ground arith) (rw other at e)
]

-- Each instance is the first one with its id.
IsFirst : List ServiceInstance → ServiceInstance → Type 0
IsFirst xs i = find_id i.id xs ≡ some i

IsFirst-cons :
    (x : ServiceInstance) (ys xs : List ServiceInstance)
    → contains (ids xs) x.id ≡ false
    → All (IsFirst ys) xs
    → All (IsFirst (x ∷ ys)) xs
unfolding IsFirst
IsFirst-cons x ys [] n h = tt
IsFirst-cons x ys (i ∷ xs) n h =
    let e : (x.id == i.id) ≡ false = ground (arith, ==_iff x.id i.id, ==_iff i.id x.id) in
    (rw e h.0, IsFirst-cons x ys xs (ground arith) h.1)

IsFirst-each : (xs : List ServiceInstance) → IsDistinct (ids xs) → All (IsFirst xs) xs
unfolding IsFirst
IsFirst-each [] d = tt
IsFirst-each (x ∷ xs) d = (rw (==_self x.id), IsFirst-cons x xs xs d.0 (IsFirst-each xs d.1))

-- The same ids at the same places.
abbrev pub SamePlaces : List ServiceInstance → List ServiceInstance → Type 0
SamePlaces a b = (id : String) → place id a ≡ place id b

place-every_placed :
    (a b xs : List ServiceInstance) → SamePlaces a b → All (IsFirst a) xs → every_placed xs b ≡ true
unfolding every_placed IsFirst
place-every_placed a b [] s f = refl
place-every_placed a b (x ∷ xs) s f =
    let t : same_place x (find_id x.id b) ≡ true =
      (same_place-placed x (find_id x.id b)).1 (sym (s x.id) ∙ ap placed f.0) in
    rw (t, place-every_placed a b xs s f.1)

is_some-placed : (o : Option ServiceInstance) → is_some (placed o) ≡ is_some o
is_some-placed none = refl
is_some-placed (some i) = refl

contains-place :
    (id : String) (xs : List ServiceInstance) → contains (ids xs) id ≡ is_some (place id xs)
contains-place id xs = contains-find_id id xs ∙ sym (is_some-placed (find_id id xs))

length-ids : (xs : List ServiceInstance) → length (ids xs) ≡ length xs
length-ids [] = refl
length-ids (x ∷ xs) = omega (arith, length-ids xs)

SamePlaces-le :
    (a b : List ServiceInstance) → IsDistinct (ids a) → SamePlaces a b → length a ≤ length b
SamePlaces-le a b d s =
    let h : (v : String) → count v (ids a) ≤ count v (ids b) = λ v. ground (
      arith,
      count-IsDistinct v (ids a) d,
      contains-count v (ids a),
      contains-count v (ids b),
      contains-place v a,
      contains-place v b,
      s v,
    ) in
    omega (arith, length-le (ids a) (ids b) h, length-ids a, length-ids b)

-- Two lists of one length, with distinct ids, the first of which has only ids of the second, have
-- the same ids.
no_more :
    (a b : List ServiceInstance) (id : String)
    → IsDistinct (ids a)
    → length b ≤ length a
    → ((v : String) → contains (ids a) v ≡ true → contains (ids b) v ≡ true)
    → contains (ids a) id ≡ false
    → contains (ids b) id ≡ false
no_more a b id d le h n = elim (Bool-cases (contains (ids b) id)) [
  | inr e ↦ e
  | inl e ↦
      let k : (v : String) → count v (id ∷ ids a) ≤ count v (ids b) = λ v. ground (
        arith,
        count-IsDistinct v (ids a) d,
        contains-count v (ids a),
        contains-count v (ids b),
        h v,
        ==_iff id v,
      ) in
      absurd (omega (arith, length-le (id ∷ ids a) (ids b) k, length-ids a, length-ids b))
]

every_placed-SamePlaces :
    (a b : List ServiceInstance)
    → IsDistinct (ids a)
    → length b ≤ length a
    → every_placed a b ≡ true
    → SamePlaces a b
every_placed-SamePlaces a b d le h id = elim (Option-cases (find_id id a)) [
  | inr (i, e) ↦ ap placed e ∙ sym (every_placed-place id a b i h e)
  | inl e ↦
      let n : contains (ids b) id ≡ false =
        no_more a b id d le (λ v c. ground (arith, seen v c))
          (contains-find_id id a ∙ ap is_some e) in
      ap placed e ∙ sym (missing (find_id id b) (sym (contains-find_id id b) ∙ n))
]
  where
    seen : (v : String) → contains (ids a) v ≡ true → contains (ids b) v ≡ true
    seen v c = elim (Option-cases (find_id v a)) [
      | inl e ↦ ground (arith, contains-find_id v a)
      | inr (i, e) ↦ ground (arith, contains-place v b, every_placed-place v a b i h e)
    ]

    missing : (o : Option ServiceInstance) → is_some o ≡ false → placed o ≡ none
    missing none e = refl
    missing (some i) e = cc

-- The watcher takes two answers of the registry for equal exactly when they have the same ids, each
-- at the same address and port, in whatever order they come and the maps are visited. No id stands
-- twice in an answer. What else an instance holds, such as the weight in its payload, is not looked
-- at.
pub instances_equal-SamePlaces :
    (a b : List ServiceInstance)
    → IsDistinct (ids a)
    → IsDistinct (ids b)
    → (instances_equal a b ≡ true) ↔ SamePlaces a b
instances_equal-SamePlaces a b d e =
    rw (instances_equal-every a b d e)
      (λ h. every_placed-SamePlaces a b d (ground arith) (ground arith), λ s. both s)
  where
    both : SamePlaces a b → (if eqb (length a) (length b) then every_placed a b else false) ≡ true
    both s =
        let le : length a ≤ length b = SamePlaces-le a b d s in
        let ge : length b ≤ length a = SamePlaces-le b a e (λ id. sym (s id)) in
        ground (arith, place-every_placed a b a s (IsFirst-each a d))
