-- ===== src/Base/Maps.antt =====
-- A Go map as an association list: its entries in the order in which `range` happens to visit them.
use Prim.Native.Nat.{◌+◌, ◌≤◌}
use mathlib.Core.Path.{◌≡◌, refl}
use mathlib.Core.Bool.{Bool}
use mathlib.Core.List.{List, [], ◌∷◌, map}
use mathlib.Core.Option.{Option, none, some}
use native.Mathlib.Omega.{arith}
use golang_gin_rpc.Base.Tests.{if◌then◌else◌, is_some}
use golang_gin_rpc.Base.Keys.{Eq, ◌==◌, ==_iff, ==_self}
use golang_gin_rpc.Base.Lists.{length, contains}

abbrev pub Dict {ℓ κ} : Type ℓ → Type κ → Type (ℓ ⊔ κ)
Dict K V = List (K × V)

module _ {ℓ κ} {K : Type ℓ} {V : Type κ} where
  abbrev pub keys : Dict K V → List K
  keys m = map (λ p. p.0) m

module _ {ℓ κ} {K : Type ℓ} {V : Type κ} ⦃e : Eq K⦄ where
  unfoldable pub lookup : K → Dict K V → Option V
  lookup key ((k, value) ∷ entries) = if k == key then some value else lookup key entries
  lookup key [] = none

  unfoldable pub insert : K → V → Dict K V → Dict K V
  insert key value [] = (key, value) ∷ []
  insert key value ((k, w) ∷ entries) =
      if k == key then (key, value) ∷ entries else (k, w) ∷ insert key value entries

  -- `delete(entries, key)`.
  unfoldable pub erase : K → Dict K V → Dict K V
  erase key [] = []
  erase key ((k, w) ∷ entries) = if k == key then erase key entries else (k, w) ∷ erase key entries

  abbrev pub has : K → Dict K V → Bool
  has key entries = is_some (lookup key entries)

  pub lookup-insert :
      (key k : K) (value : V) (entries : Dict K V)
      → lookup k (insert key value entries) ≡ (if key == k then some value else lookup k entries)
  unfolding lookup insert
  lookup-insert key k value [] = refl
  lookup-insert key k value ((i, w) ∷ entries) =
      ground (arith, ==_iff key k, ==_iff i key, ==_iff i k, lookup-insert key k value entries)

  pub lookup-insert_self :
      (key : K) (value : V) (entries : Dict K V)
      → lookup key (insert key value entries) ≡ some value
  lookup-insert_self key value entries = rw (lookup-insert key key value entries, ==_self key)

  pub lookup-erase :
      (key k : K) (entries : Dict K V)
      → lookup k (erase key entries) ≡ (if key == k then none else lookup k entries)
  unfolding lookup erase
  lookup-erase key k [] = ground arith
  lookup-erase key k ((i, w) ∷ entries) =
      ground (arith, ==_iff key k, ==_iff i key, ==_iff i k, lookup-erase key k entries)

  pub contains-keys : (key : K) (entries : Dict K V) → contains (keys entries) key ≡ has key entries
  unfolding lookup
  contains-keys key [] = refl
  contains-keys key ((k, value) ∷ entries) = ground (arith, contains-keys key entries)

  pub length-insert :
      (key : K) (value : V) (entries : Dict K V)
      → length (insert key value entries) ≤ length entries + 1
  unfolding insert
  length-insert key value [] = omega arith
  length-insert key value ((k, w) ∷ entries) = ground (arith, length-insert key value entries)

  pub length-erase-le : (key : K) (entries : Dict K V) → length (erase key entries) ≤ length entries
  unfolding erase
  length-erase-le key [] = omega arith
  length-erase-le key ((k, w) ∷ entries) = ground (arith, length-erase-le key entries)
