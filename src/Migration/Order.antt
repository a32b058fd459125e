-- ===== src/Migration/Order.antt =====
-- plugins/db/migration/migrator.go: the order in which `Up` visits the migrations, and the largest
-- version of the tracking table.
use golang_gin_rpc.Base.{
  ◌≡◌, refl, false, ◌||◌, List, [], ◌∷◌, map, arith, ◌==◌, All, contains, IsDistinct, has, lookup,
  if◌then◌else◌,
}
use golang_gin_rpc.Base.Int.{ℤ, lt_int, same_int_iff, int_eq, ◌<ℤ◌, ◌≤ℤ◌, le_int_antisymm}
use golang_gin_rpc.Migration.{Migration, Rows, max_from, max_version, place, sort}
use mathlib.Core.List.{Perm}
use mathlib.Core.List.Perm
use golang_gin_rpc.Base.{Bool-cases, inl, inr}

abbrev pub versions : List Migration → List ℤ
versions xs = map (λ (x : Migration). x.version) xs

abbrev pub Below : ℤ → List Migration → Type 0
Below v xs = All (λ (x : Migration). v <ℤ x.version) xs

-- Each version is below all that follow.
abbrev pub IsAscending : List Migration → Type 0
IsAscending [] = Unit
IsAscending (x ∷ xs) = Below x.version xs × IsAscending xs

pub Below-trans : (v w : ℤ) (xs : List Migration) → v ≤ℤ w → Below w xs → Below v xs
Below-trans v w [] h b = tt
Below-trans v w (x ∷ xs) h b = (omega arith, Below-trans v w xs h b.1)

Below-place :
    (v : ℤ) (x : Migration) (xs : List Migration)
    → v <ℤ x.version
    → Below v xs
    → Below v (place x xs)
unfolding place
Below-place v x [] h b = (h, tt)
Below-place v x (y ∷ ys) h b = ground (arith, Below-place v x ys h b.1)

contains-place :
    (x : Migration) (xs : List Migration) (v : ℤ)
    → contains (versions (place x xs)) v ≡ (x.version == v || contains (versions xs) v)
unfolding place
contains-place x [] v = refl
contains-place x (y ∷ ys) v = ground (arith, contains-place x ys v)

place-IsAscending :
    (x : Migration) (xs : List Migration)
    → contains (versions xs) x.version ≡ false
    → IsAscending xs
    → IsAscending (place x xs)
unfolding place
place-IsAscending x [] h a = (tt, tt)
place-IsAscending x (y ∷ ys) h a = ground (
  arith,
  place-IsAscending x ys,
  Below-place y.version x ys,
  Below-trans x.version y.version ys,
  le_int_antisymm x.version y.version,
  same_int_iff y.version x.version,
)

pub contains-sort :
    (xs : List Migration) (v : ℤ) → contains (versions (sort xs)) v ≡ contains (versions xs) v
unfolding sort
contains-sort [] v = refl
contains-sort (x ∷ xs) v = ground (arith, contains-place x (sort xs) v, contains-sort xs v)

pub sort-IsAscending : (xs : List Migration) → IsDistinct (versions xs) → IsAscending (sort xs)
unfolding sort
sort-IsAscending [] d = tt
sort-IsAscending (x ∷ xs) d =
    place-IsAscending x (sort xs) (ground (arith, contains-sort xs x.version))
      (sort-IsAscending xs d.1)

place_first : (x : Migration) (xs : List Migration) → Below x.version xs → place x xs ≡ x ∷ xs
unfolding place
place_first x [] b = refl
place_first x (y ∷ ys) b = ground arith

-- Sorting again changes nothing.
pub sort-ascending : (xs : List Migration) → IsAscending xs → sort xs ≡ xs
unfolding sort
sort-ascending [] a = refl
sort-ascending (x ∷ xs) a = rw (sort-ascending xs a.1) (place_first x xs a.0)

-- The largest version of the rows.
pub max_from-le : (v : ℤ) (rows : Rows) → v ≤ℤ max_from v rows
max_from-le v [] = omega arith
max_from-le v ((w, name) ∷ rows) = ground (arith, max_from-le (if lt_int v w then w else v) rows)

has-max_from : (x v : ℤ) (rows : Rows) → max_from v rows <ℤ x → has x rows ≡ false
unfolding lookup
has-max_from x v [] h = refl
has-max_from x v ((w, name) ∷ rows) h = ground (
  arith,
  has-max_from x (if lt_int v w then w else v) rows,
  max_from-le (if lt_int v w then w else v) rows,
  same_int_iff w x,
)

-- A version above all the recorded ones is not recorded.
pub has-max_version : (x : ℤ) (rows : Rows) → max_version rows <ℤ x → has x rows ≡ false
unfolding lookup
has-max_version x [] h = refl
has-max_version x ((w, name) ∷ rows) h =
    ground (arith, has-max_from x w rows, max_from-le w rows, same_int_iff w x)

max_from-new : (v w : ℤ) (rows : Rows) → max_from v rows <ℤ w → max_from w rows ≡ w
max_from-new v w [] h = refl
max_from-new v w ((u, name) ∷ rows) h = ground (
  arith,
  max_from-new (if lt_int v u then u else v) w rows,
  max_from-le (if lt_int v u then u else v) rows,
)

-- It is the largest one once it is recorded.
pub max_version-new : (w : ℤ) (rows : Rows) → max_version rows <ℤ w → max_from w rows ≡ w
max_version-new w [] h = refl
max_version-new w ((u, name) ∷ rows) h = ground (arith, max_from-new u w rows, max_from-le u rows)

place-perm : (x : Migration) (xs : List Migration) → Perm (place x xs) (x ∷ xs)
unfolding place
place-perm x [] = Perm.refl (x ∷ [])
place-perm x (y ∷ ys) = elim (Bool-cases (lt_int y.version x.version)) [
  | inl lt ↦ rw lt (Perm.trans (Perm.cons y (place-perm x ys)) (Perm.swap x y ys))
  | inr le ↦ rw le (Perm.refl (x ∷ y ∷ ys))
]

-- Sorting only reorders.
pub sort-perm : (xs : List Migration) → Perm (sort xs) xs
unfolding sort
sort-perm [] = Perm.refl []
sort-perm (x ∷ xs) = Perm.trans (place-perm x (sort xs)) (Perm.cons x (sort-perm xs))

All-place {κ} :
    (P : Migration → Type κ) (x : Migration) (xs : List Migration)
    → P x
    → All P xs
    → All P (place x xs)
unfolding place
All-place P x [] h hs = (h, tt)
All-place P x (y ∷ ys) h hs = elim (Bool-cases (lt_int y.version x.version)) [
  | inl lt ↦ rw lt (hs.0, All-place P x ys h hs.1)
  | inr le ↦ rw le (h, hs)
]

pub All-sort {κ} : (P : Migration → Type κ) (xs : List Migration) → All P xs → All P (sort xs)
unfolding sort
All-sort P [] h = tt
All-sort P (x ∷ xs) h = All-place P x (sort xs) h.0 (All-sort P xs h.1)
