-- ===== src/Migration/Batch.antt =====
-- plugins/db/migration/migrator.go: the migrations that a run of `Up` is left to apply, and what
-- applying a list of them makes of a database.
use golang_gin_rpc.Base.{◌≡◌, refl, Option, none, some, List, [], ◌∷◌, ◌++◌, arith, if◌then◌else◌}
use golang_gin_rpc.Base.Int.{ℤ, lt_int, ◌≤ℤ◌}
use golang_gin_rpc.Migration.{Migration, Rows, Engine, max_from, max_version}
use golang_gin_rpc.Migration.Order.{Below, Below-trans, IsAscending, max_version-new}

-- The migrations with a version above the current one.
unfoldable pub above : ℤ → List Migration → List Migration
above current [] = []
above current (x ∷ xs) = if lt_int current x.version then x ∷ above current xs else above current xs

-- The SQL of each in turn.
unfoldable pub apply_each {ℓ} : {S : Type ℓ} → Engine S → List Migration → S → Option S
apply_each engine [] s = some s
apply_each engine (x ∷ xs) s = elim (engine x.up_sql s) [
  | none ↦ none
  | some s' ↦ apply_each engine xs s'
]

-- The rows with one more for each.
abbrev pub rows_after : List Migration → Rows → Rows
rows_after [] rows = rows
rows_after (x ∷ xs) rows = rows_after xs ((x.version, x.name) ∷ rows)

pub above_all : (c : ℤ) (xs : List Migration) → Below c xs → above c xs ≡ xs
unfolding above
above_all c [] b = refl
above_all c (x ∷ xs) b = ground (arith, above_all c xs b.1)

-- What is above the current version, in ascending order.
abbrev pub IsPending : ℤ → List Migration → Type 0
IsPending c xs = Below c xs × IsAscending xs

pub above-IsPending : (c : ℤ) (xs : List Migration) → IsAscending xs → IsPending c (above c xs)
unfolding above
above-IsPending c [] a = (tt, tt)
above-IsPending c (x ∷ xs) a =
    ground (arith, above-IsPending c xs a.1, above_all c xs, Below-trans c x.version xs)

pub above-above : (c d : ℤ) (xs : List Migration) → c ≤ℤ d → above d (above c xs) ≡ above d xs
unfolding above
above-above c d [] h = refl
above-above c d (x ∷ xs) h = ground (arith, above-above c d xs)

abbrev pub last_version : ℤ → List Migration → ℤ
last_version c [] = c
last_version c (x ∷ xs) = last_version x.version xs

pub last_version-le :
    (c : ℤ) (xs ys : List Migration) → IsPending c (xs ++ ys) → c ≤ℤ last_version c xs
last_version-le c [] ys p = omega arith
last_version-le c (x ∷ xs) ys p = omega (arith, last_version-le x.version xs ys p.1, p.0.0)

-- The rest of the pending ones is what is above the last one applied.
pub above-last_version :
    (c : ℤ) (xs ys : List Migration)
    → IsPending c (xs ++ ys)
    → above (last_version c xs) (xs ++ ys) ≡ ys
unfolding above
above-last_version c [] ys p = above_all c ys p.0
above-last_version c (x ∷ xs) ys p =
    ground (arith, last_version-le x.version xs ys p.1, above-last_version x.version xs ys p.1)

pub max_version-rows_after :
    (xs ys : List Migration) (rows : Rows)
    → IsPending (max_version rows) (xs ++ ys)
    → max_version (rows_after xs rows) ≡ last_version (max_version rows) xs
max_version-rows_after [] ys rows p = refl
max_version-rows_after (x ∷ xs) ys rows p =
    let e : max_from x.version rows ≡ x.version = max_version-new x.version rows p.0.0 in
    rw (max_version-rows_after xs ys ((x.version, x.name) ∷ rows) (rw e p.1), e)
