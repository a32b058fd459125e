-- ===== src/Migration/Late.antt =====
-- plugins/db/migration/migrator.go: a migration whose version is below the recorded ones and has no
-- row itself, as one that was merged after later ones had run.
use golang_gin_rpc.Base.{
  ◌≡◌, refl, true, false, Bool-cases, Option, none, some, List, [], ◌∷◌, arith, inl, inr, has,
  lookup, All,
}
use golang_gin_rpc.Base.Int.{ℤ, lt_int, ◌≤ℤ◌, ◌<ℤ◌, int_eq, same_int_iff}
use golang_gin_rpc.Migration.{
  Migration, Rows, Database, Engine, Link, MigrationStatus, max_version, sort, init,
  current_version, run_each, up, status, status_of,
}
use golang_gin_rpc.Migration.Order.{max_from-le}
use golang_gin_rpc.Migration.Upward.{run_up_rows, recorded, up_connected}
use golang_gin_rpc.Migration.Resume.{working, up_unmade, up_unread}

-- The version has no row, and there is one above it.
abbrev pub IsLate {ℓ} : {S : Type ℓ} → ℤ → Database S → Type 0
IsLate v db =
    (rows : Rows) × (db.table ≡ some rows) × (has v rows ≡ false) × (v ≤ℤ max_version rows)

-- Every entry of the status for the version says that it is applied.
abbrev pub SaysApplied : ℤ → Option (List MigrationStatus) → Type 0
SaysApplied v none = Unit
SaysApplied v (some entries) =
    All (λ (x : MigrationStatus). x.version ≡ v → x.applied ≡ true) entries

recorded-IsLate {ℓ} :
    {S : Type ℓ} (v : ℤ) (x : Migration) (rows : Rows) (s : S)
    → has v rows ≡ false
    → v <ℤ x.version
    → IsLate v (recorded x rows s)
unfolding lookup
recorded-IsLate v x rows s free lt = (
  (x.version, x.name) ∷ rows,
  refl,
  ground (arith, same_int_iff x.version v),
  omega (arith, max_from-le x.version rows),
)

status_of-applied : (v c : ℤ) (ms : List Migration) → v ≤ℤ c → SaysApplied v (some (status_of c ms))
status_of-applied v c [] h = tt
status_of-applied v c (x ∷ xs) h = (λ e. rw e (ground arith), status_of-applied v c xs h)

module _ {ℓ} {S : Type ℓ} (engine : Engine S) where
  run_each-IsLate :
      (link : Link) (v c : ℤ) (xs : List Migration) (db : Database S)
      → v ≤ℤ c
      → IsLate v db
      → IsLate v (run_each link engine c xs db).0
  unfolding run_each
  run_each-IsLate link v c [] db o h = h
  run_each-IsLate link v c (x ∷ xs) db o (rows, t, free, le) =
      elim (Bool-cases (lt_int c x.version)) [
        | inr old ↦ rw old (run_each-IsLate link v c xs db o (rows, t, free, le))
        | inl new ↦ elim (run_up_rows engine link x db rows t) [
          | inl (cause, db', e, t') ↦ rw (new, e) (rows, t', free, le)
          | inr (s, e) ↦
              rw (new, e)
                (run_each-IsLate link v c xs (recorded x rows s) o
                  (recorded-IsLate v x rows s free (ground arith)))
        ]
      ]

  up-IsLate :
      (link : Link) (v : ℤ) (ms : List Migration) (db : Database S)
      → IsLate v db
      → IsLate v (up link engine ms db).0.1
  up-IsLate link v ms db (rows, t, free, le) = elim (Bool-cases link.creates) [
    | inr off ↦ rw (up_unmade engine link ms db off) (rows, t, free, le)
    | inl on ↦ elim (Bool-cases link.answers) [
      | inr off ↦ rw (up_unread engine link ms db on off, t) (rows, refl, free, le)
      | inl answered ↦
          rw (up_connected engine link ms db on answered, t)
            (run_each-IsLate link v (max_version rows) (sort ms) (record db { table = some rows })
              le (rows, refl, free, le))
    ]
  ]

  status-IsLate :
      (v : ℤ) (ms : List Migration) (db : Database S)
      → IsLate v db
      → SaysApplied v (status working ms db).1
  unfolding status init current_version
  status-IsLate v ms db (rows, t, free, le) = rw t (status_of-applied v (max_version rows) ms le)

  -- A migration that is registered once a later version has a row is never applied, although
  -- `Status` says that it is: whatever the migrations, after any `Up` its version still has no row,
  -- there is still a later one, so that the next `Up` passes it over again, and every entry that
  -- `Status` lists for the version is marked as applied.
  pub IsLate-never_applied :
      (link : Link) (v : ℤ) (ms : List Migration) (db : Database S)
      → IsLate v db
      → IsLate v (up link engine ms db).0.1
        × SaysApplied v (status working (up link engine ms db).0.0 (up link engine ms db).0.1).1
  IsLate-never_applied link v ms db late =
      let h : IsLate v (up link engine ms db).0.1 = up-IsLate link v ms db late in
      (h, status-IsLate v (up link engine ms db).0.0 (up link engine ms db).0.1 h)
