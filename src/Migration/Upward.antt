-- ===== src/Migration/Upward.antt =====
-- plugins/db/migration/migrator.go: what `Up` makes of a database, where it stops, and what the next
-- `Up` does.
use golang_gin_rpc.Base.{
  ◌≡◌, refl, true, Bool-cases, Option, none, some, Option-cases, List, [], ◌∷◌, ◌++◌, ◌⊎◌, inl, inr,
  IsDistinct, has, not, ◌||◌, ap,
}
use golang_gin_rpc.Base.Int.{ℤ, lt_int, int_eq}
use golang_gin_rpc.Migration.{
  Migration, Rows, Database, Engine, Link, Err, max_version, sort, init, current_version, record_up,
  run_up, run_each, up, left_over,
}
use golang_gin_rpc.Migration.Err.{
  not_begun, sql_failed, not_recorded, not_committed, migration_failed,
}
use golang_gin_rpc.Migration.Order.{versions, IsAscending, sort-IsAscending, sort-perm}
use golang_gin_rpc.Migration.Batch.{above, apply_each, rows_after}
use mathlib.Core.List.{Perm}

abbrev pub rows_of {ℓ} : {S : Type ℓ} → Database S → Rows
rows_of db = elim db.table [ none ↦ [] | some rows ↦ rows ]

-- The database with the row of one more migration.
abbrev pub recorded {ℓ} : {S : Type ℓ} → Migration → Rows → S → Database S
recorded x rows s = record { schema = s; table = some ((x.version, x.name) ∷ rows) }

-- An error of the first of the migrations that are left.
abbrev pub StoppedAt : List Migration → Option Err → Type 0
StoppedAt [] e = e ≡ none
StoppedAt (x ∷ xs) e = (cause : Err) × (e ≡ some (migration_failed x.version cause))

module _ {ℓ} {S : Type ℓ} (engine : Engine S) where
  -- The database after the list of migrations has been applied to one with the rows.
  abbrev pub IsAfter : List Migration → S → Rows → Database S → Type ℓ
  IsAfter done s rows db =
      (apply_each engine done s ≡ some db.schema) × (db.table ≡ some (rows_after done rows))

  -- Whatever becomes of the schema, the row of a migration is there exactly when it is a success.
  pub run_up_rows :
      (link : Link) (x : Migration) (db : Database S) (rows : Rows)
      → db.table ≡ some rows
      → ((cause : Err) × (db' : Database S) × (run_up link engine x db ≡ (db', some cause))
          × (db'.table ≡ some rows))
        ⊎ ((s : S) × (run_up link engine x db ≡ (recorded x rows s, none)))
  unfolding run_up record_up
  run_up_rows link x db rows t = elim (Bool-cases (link.begins x.version)) [
    | inr off ↦ inl (not_begun, db, rw off, t)
    | inl on ↦ elim (Option-cases (engine x.up_sql db.schema)) [
      | inl bad ↦ inl (sql_failed, db, rw (on, bad), t)
      | inr (s, good) ↦
          let back : (left_over link x.version db s).table ≡ some rows =
            elim (Bool-cases (link.undoes x.version)) [ inl b ↦ rw b t | inr b ↦ rw b t ] in
          let db' = left_over link x.version db s in
          elim (Bool-cases (not (link.records x.version) || has x.version rows)) [
            | inl taken ↦ inl (not_recorded, db', rw (on, good, t, taken), back)
            | inr free ↦ elim (Bool-cases (link.commits x.version)) [
              | inl done ↦ inr (s, rw (on, good, t, free, done))
              | inr lost ↦ inl (not_committed, db', rw (on, good, t, free, lost), back)
            ]
          ]
    ]
  ]

  -- A migration is applied whole or not at all, if the database takes it back.
  pub run_up_whole :
      (link : Link) (x : Migration) (db : Database S) (rows : Rows)
      → db.table ≡ some rows
      → link.undoes x.version ≡ true
      → ((cause : Err) × (run_up link engine x db ≡ (db, some cause)))
        ⊎ ((s : S) × (engine x.up_sql db.schema ≡ some s)
            × (run_up link engine x db ≡ (recorded x rows s, none)))
  unfolding run_up record_up
  run_up_whole link x db rows t back = elim (Bool-cases (link.begins x.version)) [
    | inr off ↦ inl (not_begun, rw off)
    | inl on ↦ elim (Option-cases (engine x.up_sql db.schema)) [
      | inl bad ↦ inl (sql_failed, rw (on, bad))
      | inr (s, good) ↦ elim (Bool-cases (not (link.records x.version) || has x.version rows)) [
        | inl taken ↦ inl (not_recorded, rw (on, good, t, taken, back))
        | inr free ↦ elim (Bool-cases (link.commits x.version)) [
          | inl done ↦ inr (s, good, rw (on, good, t, free, done))
          | inr lost ↦ inl (not_committed, rw (on, good, t, free, lost, back))
        ]
      ]
    ]
  ]

  run_each_prefix :
      (link : Link) (c : ℤ) (xs : List Migration) (db : Database S) (rows : Rows)
      → db.table ≡ some rows
      → ((v : ℤ) → link.undoes v ≡ true)
      → (done : List Migration) × (rest : List Migration) × (above c xs ≡ done ++ rest)
        × IsAfter done db.schema rows (run_each link engine c xs db).0
        × StoppedAt rest (run_each link engine c xs db).1
  unfolding run_each above apply_each
  run_each_prefix link c [] db rows t undone = ([], [], refl, (refl, t), refl)
  run_each_prefix link c (x ∷ xs) db rows t undone = elim (Bool-cases (lt_int c x.version)) [
    | inr old ↦ rw old (run_each_prefix link c xs db rows t undone)
    | inl new ↦ elim (run_up_whole link x db rows t (undone x.version)) [
      | inl (cause, e) ↦ rw (new, e) ([], x ∷ above c xs, refl, (refl, t), (cause, refl))
      | inr (s, good, e) ↦
          rw (new, e)
            (let (done, rest, split, after, stop) =
                run_each_prefix link c xs (recorded x rows s) ((x.version, x.name) ∷ rows) refl
                  undone in
              (
                x ∷ done,
                rest,
                ap (λ l. x ∷ l) split,
                (rw (good, apply_each) after.0, after.1),
                stop,
              ))
    ]
  ]

  -- The database with its tracking table.
  abbrev pub opened : Database S → Database S
  opened db = record db { table = some (rows_of db) }

  abbrev pub sorted_result :
      List Migration → Database S × Option Err → (List Migration × Database S) × Option Err
  sorted_result ms r = ((sort ms, r.0), r.1)

  pub up_connected :
      (link : Link) (ms : List Migration) (db : Database S)
      → link.creates ≡ true
      → link.answers ≡ true
      → up link engine ms db
        ≡ sorted_result ms (run_each link engine (max_version (rows_of db)) (sort ms) (opened db))
  unfolding up init current_version
  up_connected link ms db made answered = elim (Option-cases db.table) [
    | inl t ↦ rw (made, t, answered)
    | inr (rows, t) ↦ rw (made, t, answered)
  ]

  -- `Up` sorts the migrations and applies, in ascending order of their versions, the first ones of
  -- those whose version is above the recorded ones, each whole: its SQL has changed the schema and
  -- its row is in the table. It returns no error exactly when none is left, and otherwise the error
  -- names the first one that is left. This holds of registered versions that are distinct, where the
  -- tracking table can be created and read and the database takes back what a transaction that is not
  -- committed did to the schema, whichever other call of the driver or text of SQL fails.
  pub up_applies_prefix :
      (link : Link) (ms : List Migration) (db : Database S)
      → IsDistinct (versions ms)
      → link.creates ≡ true
      → link.answers ≡ true
      → ((v : ℤ) → link.undoes v ≡ true)
      → ((up link engine ms db).0.0 ≡ sort ms)
        × Perm (sort ms) ms
        × IsAscending (sort ms)
        × ((done : List Migration) × (rest : List Migration) × (above
                (max_version (rows_of db))
                (sort ms)
              ≡ done ++ rest)
            × IsAfter done db.schema (rows_of db) (up link engine ms db).0.1
            × StoppedAt rest (up link engine ms db).1)
  up_applies_prefix link ms db d made answered undone = rw (up_connected link ms db made answered) (
    refl,
    sort-perm ms,
    sort-IsAscending ms d,
    run_each_prefix link (max_version (rows_of db)) (sort ms) (opened db) (rows_of db) refl undone,
  )
