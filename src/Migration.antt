-- ===== src/Migration.antt =====
-- plugins/db/migration/migrator.go. The database is the state of its schema, of any type, and the
-- rows of the tracking table, where it exists. What a text of SQL does to the schema is an argument
-- (`Engine`), and so is which calls of the driver fail (`Link`). Whether a
-- transaction that is not committed leaves the schema as it was is part of `Link`: databases that
-- commit with each change of the schema, such as MySQL, do not undo it. Timestamps are left out.
pub mod Order
pub mod Batch
pub mod Upward
pub mod Resume
pub mod Rollback
pub mod Late
mod Tests
use golang_gin_rpc.Base.{
  Bool, true, false, not, ◌&&◌, ◌||◌, Option, none, some, List, [], ◌∷◌, ◌++◌, String, Dict, erase,
  has, if◌then◌else◌,
}
use golang_gin_rpc.Base.Int.{ℤ, pos, lt_int, le_int, same_int, int_eq}

pub record Migration : Type 0 where
  pub version : ℤ
  pub name : String
  pub up_sql : String
  pub down_sql : String

-- The rows of the tracking table, by their primary key.
abbrev pub Rows : Type 0
Rows = Dict ℤ String

pub record Database {ℓ} (S : Type ℓ) : Type ℓ where
  pub schema : S
  pub table : Option Rows

-- A text of SQL changes the schema, or fails and changes nothing.
abbrev pub Engine {ℓ} : Type ℓ → Type ℓ
Engine S = String → S → Option S

-- Which calls of the driver are answered: the creation of the table, the query of the version, and
-- for the migration of each version the begin, the statement on the tracking table and the commit.
-- `undoes` is whether the database takes back what the SQL of a migration did to the schema when its
-- transaction is not committed.
pub record Link : Type 0 where
  pub creates : Bool
  pub answers : Bool
  pub begins : ℤ → Bool
  pub records : ℤ → Bool
  pub commits : ℤ → Bool
  pub undoes : ℤ → Bool

pub data Err : Type 0 where
  not_created : Err
  no_version : Err
  not_begun : Err
  sql_failed : Err
  not_recorded : Err
  not_committed : Err
  nothing_to_roll_back : Err
  not_found : ℤ → Err
  migration_failed : ℤ → Err → Err

pub record MigrationStatus : Type 0 where
  pub version : ℤ
  pub name : String
  pub applied : Bool

-- `Add`.
unfoldable pub add : Migration → List Migration → List Migration
add x migrations = migrations ++ x ∷ []

-- `MAX(version)`.
abbrev pub max_from : ℤ → Rows → ℤ
max_from v [] = v
max_from v ((w, name) ∷ rows) = max_from (if lt_int v w then w else v) rows

-- `COALESCE(MAX(version), 0)`.
abbrev pub max_version : Rows → ℤ
max_version [] = pos 0
max_version ((v, name) ∷ rows) = max_from v rows

-- `sort.Slice` by version. Equal versions, whose order Go leaves open, keep theirs here.
unfoldable pub place : Migration → List Migration → List Migration
place x [] = x ∷ []
place x (y ∷ ys) = if lt_int y.version x.version then y ∷ place x ys else x ∷ y ∷ ys

unfoldable pub sort : List Migration → List Migration
sort [] = []
sort (x ∷ xs) = place x (sort xs)

abbrev pub or_zero : Option ℤ → ℤ
or_zero none = pos 0
or_zero (some v) = v

abbrev pub status_of : ℤ → List Migration → List MigrationStatus
status_of current [] = []
status_of current (x ∷ xs) =
    record { version = x.version; name = x.name; applied = le_int x.version current }
    ∷ status_of current xs

module _ {ℓ} {S : Type ℓ} (link : Link) where
  -- `Init`: `CREATE TABLE IF NOT EXISTS`.
  unfoldable pub init : Database S → Option (Database S)
  init db =
      if link.creates
      then some (record db { table = elim db.table [ none ↦ some [] | some rows ↦ some rows ] })
      else none

  -- `GetCurrentVersion`, which fails where there is no table.
  unfoldable pub current_version : Database S → Option ℤ
  current_version db = elim db.table [
    | none ↦ none
    | some rows ↦ if link.answers then some (max_version rows) else none
  ]

  -- What is left of a transaction that is not committed, after SQL that led to the schema.
  abbrev pub left_over : ℤ → Database S → S → Database S
  left_over v db schema = if link.undoes v then db else record db { schema = schema }

  -- `runUp` after the migration's own SQL: the row, unless its key is taken, and the commit.
  unfoldable pub record_up : Migration → Database S → S → Database S × Option Err
  record_up x db schema = elim db.table [
    | none ↦ (left_over x.version db schema, some not_recorded)
    | some rows ↦
        if not (link.records x.version) || has x.version rows
        then (left_over x.version db schema, some not_recorded)
        else if link.commits x.version
        then (record { schema = schema; table = some ((x.version, x.name) ∷ rows) }, none)
        else (left_over x.version db schema, some not_committed)
  ]

  unfoldable pub run_up : Engine S → Migration → Database S → Database S × Option Err
  run_up engine x db =
      if link.begins x.version
      then elim (engine x.up_sql db.schema) [
        | none ↦ (db, some sql_failed)
        | some schema ↦ record_up x db schema
      ]
      else (db, some not_begun)

  -- `runDown` after the migration's own SQL: the row is deleted.
  unfoldable pub record_down : Migration → Database S → S → Database S × Option Err
  record_down x db schema = elim db.table [
    | none ↦ (left_over x.version db schema, some not_recorded)
    | some rows ↦
        if link.records x.version
        then if link.commits x.version
          then (record { schema = schema; table = some (erase x.version rows) }, none)
          else (left_over x.version db schema, some not_committed)
        else (left_over x.version db schema, some not_recorded)
  ]

  unfoldable pub run_down : Engine S → Migration → Database S → Database S × Option Err
  run_down engine x db =
      if link.begins x.version
      then elim (engine x.down_sql db.schema) [
        | none ↦ (db, some sql_failed)
        | some schema ↦ record_down x db schema
      ]
      else (db, some not_begun)

  -- The loop of `Up`, which returns at the first error.
  abbrev pub after_up :
      ℤ → Database S × Option Err → Database S × Option Err → Database S × Option Err
  after_up v (db, none) rest = rest
  after_up v (db, some e) rest = (db, some (migration_failed v e))

  -- One turn: `if migration.Version > current`.
  abbrev pub pending_up : Engine S → ℤ → Migration → Database S → Database S × Option Err
  pending_up engine current x db =
      if lt_int current x.version then run_up engine x db else (db, none)

  unfoldable pub run_each : Engine S → ℤ → List Migration → Database S → Database S × Option Err
  run_each engine current [] db = (db, none)
  run_each engine current (x ∷ xs) db =
      let made = pending_up engine current x db in
      after_up x.version made (run_each engine current xs made.0)

  -- `Up`, which leaves the migrations sorted.
  unfoldable pub up :
      Engine S → List Migration → Database S → (List Migration × Database S) × Option Err
  up engine migrations db = elim (init db) [
    | none ↦ ((migrations, db), some not_created)
    | some ready ↦ elim (current_version ready) [
      | none ↦ ((migrations, ready), some no_version)
      | some current ↦
          let (last, e) = run_each engine current (sort migrations) ready in
          ((sort migrations, last), e)
    ]
  ]

  -- The loop of `Down`.
  unfoldable pub roll_back : Engine S → ℤ → List Migration → Database S → Database S × Option Err
  roll_back engine current [] db = (db, some (not_found current))
  roll_back engine current (x ∷ xs) db =
      if same_int x.version current then run_down engine x db else roll_back engine current xs db

  unfoldable pub down : Engine S → List Migration → Database S → Database S × Option Err
  down engine migrations db = elim (current_version db) [
    | none ↦ (db, some no_version)
    | some current ↦
        if same_int current (pos 0)
        then (db, some nothing_to_roll_back)
        else roll_back engine current migrations db
  ]

  -- `Status`: the error of the query is ignored, and the version is 0 then.
  unfoldable pub status : List Migration → Database S → Database S × Option (List MigrationStatus)
  status migrations db = elim (init db) [
    | none ↦ (db, none)
    | some ready ↦
        let current = or_zero (current_version ready) in
        (ready, some (status_of current migrations))
  ]
