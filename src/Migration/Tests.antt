-- ===== src/Migration/Tests.antt =====
-- The migrator on concrete inputs. The schema is a number that each text of SQL changes.
use golang_gin_rpc.Base.{
  ℕ, ◌+◌, ◌-◌, ◌≡◌, refl, true, none, some, List, [], ◌∷◌, ◌++◌, arith, string_eq, ◌==◌,
  if◌then◌else◌, ltb, ◌&&◌, lookup, some-injective, IsDistinct, length,
}
use golang_gin_rpc.Base.Int.{pos, int_eq}
use golang_gin_rpc.Migration.{
  Migration, Database, Engine, Link, Err, max_version, place, sort, up, run_each, run_up, record_up,
  init, current_version, status,
}
use golang_gin_rpc.Migration.Order.{versions, IsAscending}
use golang_gin_rpc.Migration.Batch.{above, apply_each}
use golang_gin_rpc.Migration.Upward.{rows_of, opened, IsAfter, StoppedAt, up_applies_prefix}
use golang_gin_rpc.Migration.Resume.{working, after_all, up_resumes, up_complete}
use golang_gin_rpc.Migration.Rollback.{down_times, down-up, IsUndone}
use golang_gin_rpc.Migration.Late.{IsLate, SaysApplied, IsLate-never_applied}
use mathlib.Core.List.{Perm}

-- "u" adds one to the schema, "d" takes it away, and nothing else is SQL.
abbrev engine : Engine ℕ
engine sql s =
    if sql == "u" then some (s + 1) else if sql == "d" && ltb 0 s then some (s - 1) else none

abbrev migration : ℕ → Migration
migration n = record { version = pos n; name = "m"; up_sql = "u"; down_sql = "d" }

abbrev registered : List Migration
registered = migration 3 ∷ migration 1 ∷ migration 2 ∷ []

abbrev fresh : Database ℕ
fresh = record { schema = 10; table = none }

-- A driver that cannot commit the migration 2.
abbrev flaky : Link
flaky = record working { commits = λ v. elim v [ pos n ↦ ltb n 2 | _ ↦ true ] }

distinct : IsDistinct (versions registered)
distinct = (refl, (refl, (refl, tt)))

stops_at_two : up flaky engine registered fresh ≡ (
  (
    migration 1 ∷ migration 2 ∷ migration 3 ∷ [],
    record { schema = 11; table = some ((pos 1, "m") ∷ []) },
  ),
  some (Err.migration_failed (pos 2) Err.not_committed),
)
unfolding up init current_version run_each run_up record_up sort place lookup
stops_at_two = refl

up_applies_prefix_example :
    ((up flaky engine registered fresh).0.0 ≡ sort registered)
    × Perm (sort registered) registered
    × IsAscending (sort registered)
    × ((done : List Migration) × (rest : List Migration) × (above
            (max_version (rows_of fresh))
            (sort registered)
          ≡ done ++ rest)
        × IsAfter engine done 10 [] (up flaky engine registered fresh).0.1
        × StoppedAt rest (up flaky engine registered fresh).1)
up_applies_prefix_example =
    up_applies_prefix engine flaky registered fresh distinct refl refl (λ v. refl)

up_resumes_example :
    up working engine (up flaky engine registered fresh).0.0 (up flaky engine registered fresh).0.1
    ≡ up working engine registered fresh
up_resumes_example = up_resumes engine flaky registered fresh distinct (λ v. refl)

all_apply : apply_each engine (above (max_version (rows_of fresh)) (sort registered)) 10 ≡ some 13
unfolding apply_each above sort place
all_apply = refl

up_complete_example : up working engine registered fresh ≡ (
  (
    sort registered,
    after_all engine (above (max_version (rows_of fresh)) (sort registered)) (rows_of fresh) 13,
  ),
  none,
)
up_complete_example = up_complete engine registered fresh 13 distinct all_apply

up_works : (up working engine registered fresh).1 ≡ none
unfolding up init current_version run_each run_up record_up sort place lookup
up_works = refl

undone : (n : ℕ) → IsUndone engine (migration n)
undone n s s' e = ground (arith, some-injective e)

down-up_example :
    down_times engine working
      (up working engine registered fresh).0.0
      (length (above (max_version (rows_of fresh)) (sort registered)))
      (up working engine registered fresh).0.1
    ≡ (opened engine fresh, none)
down-up_example =
    down-up engine registered fresh distinct (undone 3, (undone 1, (undone 2, tt))) (omega arith)
      up_works

-- The versions 1 and 3 have run, and 2 is registered now.
abbrev ahead : Database ℕ
ahead = record { schema = 12; table = some ((pos 3, "m") ∷ (pos 1, "m") ∷ []) }

two-IsLate : IsLate (pos 2) ahead
unfolding lookup
two-IsLate = ((pos 3, "m") ∷ (pos 1, "m") ∷ [], refl, refl, omega arith)

IsLate-never_applied_example :
    IsLate (pos 2) (up working engine registered ahead).0.1
    × SaysApplied
        (pos 2)
        (status working
          (up working engine registered ahead).0.0
          (up working engine registered ahead).0.1).1
IsLate-never_applied_example =
    IsLate-never_applied engine working (pos 2) registered ahead two-IsLate
