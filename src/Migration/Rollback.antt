-- ===== src/Migration/Rollback.antt =====
-- plugins/db/migration/migrator.go: `Down` after `Up`, and migrations that were registered late.
use golang_gin_rpc.Base.{
  ℕ, zero, suc, ◌≡◌, refl, sym, ◌∙◌, false, Bool-cases, Option, none, some, Option-cases, List, [],
  ◌∷◌, ◌++◌, arith, inl, inr, IsDistinct, has, erase, lookup, some-injective, none-absurd, All,
  length, subst, ==_self,
}
use golang_gin_rpc.Base.Int.{ℤ, pos, lt_int, ◌≤ℤ◌, ◌<ℤ◌, int_eq, same_int, same_int_iff}
use golang_gin_rpc.Migration.{
  Migration, Rows, Database, Engine, Link, Err, max_version, max_from, sort, current_version,
  run_down, record_down, roll_back, down, up,
}
use golang_gin_rpc.Migration.Order.{
  versions, Below, IsAscending, All-sort, sort-IsAscending, has-max_version, max_version-new,
}
use golang_gin_rpc.Migration.Batch.{above, apply_each, rows_after, IsPending, above-IsPending}
use golang_gin_rpc.Migration.Upward.{
  rows_of, recorded, opened, IsAfter, StoppedAt, up_applies_prefix,
}
use golang_gin_rpc.Migration.Resume.{working}
use mathlib.Core.List.{append-nil}

erase_absent : (v : ℤ) (rows : Rows) → has v rows ≡ false → erase v rows ≡ rows
unfolding erase lookup
erase_absent v [] h = refl
erase_absent v ((w, name) ∷ rows) h = ground (arith, erase_absent v rows)

module _ {ℓ} {S : Type ℓ} (engine : Engine S) where
  -- `Down`, a number of times, as long as it succeeds.
  abbrev pub after_down :
      Database S × Option Err → (Database S → Database S × Option Err) → Database S × Option Err
  after_down (db, none) next = next db
  after_down (db, some e) next = (db, some e)

  abbrev pub down_times : Link → List Migration → ℕ → Database S → Database S × Option Err
  down_times link ms zero db = (db, none)
  down_times link ms (suc n) db = after_down (down_times link ms n db) (λ x. down link engine ms x)

  -- What the down SQL of a migration undoes of its up SQL.
  abbrev pub IsUndone : Migration → Type ℓ
  IsUndone x = (s s' : S) → engine x.up_sql s ≡ some s' → engine x.down_sql s' ≡ some s

  -- The search for the migration to roll back finds it.
  Found : List Migration → Migration → Type ℓ
  Found ms x =
      (db : Database S) → roll_back working engine x.version ms db ≡ run_down working engine x db

  Found-cons :
      (y : Migration) (ms xs : List Migration)
      → Below y.version xs
      → All (Found ms) xs
      → All (Found (y ∷ ms)) xs
  unfolding Found roll_back
  Found-cons y ms [] b f = tt
  Found-cons y ms (x ∷ xs) b f =
      let e : same_int y.version x.version ≡ false =
        ground (arith, same_int_iff y.version x.version) in
      (λ db. rw e (f.0 db), Found-cons y ms xs b.1 f.1)

  Found-each : (ms : List Migration) → IsAscending ms → All (Found ms) ms
  unfolding Found roll_back
  Found-each [] a = tt
  Found-each (x ∷ xs) a = (λ db. rw (==_self x.version), Found-cons x xs xs a.0 (Found-each xs a.1))

  All-above : (c : ℤ) (P : Migration → Type ℓ) (xs : List Migration) → All P xs → All P (above c xs)
  unfolding above
  All-above c P [] h = tt
  All-above c P (x ∷ xs) h = elim (Bool-cases (lt_int c x.version)) [
    | inl new ↦ rw new (h.0, All-above c P xs h.1)
    | inr old ↦ rw old (All-above c P xs h.1)
  ]

  down-recorded :
      (ms : List Migration) (x : Migration) (rows : Rows) (s s' : S)
      → Found ms x
      → pos 0 ≤ℤ max_version rows
      → max_version rows <ℤ x.version
      → engine x.down_sql s' ≡ some s
      → down working engine ms (recorded x rows s')
        ≡ (record { schema = s; table = some rows }, none)
  unfolding Found down current_version run_down record_down erase
  down-recorded ms x rows s s' found positive new undone =
      let e : max_from x.version rows ≡ x.version = max_version-new x.version rows new in
      let nonzero : same_int x.version (pos 0) ≡ false =
        ground (arith, same_int_iff x.version (pos 0)) in
      rw (
        e,
        nonzero,
        found (recorded x rows s'),
        undone,
        ==_self x.version,
        erase_absent x.version rows (has-max_version x.version rows new),
      )

  down_times-applied :
      (ms xs : List Migration) (s s' : S) (rows : Rows)
      → All (Found ms) xs
      → All IsUndone xs
      → pos 0 ≤ℤ max_version rows
      → IsPending (max_version rows) xs
      → apply_each engine xs s ≡ some s'
      → down_times working ms
          (length xs)
          (record { schema = s'; table = some (rows_after xs rows) })
        ≡ (record { schema = s; table = some rows }, none)
  unfolding apply_each
  down_times-applied ms [] s s' rows f u o p a = ground (arith, some-injective a)
  down_times-applied ms (x ∷ xs) s s' rows f u o p a = elim (Option-cases (engine x.up_sql s)) [
    | inl bad ↦ none-absurd (rw (bad, apply_each) at a)
    | inr (t, good) ↦
        let e : max_from x.version rows ≡ x.version = max_version-new x.version rows p.0.0 in
        rw
          (down_times-applied ms xs t s' ((x.version, x.name) ∷ rows) f.1 u.1 (rw e (omega arith))
            (rw e p.1) (rw (good, apply_each) at a))
          (down-recorded ms x rows s t f.0 o p.0.0 (u.0 s t good))
  ]

  nothing_left :
      (done rest : List Migration) (e : Option Err)
      → StoppedAt rest e
      → e ≡ none
      → done ++ rest ≡ done
  nothing_left done [] e stop ok = append-nil done
  nothing_left done (x ∷ xs) e (cause, failed) ok = none-absurd (sym ok ∙ failed)

  rolled_back :
      (ms : List Migration) (db : Database S) (r : (List Migration × Database S) × Option Err)
      → IsDistinct (versions ms)
      → All IsUndone ms
      → pos 0 ≤ℤ max_version (rows_of db)
      → r.0.0 ≡ sort ms
      → (done : List Migration) → above (max_version (rows_of db)) (sort ms) ≡ done
      → IsAfter engine done db.schema (rows_of db) r.0.1
      → down_times working r.0.0 (length done) r.0.1 ≡ (opened engine db, none)
  rolled_back ms db r d u o e done split a =
      let c = max_version (rows_of db) in
      let asc : IsAscending (sort ms) = sort-IsAscending ms d in
      let t : r.0.1
          ≡ record { schema = r.0.1.schema; table = some (rows_after done (rows_of db)) } =
        ground (arith, a.1) in
      rw e (
        subst
          (λ (x : Database S).
            down_times working (sort ms) (length done) x ≡ (opened engine db, none))
          (sym t)
          (down_times-applied (sort ms) done db.schema r.0.1.schema (rows_of db)
            (subst (All (Found (sort ms))) split
              (All-above c (Found (sort ms)) (sort ms) (Found-each (sort ms) asc)))
            (subst (All IsUndone) split (All-above c IsUndone (sort ms) (All-sort IsUndone ms u))) o
            (subst (IsPending c) split (above-IsPending c (sort ms) asc)) a.0))

  -- `Down`, as many times as `Up` has just applied migrations, undoes them: the schema and the rows
  -- are those before `Up`, and no call gives an error. Registered versions are distinct, the down
  -- SQL of each migration undoes its up SQL, no recorded version is negative, and the driver's calls
  -- succeed.
  pub down-up :
      (ms : List Migration) (db : Database S)
      → IsDistinct (versions ms)
      → All IsUndone ms
      → pos 0 ≤ℤ max_version (rows_of db)
      → (up working engine ms db).1 ≡ none
      → down_times working
          (up working engine ms db).0.0
          (length (above (max_version (rows_of db)) (sort ms)))
          (up working engine ms db).0.1
        ≡ (opened engine db, none)
  down-up ms db d u o ok =
      let (e, _, _, (done, rest, split, a, stop)) =
        up_applies_prefix engine working ms db d refl refl (λ v. refl) in
      let whole : above (max_version (rows_of db)) (sort ms) ≡ done =
        split ∙ nothing_left done rest (up working engine ms db).1 stop ok in
      rw whole (rolled_back ms db (up working engine ms db) d u o e done whole a)
