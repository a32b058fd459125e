-- ===== src/Migration/Resume.antt =====
-- plugins/db/migration/migrator.go: an `Up` that failed, and the `Up` after it.
use golang_gin_rpc.Base.{
  ◌≡◌, refl, sym, ◌∙◌, true, false, Bool-cases, Option, none, some, Option-cases, List, [], ◌∷◌,
  ◌++◌, arith, inl, inr, IsDistinct, some-injective, none-absurd, ap, subst,
}
use golang_gin_rpc.Base.Int.{ℤ, lt_int, ◌<ℤ◌, int_eq}
use golang_gin_rpc.Migration.{
  Migration, Rows, Database, Engine, Link, max_version, sort, init, current_version, record_up,
  run_up, after_up, run_each, up, Err,
}
use mathlib.Core.List.{append-nil}
use golang_gin_rpc.Migration.Err.{not_created, no_version}
use golang_gin_rpc.Migration.Order.{
  versions, Below, sort-IsAscending, sort-ascending, has-max_version, max_version-new,
}
use golang_gin_rpc.Migration.Batch.{
  above, apply_each, rows_after, IsPending, above-IsPending, above-above, last_version,
  last_version-le, above-last_version, max_version-rows_after,
}
use golang_gin_rpc.Migration.Upward.{
  rows_of, recorded, opened, sorted_result, IsAfter, up_connected, up_applies_prefix,
}

-- No call of the driver fails.
abbrev pub working : Link
working = record {
  creates = true;
  answers = true;
  begins = λ _. true;
  records = λ _. true;
  commits = λ _. true;
  undoes = λ _. true;
}

module _ {ℓ} {S : Type ℓ} (engine : Engine S) where
  pub run_up-working :
      (x : Migration) (s' : S) (db : Database S) (rows : Rows)
      → db.table ≡ some rows
      → max_version rows <ℤ x.version
      → engine x.up_sql db.schema ≡ some s'
      → run_up working engine x db ≡ (recorded x rows s', none)
  unfolding run_up record_up
  run_up-working x s' db rows t new good = rw (good, t, has-max_version x.version rows new)

  -- The loop passes over what is not above the current version.
  pub run_each-above :
      (link : Link) (c d : ℤ) (xs : List Migration) (db : Database S)
      → Below d (above c xs)
      → run_each link engine c xs db ≡ run_each link engine d (above c xs) db
  unfolding run_each above
  run_each-above link c d [] db b = refl
  run_each-above link c d (x ∷ xs) db b = elim (Bool-cases (lt_int c x.version)) [
    | inr old ↦ rw old (run_each-above link c d xs db (rw old at b))
    | inl new ↦
        let b' : (d <ℤ x.version) × Below d (above c xs) = rw new at b in
        let e : lt_int d x.version ≡ true = ground arith in
        rw (new, e)
          (ap (λ r. after_up link x.version (run_up link engine x db) r)
            (run_each-above link c d xs (run_up link engine x db).0 b'.1))
  ]

  run_each-resumed :
      (c : ℤ) (done rest : List Migration) (db db' : Database S) (rows : Rows)
      → db.table ≡ some rows
      → Below c (done ++ rest)
      → IsPending (max_version rows) (done ++ rest)
      → IsAfter engine done db.schema rows db'
      → run_each working engine c (done ++ rest) db ≡ run_each working engine c rest db'
  unfolding run_each apply_each
  run_each-resumed c [] rest db db' rows t b p a =
      ap (λ (x : Database S). run_each working engine c rest x) (ground (arith, some-injective a.0))
  run_each-resumed c (x ∷ done) rest db db' rows t b p a =
      elim (Option-cases (engine x.up_sql db.schema)) [
        | inl bad ↦ none-absurd (rw (bad, apply_each) at a.0)
        | inr (s, good) ↦
            let e : lt_int c x.version ≡ true = ground arith in
            rw (e, run_up-working x s db rows t p.0.0 good)
              (run_each-resumed c done rest (recorded x rows s) db' ((x.version, x.name) ∷ rows)
                refl b.1 (rw (max_version-new x.version rows p.0.0) p.1)
                (rw (good, apply_each) at a.0, a.1))
      ]

  above_rest :
      (c : ℤ) (xs done rest : List Migration)
      → IsPending c (done ++ rest)
      → above c xs ≡ done ++ rest
      → above (last_version c done) xs ≡ rest
  above_rest c xs done rest p split =
      sym (above-above c (last_version c done) xs (last_version-le c done rest p))
      ∙ ap (above (last_version c done)) split
      ∙ above-last_version c done rest p

  Below-append : (c : ℤ) (xs ys : List Migration) → Below c (xs ++ ys) → Below c ys
  Below-append c [] ys b = b
  Below-append c (x ∷ xs) ys b = Below-append c xs ys b.1

  -- The database after the migrations, which leave the schema as the last argument.
  abbrev pub after_all : List Migration → Rows → S → Database S
  after_all done rows s = record { schema = s; table = some (rows_after done rows) }

  -- Where the driver's calls succeed and so does the SQL of each pending migration, in ascending
  -- order, `Up` returns no error, and leaves the schema that this SQL makes and the rows of all of
  -- them. The registered versions are distinct.
  pub up_complete :
      (ms : List Migration) (db : Database S) (s : S)
      → IsDistinct (versions ms)
      → apply_each engine (above (max_version (rows_of db)) (sort ms)) db.schema ≡ some s
      → up working engine ms db
        ≡ ((sort ms, after_all (above (max_version (rows_of db)) (sort ms)) (rows_of db) s), none)
  unfolding run_each
  up_complete ms db s d good =
      let c = max_version (rows_of db) in
      let todo = above c (sort ms) in
      let p : IsPending c todo = above-IsPending c (sort ms) (sort-IsAscending ms d) in
      let q : IsPending c (todo ++ []) = rw (append-nil todo) p in
      let e : run_each working engine c todo (opened engine db)
          ≡ (after_all todo (rows_of db) s, none) =
        ap (λ l. run_each working engine c l (opened engine db)) (sym (append-nil todo))
        ∙ run_each-resumed c todo [] (opened engine db) (after_all todo (rows_of db) s) (rows_of db)
            refl q.0 q (good, refl) in
      rw (up_connected engine working ms db refl refl) (
        ap (sorted_result engine ms)
          (run_each-above working c c (sort ms) (opened engine db) p.0 ∙ e))

  module _ (ms done rest : List Migration) (db : Database S) (s : S) (d : IsDistinct (versions ms))
      (split : above (max_version (rows_of db)) (sort ms) ≡ done ++ rest)
      (good : apply_each engine done db.schema ≡ some s) where
    pending : IsPending (max_version (rows_of db)) (done ++ rest)
    pending =
        subst (IsPending (max_version (rows_of db))) split
          (above-IsPending (max_version (rows_of db)) (sort ms) (sort-IsAscending ms d))

    -- What is left of an interrupted run.
    uninterrupted :
        run_each working engine (max_version (rows_of db)) (sort ms) (opened engine db)
        ≡ run_each working engine (max_version (rows_of db)) rest (after_all done (rows_of db) s)
    uninterrupted =
        let c = max_version (rows_of db) in
        run_each-above working c c (sort ms) (opened engine db) (rw split pending.0)
        ∙ ap (λ l. run_each working engine c l (opened engine db)) split
        ∙ run_each-resumed c done rest (opened engine db) (after_all done (rows_of db) s)
            (rows_of db) refl pending.0 pending (good, refl)

    the_rest : above (max_version (rows_after done (rows_of db))) (sort ms) ≡ rest
    the_rest =
        rw (max_version-rows_after done rest (rows_of db) pending)
          (above_rest (max_version (rows_of db)) (sort ms) done rest pending split)

    continued :
        run_each working engine
          (max_version (rows_after done (rows_of db)))
          (sort ms)
          (after_all done (rows_of db) s)
        ≡ run_each working engine (max_version (rows_of db)) rest (after_all done (rows_of db) s)
    continued =
        let c = max_version (rows_of db) in
        run_each-above working (max_version (rows_after done (rows_of db))) c (sort ms)
          (after_all done (rows_of db) s) (rw the_rest (Below-append c done rest pending.0))
        ∙ ap (λ l. run_each working engine c l (after_all done (rows_of db) s)) the_rest

    resumed_from :
        up working engine (sort ms) (after_all done (rows_of db) s) ≡ up working engine ms db
    resumed_from = rw (
      up_connected engine working (sort ms) (after_all done (rows_of db) s) refl refl,
      up_connected engine working ms db refl refl,
      sort-ascending (sort ms) (sort-IsAscending ms d),
      uninterrupted,
      continued,
    )

  resumed :
      (ms : List Migration) (db : Database S) (r : (List Migration × Database S) × Option Err)
      → IsDistinct (versions ms)
      → r.0.0 ≡ sort ms
      → (done : List Migration) (rest : List Migration)
      → above (max_version (rows_of db)) (sort ms) ≡ done ++ rest
      → IsAfter engine done db.schema (rows_of db) r.0.1
      → up working engine r.0.0 r.0.1 ≡ up working engine ms db
  resumed ms db r d e done rest split a =
      let t : after_all done (rows_of db) r.0.1.schema ≡ r.0.1 = ground (arith, a.1) in
      rw e (
        subst (λ (x : Database S). up working engine (sort ms) x ≡ up working engine ms db) t
          (resumed_from ms done rest db r.0.1.schema d split a.0))

  pub up_unmade :
      (link : Link) (ms : List Migration) (db : Database S)
      → link.creates ≡ false
      → up link engine ms db ≡ ((ms, db), some not_created)
  unfolding up init
  up_unmade link ms db off = rw off

  pub up_unread :
      (link : Link) (ms : List Migration) (db : Database S)
      → link.creates ≡ true
      → link.answers ≡ false
      → up link engine ms db ≡ ((ms, opened engine db), some no_version)
  unfolding up init current_version
  up_unread link ms db on off = elim (Option-cases db.table) [
    | inl t ↦ rw (on, t, off)
    | inr (rows, t) ↦ rw (on, t, off)
  ]

  -- An `Up` that stopped at an error, at whichever call and migration, is made good by the next one:
  -- an `Up` that the driver lets through ends in the same migrations, the same database and the same
  -- error, if the SQL itself gives one, whether the interrupted run came before it or not. The
  -- registered versions are distinct, and the database takes back what a transaction that is not
  -- committed did to the schema.
  pub up_resumes :
      (link : Link) (ms : List Migration) (db : Database S)
      → IsDistinct (versions ms)
      → ((v : ℤ) → link.undoes v ≡ true)
      → up working engine (up link engine ms db).0.0 (up link engine ms db).0.1
        ≡ up working engine ms db
  up_resumes link ms db d undone = elim (Bool-cases link.creates) [
    | inr off ↦ rw (up_unmade link ms db off)
    | inl on ↦ elim (Bool-cases link.answers) [
      | inr off ↦ rw (up_unread link ms db on off) (
          up_connected engine working ms (opened engine db) refl refl
          ∙ sym (up_connected engine working ms db refl refl))
      | inl answered ↦
          let (e, _, _, (done, rest, split, a, _)) =
            up_applies_prefix engine link ms db d on answered undone in
          resumed ms db (up link engine ms db) d e done rest split a
    ]
  ]
