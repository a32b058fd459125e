-- ===== src/Orm/Delete.antt =====
-- plugins/db/orm/delete_builder.go, and which argument the database binds to which placeholder of a
-- DELETE.
use golang_gin_rpc.Base.{◌≡◌, refl, Option, none, some, List, [], ◌∷◌, String, All}
use golang_gin_rpc.Base.Int.{ℤ, pos}
use golang_gin_rpc.Orm.{Dialect, word, name, Text}
use golang_gin_rpc.Orm.Where.{WhereBuilder, eq, new_where_builder, compare_with, in_values}
use golang_gin_rpc.Orm.Query.{Join, Built, words, with_clauses}
use golang_gin_rpc.Orm.Columns.{UpdateBuilder, build_update}
use golang_gin_rpc.Orm.Where.{Calls}
use golang_gin_rpc.Orm.Slots.{slots}
use golang_gin_rpc.Orm.Fill.{Said, says, fill}
use golang_gin_rpc.Orm.Clause.{where_said, said_calls}
use golang_gin_rpc.Orm.Parts.{
  IsQuiet, IsJoin, IsMade, read, Says-read, quiet-Says, with_clauses-Says, clauses_said,
}
use golang_gin_rpc.Orm.Update.{IsSoundUpdate, update_said, read-build_update}

pub record DeleteBuilder {ℓ} (A : Type ℓ) : Type ℓ where
  pub table : String
  pub conditions : WhereBuilder A
  pub joins : List (Join A)
  pub order_by : List Text
  pub limit : ℤ
  pub dialect : Dialect

module _ {ℓ} {A : Type ℓ} where
  unfoldable pub new_delete_builder : String → Dialect → DeleteBuilder A
  new_delete_builder table dialect = record {
    table = table;
    conditions = new_where_builder dialect;
    joins = [];
    order_by = [];
    limit = pos 0;
    dialect = dialect;
  }

  unfoldable pub where_delete :
      (WhereBuilder A → WhereBuilder A) → DeleteBuilder A → DeleteBuilder A
  where_delete change db = record db { conditions = change db.conditions }

  -- `Build`.
  unfoldable pub build_delete : DeleteBuilder A → Built A
  build_delete db =
      with_clauses db.dialect db.joins db.conditions db.order_by db.limit
        (words (word "DELETE FROM" ∷ name db.table ∷ []))

  -- What `DeleteByID` makes of the builder before it runs the statement.
  unfoldable pub delete_by_id : String → A → DeleteBuilder A → DeleteBuilder A
  delete_by_id id_column id db = where_delete (compare_with eq id_column id) db

  -- `DeleteByIDs`, which runs no statement without ids.
  unfoldable pub delete_by_ids : String → List A → DeleteBuilder A → Option (DeleteBuilder A)
  delete_by_ids id_column [] db = none
  delete_by_ids id_column (id ∷ ids) db =
      some (where_delete (in_values "IN (" "1=0" id_column (id ∷ ids)) db)

  -- `DeleteWithVersion`.
  unfoldable pub delete_with_version : String → A → String → A → DeleteBuilder A → DeleteBuilder A
  delete_with_version id_column id version_field current_version db =
      where_delete (compare_with eq version_field current_version)
        (where_delete (compare_with eq id_column id) db)

  -- A delete whose conditions are those of the calls, and the joins of which have the placeholders of
  -- their arguments.
  pub record IsSoundDelete (calls : Calls A) (db : DeleteBuilder A) : Type ℓ where
    pub joins : All (IsJoin db.dialect) db.joins
    pub conditions : IsMade db.dialect calls db.conditions
    pub order_by : All IsQuiet db.order_by

  -- What a delete says.
  abbrev pub delete_said : Calls A → DeleteBuilder A → List (Said A)
  delete_said calls db =
      clauses_said db.joins (where_said "WHERE" (said_calls db.dialect calls [])) db.order_by
        db.limit (says (word "DELETE FROM") ∷ says (name db.table) ∷ [])

  read-build_delete :
      (calls : Calls A) (db : DeleteBuilder A)
      → IsSoundDelete calls db
      → read (build_delete db) ≡ delete_said calls db
  unfolding build_delete slots fill
  read-build_delete calls db h =
      let first = word "DELETE FROM" ∷ name db.table ∷ [] in
      Says-read db.dialect (build_delete db) (delete_said calls db) (
        with_clauses-Says db.dialect db.joins calls db.conditions db.order_by db.limit (words first)
          (says (word "DELETE FROM") ∷ says (name db.table) ∷ [])
          (quiet-Says A db.dialect 0 first refl) h.joins h.conditions h.order_by)

  -- What the database reads of an UPDATE and of a DELETE, in every dialect: the columns in the order
  -- of their names, each with the value or the expression that it was given, the joins, each with its
  -- own arguments, what the calls on the WHERE builder say, each with its own arguments, and the order
  -- and limit. The database binds a question mark by its place and `$n` by its number. The conditions
  -- of joins and the expressions have as many marks as arguments and no other placeholder; the calls
  -- are as in `bind-build_with_offset`, and the order has no placeholder.
  pub read-changes :
      (changes removals : Calls A) (ub : UpdateBuilder A) (db : DeleteBuilder A)
      → IsSoundUpdate changes ub
      → IsSoundDelete removals db
      → (read (build_update ub) ≡ update_said changes ub)
        × (read (build_delete db) ≡ delete_said removals db)
  read-changes changes removals ub db hu hd =
      (read-build_update changes ub hu, read-build_delete removals db hd)
