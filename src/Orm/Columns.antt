-- ===== src/Orm/Columns.antt =====
-- plugins/db/orm/update_builder.go: the columns that an update sets, and its statement.
use golang_gin_rpc.Base.{
  ℕ, ◌+◌, Bool, true, false, List, [], ◌∷◌, String, length, if◌then◌else◌, Dict, insert, string_eq,
}
use golang_gin_rpc.Base.Int.{ℤ, pos}
use golang_gin_rpc.Orm.{
  Dialect, Piece, word, name, Text, placeholder, replace_condition_placeholders,
}
use golang_gin_rpc.Orm.Where.{
  WhereBuilder, eq, new_where_builder, add_and, compare_with, next_placeholder,
}
use Prim.Native.Nat.{Ordering}
use Prim.Native.String.{compare}
use golang_gin_rpc.Orm.Query.{Join, Built, then_built, words, with_clauses}

-- A value of a column: an argument, or `SQLExpr`.
pub data Value {ℓ} (A : Type ℓ) : Type ℓ where
  plain : A → Value A
  expr : Text → List A → Value A

pub record UpdateBuilder {ℓ} (A : Type ℓ) : Type ℓ where
  pub table : String
  pub columns : Dict String (Value A)
  pub conditions : WhereBuilder A
  pub joins : List (Join A)
  pub order_by : List Text
  pub limit : ℤ
  pub dialect : Dialect
  pub version_field : String

abbrev pub lt_text : String → String → Bool
lt_text s t = elim (compare s t) [ Ordering.lt ↦ true | _ ↦ false ]

module _ {ℓ} {A : Type ℓ} where
  unfoldable pub new_update_builder : String → Dialect → UpdateBuilder A
  new_update_builder table dialect = record {
    table = table;
    columns = [];
    conditions = new_where_builder dialect;
    joins = [];
    order_by = [];
    limit = pos 0;
    dialect = dialect;
    version_field = "version";
  }

  unfoldable pub set_value : String → Value A → UpdateBuilder A → UpdateBuilder A
  set_value column value ub = record ub { columns = insert column value ub.columns }

  unfoldable pub where_update :
      (WhereBuilder A → WhereBuilder A) → UpdateBuilder A → UpdateBuilder A
  where_update change ub = record ub { conditions = change ub.conditions }

  unfoldable pub place_key : String × Value A → Dict String (Value A) → Dict String (Value A)
  place_key x [] = x ∷ []
  place_key x (y ∷ ys) = if lt_text x.0 y.0 then x ∷ y ∷ ys else y ∷ place_key x ys

  -- `sort.Strings` on the keys.
  unfoldable pub sort_keys : Dict String (Value A) → Dict String (Value A)
  sort_keys [] = []
  sort_keys (x ∷ columns) = place_key x (sort_keys columns)

  abbrev pub value_built : Dialect → ℕ → Value A → Built A
  value_built d k (plain a) = (placeholder d k ∷ [], a ∷ [])
  value_built d k (expr sql args) = (replace_condition_placeholders sql d k, args)

  unfoldable pub set_one : Dialect → ℕ → String × Value A → Built A
  set_one d k (column, v) = then_built (words (name column ∷ word "=" ∷ [])) (value_built d k v)

  -- The loop over the keys, with `strings.Join(setParts, ", ")`.
  unfoldable pub set_each : Dialect → ℕ → Dict String (Value A) → Built A
  set_each d k [] = ([], [])
  set_each d k (x ∷ []) = set_one d k x
  set_each d k (x ∷ y ∷ columns) =
      then_built (set_one d k x) (
        then_built (words (word "," ∷ []))
          (set_each d (k + length (set_one d k x).1) (y ∷ columns)))

  unfoldable pub set_clause : UpdateBuilder A → Built A
  set_clause ub =
      then_built (words (word "UPDATE" ∷ name ub.table ∷ word "SET" ∷ []))
        (set_each ub.dialect 0 (sort_keys ub.columns))

  -- A statement without columns is empty: `Build` returns before it writes anything.
  unfoldable pub where_columns : Dict String (Value A) → Built A → Built A
  where_columns [] built = ([], [])
  where_columns (_ ∷ _) built = built

  -- `Build`.
  unfoldable pub build_update : UpdateBuilder A → Built A
  build_update ub =
      where_columns ub.columns
        (with_clauses ub.dialect ub.joins ub.conditions ub.order_by ub.limit (set_clause ub))

  -- What `UpdateWithVersion` makes of the builder before it runs the query; `one` is the argument 1.
  unfoldable pub with_version : A → String → A → A → UpdateBuilder A → UpdateBuilder A
  with_version id id_column current_version one ub =
      let field = ub.version_field in
      let checked =
        where_update
          (λ wb.
            add_and (name field ∷ word "=" ∷ next_placeholder wb ∷ []) (current_version ∷ []) wb)
          ub in
      where_update (compare_with eq id_column id)
        (set_value field (expr (name field ∷ word "+" ∷ Piece.mark ∷ []) (one ∷ [])) checked)
