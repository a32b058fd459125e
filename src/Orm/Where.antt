-- ===== src/Orm/Where.antt =====
-- plugins/db/orm/where_builder.go. A function that fills a group is the list of its calls.
use golang_gin_rpc.Base.{
  ℕ, zero, suc, ◌+◌, Bool, true, false, List, [], ◌∷◌, ◌++◌, String, length, if◌then◌else◌,
}
use golang_gin_rpc.Orm.{
  Dialect, postgresql, mysql, sqlite, clickhouse, default_dialect, Piece, word, name, Text,
  placeholder, join, count_marks, replace_marks, shift_placeholders_if_needed,
}

pub record WhereBuilder {ℓ} (A : Type ℓ) : Type ℓ where
  pub conditions : List Text
  pub args : List A
  pub dialect : Dialect

-- `Eq`, `Ne`, `Gt`, `Gte`, `Lt`, `Lte` and `Like`.
pub data Op : Type 0 where
  eq : Op
  ne : Op
  gt : Op
  gte : Op
  lt : Op
  lte : Op
  like : Op

unfoldable pub op_text : Op → String
op_text eq = "="
op_text ne = "!="
op_text gt = ">"
op_text gte = ">="
op_text lt = "<"
op_text lte = "<="
op_text like = "LIKE"

abbrev pub is_postgres : Dialect → Bool
is_postgres postgresql = true
is_postgres mysql = false
is_postgres sqlite = false
is_postgres clickhouse = false
is_postgres default_dialect = false

-- The placeholders of `n` values from an index on.
unfoldable pub placeholders_from : Dialect → ℕ → ℕ → List Text
placeholders_from dialect index zero = []
placeholders_from dialect index (suc n) =
    (placeholder dialect index ∷ []) ∷ placeholders_from dialect (index + 1) n

abbrev pub led_by : String → Text → List Text → Text
led_by w condition [] = condition
led_by w condition (c ∷ conditions) = word w ∷ condition

abbrev pub enclosed : Text → Text → Text
enclosed head query = head ++ (word "(" ∷ (query ++ word ")" ∷ []))

-- The loop of `BuildWithOffset` over the conditions.
unfoldable pub numbered_conditions : Dialect → ℕ → List Text → List Text
numbered_conditions dialect index [] = []
numbered_conditions dialect index (c ∷ conditions) =
    replace_marks (count_marks c) dialect index c
    ∷ numbered_conditions dialect (index + count_marks c) conditions

module _ {ℓ} {A : Type ℓ} where
  unfoldable pub new_where_builder : Dialect → WhereBuilder A
  new_where_builder dialect = record { conditions = []; args = []; dialect = dialect }

  -- `Where`, which puts nothing between its condition and the one before.
  unfoldable pub add_where : Text → List A → WhereBuilder A → WhereBuilder A
  add_where condition args wb = record wb {
    conditions = wb.conditions ++ condition ∷ [];
    args = wb.args ++ args;
  }

  unfoldable pub add_and : Text → List A → WhereBuilder A → WhereBuilder A
  add_and condition args wb = add_where (led_by "AND" condition wb.conditions) args wb

  unfoldable pub add_or : Text → List A → WhereBuilder A → WhereBuilder A
  add_or condition args wb = add_where (led_by "OR" condition wb.conditions) args wb

  abbrev pub next_placeholder : WhereBuilder A → Piece
  next_placeholder wb = placeholder wb.dialect (length wb.args)

  unfoldable pub compare_with : Op → String → A → WhereBuilder A → WhereBuilder A
  compare_with op column value wb =
      add_where (name column ∷ word (op_text op) ∷ next_placeholder wb ∷ []) (value ∷ []) wb

  unfoldable pub ilike : String → A → WhereBuilder A → WhereBuilder A
  ilike column value wb =
      add_where
        (if is_postgres wb.dialect
          then name column ∷ word "ILIKE" ∷ next_placeholder wb ∷ []
          else word "LOWER("
            ∷ name column
            ∷ word ") LIKE LOWER("
            ∷ next_placeholder wb
            ∷ word ")"
            ∷ [])
        (value ∷ []) wb

  -- `In` and `NotIn`: "IN (" with "1=0" for no values, and "NOT IN (" with "1=1".
  unfoldable pub in_values : String → String → String → List A → WhereBuilder A → WhereBuilder A
  in_values w always column [] wb = add_where (word always ∷ []) [] wb
  in_values w always column (v ∷ values) wb =
      add_where
        (name column
          ∷ word w
          ∷ (join (word "," ∷ [])
                (placeholders_from wb.dialect (length wb.args) (length (v ∷ values)))
              ++ word ")" ∷ []))
        (v ∷ values) wb

  unfoldable pub is_null : String → String → WhereBuilder A → WhereBuilder A
  is_null w column wb = add_where (name column ∷ word w ∷ []) [] wb

  -- `Between` and `NotBetween`.
  unfoldable pub between : String → String → A → A → WhereBuilder A → WhereBuilder A
  between w column start end wb =
      add_where
        (name column
          ∷ word w
          ∷ next_placeholder wb
          ∷ word "AND"
          ∷ placeholder wb.dialect (length wb.args + 1)
          ∷ [])
        (start ∷ end ∷ []) wb

  -- `Exists` and `NotExists`.
  unfoldable pub exists : String → Text → List A → WhereBuilder A → WhereBuilder A
  exists w subquery args wb = add_where (enclosed (word w ∷ []) subquery) args wb

  -- The four conditions on a subquery, from what its `Build` returns.
  unfoldable pub with_subquery : Text → Text × List A → WhereBuilder A → WhereBuilder A
  with_subquery head (query, args) wb =
      add_where (enclosed head (shift_placeholders_if_needed query wb.dialect (length wb.args)))
        args wb

  -- `Group` and `AndWhere`, by "AND", and `OrWhere`, by "OR", once the function has run.
  unfoldable pub add_group : String → WhereBuilder A → WhereBuilder A → WhereBuilder A
  add_group w sub wb = elim sub.conditions [
    | [] ↦ wb
    | c ∷ conditions ↦
        add_where (led_by w (enclosed [] (join [] (c ∷ conditions))) wb.conditions) sub.args wb
  ]

  unfoldable pub build_with_offset : ℕ → WhereBuilder A → Text × List A
  build_with_offset start wb = elim wb.conditions [
    | [] ↦ ([], [])
    | c ∷ conditions ↦
        (word "WHERE" ∷ join [] (numbered_conditions wb.dialect start (c ∷ conditions)), wb.args)
  ]

-- A call of the builder.
mutual
  pub data Call {ℓ} (A : Type ℓ) : Type ℓ where
    where_call : Text → List A → Call A
    and_call : Text → List A → Call A
    or_call : Text → List A → Call A
    compare_call : Op → String → A → Call A
    ilike_call : String → A → Call A
    in_call : String → String → String → List A → Call A
    null_call : String → String → Call A
    between_call : String → String → A → A → Call A
    exists_call : String → Text → List A → Call A
    subquery_call : Text → Text → List A → Call A
    group_call : String → Calls A → Call A

  pub data Calls {ℓ} (A : Type ℓ) : Type ℓ where
    none_left : Calls A
    then_call : Call A → Calls A → Calls A

unfoldable mutual
  pub call {ℓ} : {A : Type ℓ} → Call A → WhereBuilder A → WhereBuilder A
  call (where_call condition args) wb = add_where condition args wb
  call (and_call condition args) wb = add_and condition args wb
  call (or_call condition args) wb = add_or condition args wb
  call (compare_call op column value) wb = compare_with op column value wb
  call (ilike_call column value) wb = ilike column value wb
  call (in_call w always column values) wb = in_values w always column values wb
  call (null_call w column) wb = is_null w column wb
  call (between_call w column start end) wb = between w column start end wb
  call (exists_call w subquery args) wb = exists w subquery args wb
  call (subquery_call head query args) wb = with_subquery head (query, args) wb
  call (group_call w calls) wb = add_group w (call_each calls (new_where_builder wb.dialect)) wb

  pub call_each {ℓ} : {A : Type ℓ} → Calls A → WhereBuilder A → WhereBuilder A
  call_each none_left wb = wb
  call_each (then_call c calls) wb = call_each calls (call c wb)
