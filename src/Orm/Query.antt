-- ===== src/Orm/Query.antt =====
-- plugins/db/orm/select_builder.go: the parts that the builders of statements put together, and the
-- query that `Build` gives. A query within a query is what its own `Build` returns.
use golang_gin_rpc.Base.{
  ℕ, ◌+◌, Bool, false, ◌||◌, List, [], ◌∷◌, ◌++◌, String, length, if◌then◌else◌, string_eq,
}
use golang_gin_rpc.Base.Int.{ℤ, pos}
use golang_gin_rpc.Orm.{
  Dialect, word, name, Text, join, limit_offset, is_positive, replace_condition_placeholders,
  shift_placeholders_if_needed,
}
use golang_gin_rpc.Orm.Where.{WhereBuilder, build_with_offset}

-- `Join`; the table is a name, or a text with arguments of its own where it is raw.
pub record Join {ℓ} (A : Type ℓ) : Type ℓ where
  pub kind : String
  pub table : Text
  pub raw_table : Bool
  pub table_args : List A
  pub condition : Text
  pub args : List A

abbrev pub Built {ℓ} : Type ℓ → Type ℓ
Built A = Text × List A

-- A text with its arguments behind another.
abbrev pub then_built {ℓ} : {A : Type ℓ} → Built A → Built A → Built A
then_built (t, args) (u, others) = (t ++ u, args ++ others)

abbrev pub words {ℓ} : {A : Type ℓ} → Text → Built A
words t = (t, [])

-- The texts of a list, with the word before them unless there is none.
abbrev pub listed {ℓ} : {A : Type ℓ} → String → List Text → Built A
listed w [] = ([], [])
listed w (t ∷ texts) = (word w ∷ join (word "," ∷ []) (t ∷ texts), [])

-- `strings.Replace(clause, "WHERE", "HAVING", 1)` of a clause, which begins with the word.
abbrev pub as_having : Text → Text
as_having [] = []
as_having (p ∷ text) = word "HAVING" ∷ text

module _ {ℓ} {A : Type ℓ} where
  -- The table of a join, behind `k` arguments.
  unfoldable pub join_table : Dialect → ℕ → Join A → Built A
  join_table d k j =
      if j.raw_table
      then (shift_placeholders_if_needed j.table d k, j.table_args)
      else (j.table, [])

  unfoldable pub join_condition : Dialect → ℕ → Join A → Built A
  join_condition d k j = (replace_condition_placeholders j.condition d k, j.args)

  unfoldable pub join_one : Dialect → ℕ → Join A → Built A
  join_one d k j =
      let table = join_table d k j in
      then_built (words (word j.kind ∷ word "JOIN" ∷ [])) (
        then_built table
          (then_built (words (word "ON" ∷ [])) (join_condition d (k + length table.1) j)))

  -- The loop over the joins.
  unfoldable pub join_each : Dialect → ℕ → List (Join A) → Built A
  join_each d k [] = ([], [])
  join_each d k (j ∷ joins) =
      then_built (join_one d k j) (join_each d (k + length (join_one d k j).1) joins)

  -- `query, args` behind which the next part stands.
  abbrev pub behind : Built A → (ℕ → Built A) → Built A
  behind t next = then_built t (next (length t.1))

  -- What `Build` of an update or a delete puts behind the first words of the statement.
  unfoldable pub with_clauses :
      Dialect → List (Join A) → WhereBuilder A → List Text → ℤ → Built A → Built A
  with_clauses d joins conditions order_by limit head =
      then_built
        (behind (behind head (λ k. join_each d k joins)) (λ k. build_with_offset k conditions))
        (then_built (listed "ORDER BY" order_by)
          (words (if is_positive limit then limit_offset limit (pos 0) else [])))

-- `SelectBuilder`; a common table expression and a member of a union are what their queries'
-- `Build` returns.
pub record SelectBuilder {ℓ} (A : Type ℓ) : Type ℓ where
  pub table : Built A
  pub columns : List Text
  pub joins : List (Join A)
  pub conditions : WhereBuilder A
  pub group_by : List Text
  pub having : WhereBuilder A
  pub order_by : List Text
  pub limit : ℤ
  pub offset : ℤ
  pub lock_mode : Text
  pub dialect : Dialect
  pub ctes : List (String × Bool × Built A)
  pub unions : List (Bool × Built A)

module _ {ℓ} {A : Type ℓ} where
  abbrev pub having_of : Built A → Built A
  having_of (t, args) = (as_having t, args)

  -- `buildSelectCore`.
  unfoldable pub build_select_core : SelectBuilder A → Built A
  build_select_core sb =
      let from =
        then_built (words (word "SELECT" ∷ (join (word "," ∷ []) sb.columns ++ word "FROM" ∷ [])))
          sb.table in
      let filtered =
        behind (behind from (λ k. join_each sb.dialect k sb.joins))
          (λ k. build_with_offset k sb.conditions) in
      let grouped = then_built filtered (listed "GROUP BY" sb.group_by) in
      then_built (behind grouped (λ k. having_of (build_with_offset k sb.having))) (
        then_built (listed "ORDER BY" sb.order_by)
          (words (limit_offset sb.limit sb.offset ++ sb.lock_mode)))

  -- A built query, moved behind `k` arguments.
  unfoldable pub shifted : Dialect → ℕ → Built A → Built A
  shifted d k (t, args) = (shift_placeholders_if_needed t d k, args)

  unfoldable pub cte_one : Dialect → ℕ → String × Bool × Built A → Built A
  cte_one d k (n, recursive, query) =
      then_built (words (name n ∷ word "AS" ∷ word "(" ∷ []))
        (then_built (shifted d k query) (words (word ")" ∷ [])))

  unfoldable pub cte_each : Dialect → ℕ → List (String × Bool × Built A) → Built A
  cte_each d k [] = ([], [])
  cte_each d k (c ∷ []) = cte_one d k c
  cte_each d k (c ∷ e ∷ ctes) =
      then_built (cte_one d k c)
        (then_built (words (word "," ∷ [])) (cte_each d (k + length (cte_one d k c).1) (e ∷ ctes)))

  abbrev pub has_recursive : List (String × Bool × Built A) → Bool
  has_recursive [] = false
  has_recursive (c ∷ ctes) = c.1 || has_recursive ctes

  -- The loop of `appendUnions`.
  unfoldable pub union_each : Dialect → ℕ → List (Bool × Built A) → Built A
  union_each d k [] = ([], [])
  union_each d k ((all, query) ∷ unions) =
      then_built (words (word (if all then "UNION ALL" else "UNION") ∷ []))
        (then_built (shifted d k query) (union_each d (k + length query.1) unions))

  -- The query before its unions, from its core.
  unfoldable pub with_ctes : Dialect → List (String × Bool × Built A) → Built A → Built A
  with_ctes d [] core = core
  with_ctes d (c ∷ ctes) core =
      behind
        (then_built
          (words (word (if has_recursive (c ∷ ctes) then "WITH RECURSIVE" else "WITH") ∷ []))
          (cte_each d 0 (c ∷ ctes)))
        (λ k. shifted d k core)

  -- `Build`.
  unfoldable pub build_select : SelectBuilder A → Built A
  build_select sb =
      behind (with_ctes sb.dialect sb.ctes (build_select_core sb))
        (λ k. union_each sb.dialect k sb.unions)
