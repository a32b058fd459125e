-- ===== src/Orm/Update.antt =====
-- plugins/db/orm/update_builder.go: which argument the database binds to which placeholder of an
-- UPDATE, and where PostgreSQL binds another.
use golang_gin_rpc.Base.{
  ℕ, ◌+◌, ◌≡◌, refl, ◌∙◌, ap, List, [], ◌∷◌, ◌++◌, String, length, if_elim, All, Dict, insert,
}
use golang_gin_rpc.Orm.{
  Dialect, postgresql, replace_marks, count_marks, word, name, numbered, placeholder, join,
  replace_condition_placeholders,
}
use golang_gin_rpc.Orm.Where.{build_with_offset, numbered_conditions}
use golang_gin_rpc.Orm.Slots.{slots, expected, slots-replace, placeholder-slot}
use golang_gin_rpc.Orm.Binding.{IsEven}
use golang_gin_rpc.Orm.Query.{Built, then_built, words, join_each}
use golang_gin_rpc.Orm.Parts.{
  IsQuiet, IsJoin, IsMade, Says, Says-read, read, then_built-Says, after_words, with_clauses-Says,
  clauses_said,
}
use golang_gin_rpc.Orm.Fill.{Said, says, holds, fill, fill-blank, blank-replace}
use golang_gin_rpc.Orm.Clause.{where_said, said_calls, fill-placeholder}
use golang_gin_rpc.Orm.Where.{Calls}
use golang_gin_rpc.Orm.Where.{Op, compare_with, new_where_builder, add_where}
use golang_gin_rpc.Orm.Query.{with_clauses}
use golang_gin_rpc.Orm.Columns.{
  lt_text, Value, UpdateBuilder, plain, expr, place_key, sort_keys, value_built, set_one, set_each,
  set_clause, where_columns, build_update, where_update, set_value, new_update_builder,
}

module _ {ℓ} {A : Type ℓ} where
  abbrev pub IsValue : String × Value A → Type 0
  IsValue (column, plain a) = Unit
  IsValue (column, expr sql args) = IsEven sql args

  All-place_key :
      (x : String × Value A) (xs : Dict String (Value A))
      → IsValue x
      → All IsValue xs
      → All IsValue (place_key x xs)
  unfolding place_key
  All-place_key x [] h hs = (h, tt)
  All-place_key x (y ∷ ys) h hs =
      if_elim (All IsValue) (lt_text x.0 y.0) (λ _. (h, hs))
        (λ _. (hs.0, All-place_key x ys h hs.1))

  All-sort_keys : (xs : Dict String (Value A)) → All IsValue xs → All IsValue (sort_keys xs)
  unfolding sort_keys
  All-sort_keys [] h = tt
  All-sort_keys (x ∷ xs) h = All-place_key x (sort_keys xs) h.0 (All-sort_keys xs h.1)

  -- What an update sets, each column with its own value.
  abbrev value_said : Value A → List (Said A)
  value_said (plain a) = holds a ∷ []
  value_said (expr sql args) = fill sql args

  abbrev set_said : String × Value A → List (Said A)
  set_said (column, v) = says (name column) ∷ says (word "=") ∷ value_said v

  abbrev sets_said : Dict String (Value A) → List (Said A)
  sets_said [] = []
  sets_said (x ∷ []) = set_said x
  sets_said (x ∷ y ∷ columns) = set_said x ++ (says (word ",") ∷ sets_said (y ∷ columns))

  abbrev unless_empty : Dict String (Value A) → List (Said A) → List (Said A)
  unless_empty [] s = []
  unless_empty (x ∷ columns) s = s

  -- What an update says, where its conditions are those of the calls.
  abbrev pub update_said : Calls A → UpdateBuilder A → List (Said A)
  update_said calls ub = unless_empty ub.columns (
      clauses_said ub.joins (where_said "WHERE" (said_calls ub.dialect calls [])) ub.order_by
        ub.limit
        (says (word "UPDATE")
          ∷ says (name ub.table)
          ∷ says (word "SET")
          ∷ sets_said (sort_keys ub.columns)))

  value-Says :
      (d : Dialect) (k : ℕ) (column : String) (v : Value A)
      → IsValue (column, v)
      → Says d k (value_built d k v) (value_said v)
  unfolding replace_condition_placeholders expected slots fill
  value-Says d k column (plain a) h = (placeholder-slot d k [], fill-placeholder d k [] a [])
  value-Says d k column (expr sql args) h = (
    slots-replace d k sql h.0 ∙ ap (expected d k) h.1,
    fill-blank (replace_marks (count_marks sql) d k sql) sql args
        (blank-replace (count_marks sql) d k sql),
  )

  set_one-Says :
      (d : Dialect) (k : ℕ) (x : String × Value A)
      → IsValue x
      → Says d k (set_one d k x) (set_said x)
  unfolding set_one slots fill
  set_one-Says d k (column, v) h =
      after_words d k (name column ∷ word "=" ∷ []) (value_built d k v) (value_said v) refl
        (value-Says d k column v h)

  set_each-Says :
      (d : Dialect) (k : ℕ) (xs : Dict String (Value A))
      → All IsValue xs
      → Says d k (set_each d k xs) (sets_said xs)
  unfolding set_each slots expected fill
  set_each-Says d k [] h = (refl, refl)
  set_each-Says d k (x ∷ []) h = set_one-Says d k x h.0
  set_each-Says d k (x ∷ y ∷ xs) h =
      let rest = set_each d (k + length (set_one d k x).1) (y ∷ xs) in
      then_built-Says d k (set_one d k x) (then_built (words (word "," ∷ [])) rest) (set_said x)
        (says (word ",") ∷ sets_said (y ∷ xs)) (set_one-Says d k x h.0)
        (after_words d (k + length (set_one d k x).1) (word "," ∷ []) rest (sets_said (y ∷ xs)) refl
          (set_each-Says d (k + length (set_one d k x).1) (y ∷ xs) h.1))

  -- An update whose conditions are those of the calls, and the parts of which have the placeholders of
  -- their arguments.
  pub record IsSoundUpdate (calls : Calls A) (ub : UpdateBuilder A) : Type ℓ where
    pub columns : All IsValue ub.columns
    pub joins : All (IsJoin ub.dialect) ub.joins
    pub conditions : IsMade ub.dialect calls ub.conditions
    pub order_by : All IsQuiet ub.order_by

  set_clause-Says :
      (calls : Calls A) (ub : UpdateBuilder A)
      → IsSoundUpdate calls ub
      → Says ub.dialect 0 (set_clause ub) (
          says (word "UPDATE")
          ∷ says (name ub.table)
          ∷ says (word "SET")
          ∷ sets_said (sort_keys ub.columns))
  unfolding set_clause slots fill
  set_clause-Says calls ub h =
      let columns = sort_keys ub.columns in
      after_words ub.dialect 0 (word "UPDATE" ∷ name ub.table ∷ word "SET" ∷ [])
        (set_each ub.dialect 0 columns) (sets_said columns) refl
        (set_each-Says ub.dialect 0 columns (All-sort_keys ub.columns h.columns))

  where_columns-Says :
      (d : Dialect) (xs : Dict String (Value A)) (built : Built A) (s : List (Said A))
      → Says d 0 built s
      → Says d 0 (where_columns xs built) (unless_empty xs s)
  unfolding where_columns slots expected fill
  where_columns-Says d [] built s h = (refl, refl)
  where_columns-Says d (_ ∷ _) built s h = h

  pub read-build_update :
      (calls : Calls A) (ub : UpdateBuilder A)
      → IsSoundUpdate calls ub
      → read (build_update ub) ≡ update_said calls ub
  unfolding build_update
  read-build_update calls ub h =
      let d = ub.dialect in
      let head = set_clause ub in
      let first =
        says (word "UPDATE")
        ∷ says (name ub.table)
        ∷ says (word "SET")
        ∷ sets_said (sort_keys ub.columns) in
      Says-read d (build_update ub) (update_said calls ub) (
        where_columns-Says d ub.columns
          (with_clauses d ub.joins ub.conditions ub.order_by ub.limit head)
          (clauses_said ub.joins (where_said "WHERE" (said_calls d calls [])) ub.order_by ub.limit
            first)
          (with_clauses-Says d ub.joins calls ub.conditions ub.order_by ub.limit head first
            (set_clause-Says calls ub h) h.joins h.conditions h.order_by))

  -- On PostgreSQL a comparison in the WHERE clause of an UPDATE takes the argument of the first
  -- column: of `Set` and one of `Eq`, `Ne`, `Gt`, `Gte`, `Lt`, `Lte` and `Like`, the statement has the
  -- placeholder $1 twice and two arguments, so that the second argument is bound to none.
  pub compare_misbinds :
      (table column other : String) (a b : A) (op : Op)
      → (slots
            (build_update (
              where_update
                (compare_with op other b)
                (set_value column (plain a) (new_update_builder table postgresql)))).0
          ≡ numbered 1 ∷ numbered 1 ∷ [])
        × ((build_update (
              where_update
                (compare_with op other b)
                (set_value column (plain a) (new_update_builder table postgresql)))).1
            ≡ a ∷ b ∷ [])
  unfolding build_update where_update set_value new_update_builder compare_with slots insert
      set_clause set_each set_one sort_keys place_key join_each build_with_offset placeholder
      add_where new_where_builder numbered_conditions join replace_marks count_marks where_columns
      with_clauses
  compare_misbinds table column other a b op = (refl, refl)
