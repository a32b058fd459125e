-- ===== src/Orm/Select.antt =====
-- plugins/db/orm/select_builder.go: which argument the database binds to which placeholder of a
-- query, its joins, common table expressions and unions included.
use golang_gin_rpc.Base.{
  ℕ, ◌+◌, ◌≡◌, refl, ◌∙◌, Bool, List, [], ◌∷◌, ◌++◌, String, length, if◌then◌else◌, All,
}
use golang_gin_rpc.Orm.{Dialect, word, name, join, limit_offset}
use golang_gin_rpc.Orm.Where.{build_with_offset}
use golang_gin_rpc.Orm.Slots.{slots, expected}
use golang_gin_rpc.Orm.Binding.{IsBound}
use golang_gin_rpc.Orm.Query.{
  Built, then_built, words, listed, join_each, behind, SelectBuilder, having_of, build_select_core,
  shifted, cte_one, cte_each, has_recursive, union_each, with_ctes, build_select,
}
use golang_gin_rpc.Orm.Fill.{Said, says, fill}
use golang_gin_rpc.Orm.Clause.{where_said, said_calls}
use golang_gin_rpc.Orm.Where.{Calls}
use golang_gin_rpc.Orm.Parts.{
  IsQuiet, IsQuiet-append, IsQuiet-join, limit_offset-IsQuiet, IsJoin, IsMade, Says, Says-read,
  read, listed_said, listed-Says, joins_said, then_built-Says, behind-Says, after_words,
  before_words, join_each-Says, where-Says, having-Says, shifted-Says,
}

module _ {ℓ} {A : Type ℓ} where
  -- A query whose conditions are those of the calls, and the parts of which have the placeholders of
  -- their arguments.
  pub record IsSound (calls havings : Calls A) (sb : SelectBuilder A) : Type ℓ where
    pub from : IsBound sb.dialect 0 sb.table
    pub columns : All IsQuiet sb.columns
    pub joins : All (IsJoin sb.dialect) sb.joins
    pub conditions : IsMade sb.dialect calls sb.conditions
    pub group_by : All IsQuiet sb.group_by
    pub having : IsMade sb.dialect havings sb.having
    pub order_by : All IsQuiet sb.order_by
    pub lock_mode : IsQuiet sb.lock_mode
    pub ctes : All (λ (c : String × Bool × Built A). IsBound sb.dialect 0 c.2) sb.ctes
    pub unions : All (λ (u : Bool × Built A). IsBound sb.dialect 0 u.1) sb.unions

  -- What the query says before its unions and behind its common table expressions.
  abbrev pub core_said : Calls A → Calls A → SelectBuilder A → List (Said A)
  core_said calls havings sb =
      (((((fill (word "SELECT" ∷ (join (word "," ∷ []) sb.columns ++ word "FROM" ∷ [])) []
                ++ fill sb.table.0 sb.table.1)
              ++ joins_said sb.joins)
            ++ where_said "WHERE" (said_calls sb.dialect calls []))
          ++ listed_said A "GROUP BY" sb.group_by)
        ++ where_said "HAVING" (said_calls sb.dialect havings []))
      ++ (listed_said A "ORDER BY" sb.order_by
          ++ fill (limit_offset sb.limit sb.offset ++ sb.lock_mode) [])

  abbrev cte_said : String × Bool × Built A → List (Said A)
  cte_said (n, recursive, query) =
      says (name n)
      ∷ says (word "AS")
      ∷ says (word "(")
      ∷ (fill query.0 query.1 ++ says (word ")") ∷ [])

  abbrev ctes_said : List (String × Bool × Built A) → List (Said A)
  ctes_said [] = []
  ctes_said (c ∷ []) = cte_said c
  ctes_said (c ∷ e ∷ ctes) = cte_said c ++ (says (word ",") ∷ ctes_said (e ∷ ctes))

  abbrev with_said : List (String × Bool × Built A) → List (Said A) → List (Said A)
  with_said [] core = core
  with_said (c ∷ ctes) core =
      (says (word (if has_recursive (c ∷ ctes) then "WITH RECURSIVE" else "WITH"))
        ∷ ctes_said (c ∷ ctes))
      ++ core

  abbrev unions_said : List (Bool × Built A) → List (Said A)
  unions_said [] = []
  unions_said ((all, query) ∷ unions) =
      says (word (if all then "UNION ALL" else "UNION"))
      ∷ (fill query.0 query.1 ++ unions_said unions)

  -- What a query says, each of its parts with its own arguments.
  abbrev pub select_said : Calls A → Calls A → SelectBuilder A → List (Said A)
  select_said calls havings sb =
      with_said sb.ctes (core_said calls havings sb) ++ unions_said sb.unions

  core-Says :
      (calls havings : Calls A) (sb : SelectBuilder A)
      → IsSound calls havings sb
      → Says sb.dialect 0 (build_select_core sb) (core_said calls havings sb)
  unfolding build_select_core slots
  core-Says calls havings sb h =
      let d = sb.dialect in
      let head = word "SELECT" ∷ (join (word "," ∷ []) sb.columns ++ word "FROM" ∷ []) in
      let from = then_built (words {A = A} head) sb.table in
      let joined = behind from (λ k. join_each d k sb.joins) in
      let filtered = behind joined (λ k. build_with_offset k sb.conditions) in
      let grouped = then_built filtered (listed "GROUP BY" sb.group_by) in
      let chosen = behind grouped (λ k. having_of (build_with_offset k sb.having)) in
      let tail = limit_offset sb.limit sb.offset ++ sb.lock_mode in
      let s = fill head [] ++ fill sb.table.0 sb.table.1 in
      let w = where_said "WHERE" (said_calls d calls []) in
      let g = listed_said A "GROUP BY" sb.group_by in
      let v = where_said "HAVING" (said_calls d havings []) in
      let j = joins_said sb.joins in
      let from-Says : Says d 0 from s =
        after_words d 0 head sb.table (fill sb.table.0 sb.table.1)
          (IsQuiet-append (join (word "," ∷ []) sb.columns) (word "FROM" ∷ [])
            (IsQuiet-join "," sb.columns h.columns) refl)
          (h.from, refl) in
      let filtered-Says : Says d 0 filtered ((s ++ j) ++ w) =
        behind-Says d joined (λ k. build_with_offset k sb.conditions) (s ++ j) w
          (behind-Says d from (λ k. join_each d k sb.joins) s j from-Says
            (λ k. join_each-Says d k sb.joins h.joins))
          (where-Says d calls sb.conditions h.conditions) in
      let grouped-Says : Says d 0 grouped (((s ++ j) ++ w) ++ g) =
        then_built-Says d 0 filtered (listed "GROUP BY" sb.group_by) ((s ++ j) ++ w) g filtered-Says
          (listed-Says A d (0 + length filtered.1) "GROUP BY" sb.group_by h.group_by) in
      let chosen-Says : Says d 0 chosen ((((s ++ j) ++ w) ++ g) ++ v) =
        behind-Says d grouped (λ k. having_of (build_with_offset k sb.having))
          (((s ++ j) ++ w) ++ g) v grouped-Says
          (λ k.
            having-Says d k (build_with_offset k sb.having) (said_calls d havings [])
              (where-Says d havings sb.having h.having k)) in
      then_built-Says d 0 chosen (then_built (listed "ORDER BY" sb.order_by) (words tail))
        ((((s ++ j) ++ w) ++ g) ++ v) (listed_said A "ORDER BY" sb.order_by ++ fill tail [])
        chosen-Says
        (before_words d (0 + length chosen.1) (listed "ORDER BY" sb.order_by) tail
          (listed_said A "ORDER BY" sb.order_by)
          (listed-Says A d (0 + length chosen.1) "ORDER BY" sb.order_by h.order_by)
          (IsQuiet-append (limit_offset sb.limit sb.offset) sb.lock_mode
            (limit_offset-IsQuiet sb.limit sb.offset) h.lock_mode))

  cte_one-Says :
      (d : Dialect) (k : ℕ) (c : String × Bool × Built A)
      → IsBound d 0 c.2
      → Says d k (cte_one d k c) (cte_said c)
  unfolding cte_one slots fill
  cte_one-Says d k (n, recursive, query) h =
      let s = fill query.0 query.1 in
      after_words d k (name n ∷ word "AS" ∷ word "(" ∷ [])
        (then_built (shifted d k query) (words (word ")" ∷ []))) (s ++ says (word ")") ∷ []) refl
        (before_words d k (shifted d k query) (word ")" ∷ []) s (shifted-Says d k query h) refl)

  cte_each-Says :
      (d : Dialect) (k : ℕ) (ctes : List (String × Bool × Built A))
      → All (λ (c : String × Bool × Built A). IsBound d 0 c.2) ctes
      → Says d k (cte_each d k ctes) (ctes_said ctes)
  unfolding cte_each slots expected fill
  cte_each-Says d k [] h = (refl, refl)
  cte_each-Says d k (c ∷ []) h = cte_one-Says d k c h.0
  cte_each-Says d k (c ∷ e ∷ ctes) h =
      let rest = cte_each d (k + length (cte_one d k c).1) (e ∷ ctes) in
      then_built-Says d k (cte_one d k c) (then_built (words (word "," ∷ [])) rest) (cte_said c)
        (says (word ",") ∷ ctes_said (e ∷ ctes)) (cte_one-Says d k c h.0)
        (after_words d (k + length (cte_one d k c).1) (word "," ∷ []) rest (ctes_said (e ∷ ctes))
          refl (cte_each-Says d (k + length (cte_one d k c).1) (e ∷ ctes) h.1))

  union_each-Says :
      (d : Dialect) (k : ℕ) (unions : List (Bool × Built A))
      → All (λ (u : Bool × Built A). IsBound d 0 u.1) unions
      → Says d k (union_each d k unions) (unions_said unions)
  unfolding union_each slots expected shifted fill
  union_each-Says d k [] h = (refl, refl)
  union_each-Says d k ((all, query) ∷ unions) h =
      let rest = union_each d (k + length query.1) unions in
      let s = fill query.0 query.1 in
      after_words d k (word (if all then "UNION ALL" else "UNION") ∷ [])
        (then_built (shifted d k query) rest) (s ++ unions_said unions) refl
        (then_built-Says d k (shifted d k query) rest s (unions_said unions)
          (shifted-Says d k query h.0)
          (kept query rest (union_each-Says d (k + length query.1) unions h.1)))
    where
      kept :
          (q rest : Built A)
          → Says d (k + length q.1) rest (unions_said unions)
          → Says d (k + length (shifted d k q).1) rest (unions_said unions)
      kept (t, args) rest h = h

  ctes-Says :
      (d : Dialect) (ctes : List (String × Bool × Built A)) (core : Built A) (s : List (Said A))
      → All (λ (c : String × Bool × Built A). IsBound d 0 c.2) ctes
      → Says d 0 core s
      → Says d 0 (with_ctes d ctes core) (with_said ctes s)
  unfolding with_ctes slots fill
  ctes-Says d [] core s h b = b
  ctes-Says d (c ∷ ctes) core s h b =
      let w = word (if has_recursive (c ∷ ctes) then "WITH RECURSIVE" else "WITH") in
      behind-Says d (then_built (words (w ∷ [])) (cte_each d 0 (c ∷ ctes))) (λ k. shifted d k core)
        (says w ∷ ctes_said (c ∷ ctes)) s
        (after_words d 0 (w ∷ []) (cte_each d 0 (c ∷ ctes)) (ctes_said (c ∷ ctes)) refl
          (cte_each-Says d 0 (c ∷ ctes) h))
        (λ k. moved k)
    where
      moved : (k : ℕ) → Says d k (shifted d k core) s
      moved k = ((shifted-Says d k core b.0).0, (shifted-Says d k core b.0).1 ∙ b.1)

  -- What the database reads of a query, in every dialect: the common table expressions, the columns
  -- and the table, the joins, what the calls on the WHERE builder say, the grouping, what the calls on
  -- the HAVING builder say, the order, the limit and the unions, each with its own arguments in the
  -- places of its placeholders. The database binds a question mark by its place and `$n` by its number.
  -- The table, each raw table of a join and each query within the query have the placeholders of their
  -- own arguments, the condition of a join has as many marks as arguments, the calls are as in
  -- `bind-build_with_offset`, and no other part has placeholders.
  pub read-build_select :
      (calls havings : Calls A) (sb : SelectBuilder A)
      → IsSound calls havings sb
      → read (build_select sb) ≡ select_said calls havings sb
  unfolding build_select
  read-build_select calls havings sb h =
      let core = core_said calls havings sb in
      Says-read sb.dialect (build_select sb) (select_said calls havings sb) (
        behind-Says sb.dialect (with_ctes sb.dialect sb.ctes (build_select_core sb))
          (λ k. union_each sb.dialect k sb.unions) (with_said sb.ctes core) (unions_said sb.unions)
          (ctes-Says sb.dialect sb.ctes (build_select_core sb) core h.ctes
            (core-Says calls havings sb h))
          (λ k. union_each-Says sb.dialect k sb.unions h.unions))
