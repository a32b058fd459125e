-- ===== src/Orm/Kept.antt =====
-- plugins/db/orm/where_builder.go: each call of the builder keeps its placeholders and its arguments
-- together.
use golang_gin_rpc.Base.{
  ℕ, zero, suc, ◌+◌, ◌≡◌, ◌≢◌, refl, ◌∙◌, ap, Bool, true, List, [], ◌∷◌, ◌++◌, arith, String,
  length, if◌then◌else◌, if_elim, All,
}
use golang_gin_rpc.Orm.{
  Dialect, mysql, postgresql, sqlite, clickhouse, default_dialect, word, name, mark, numbered, Text,
  placeholder, join, count_marks, shift_placeholders_if_needed,
}
use golang_gin_rpc.Orm.Where.{
  WhereBuilder, Op, op_text, is_postgres, placeholders_from, led_by, enclosed, new_where_builder,
  add_where, compare_with, ilike, in_values, is_null, between, exists, with_subquery, add_group,
  Call, Calls, where_call, and_call, or_call, compare_call, ilike_call, in_call, null_call,
  between_call, exists_call, subquery_call, group_call, none_left, then_call,
}
use golang_gin_rpc.Orm.Slots.{marks_only, IsPositional, count_marks-append}
use golang_gin_rpc.Orm.Binding.{
  IsEven, IsPlain, marks_of, add_where-IsPlain, led_by-IsEven, enclosed-IsEven, marks_only-append,
  marks_only-join, count_marks-join,
}

positional-IsEven :
    (d : Dialect) (k n : ℕ)
    → IsPositional d
    → (marks_only (join (word "," ∷ []) (placeholders_from d k n)) ≡ true)
      × (count_marks (join (word "," ∷ []) (placeholders_from d k n)) ≡ n)
unfolding placeholders_from join marks_only count_marks
positional-IsEven d k zero h = (refl, refl)
positional-IsEven d k (suc zero) h = rw (h k) (refl, refl)
positional-IsEven d k (suc (suc n)) h =
    let (m, c) = positional-IsEven d (k + 1) (suc n) h in rw (h k) (m, omega (arith, c))

-- A call whose placeholders are marks, as many as its arguments. The calls that write the
-- placeholders themselves write marks where the dialect is positional.
unfoldable mutual
  pub IsPlainCall {ℓ} : {A : Type ℓ} → Dialect → Call A → Type 0
  IsPlainCall d (where_call condition args) = IsEven condition args
  IsPlainCall d (and_call condition args) = IsEven condition args
  IsPlainCall d (or_call condition args) = IsEven condition args
  IsPlainCall d (compare_call op column value) = IsPositional d
  IsPlainCall d (ilike_call column value) = IsPositional d
  IsPlainCall d (in_call w always column []) = Unit
  IsPlainCall d (in_call w always column (v ∷ values)) = IsPositional d
  IsPlainCall d (null_call w column) = Unit
  IsPlainCall d (between_call w column start end) = IsPositional d
  IsPlainCall d (exists_call w subquery args) = IsEven subquery args
  IsPlainCall {A} d (subquery_call head query args) =
      IsPositional d × IsEven {A = A} head [] × IsEven query args
  IsPlainCall d (group_call w calls) = ArePlainCalls d calls

  pub ArePlainCalls {ℓ} : {A : Type ℓ} → Dialect → Calls A → Type 0
  ArePlainCalls d none_left = Unit
  ArePlainCalls d (then_call c calls) = IsPlainCall d c × ArePlainCalls d calls

numbered≢mark : numbered 1 ≢ mark
numbered≢mark e = ground arith

pub shift-positional :
    (d : Dialect) (query : Text) (k : ℕ)
    → IsPositional d
    → shift_placeholders_if_needed query d k ≡ query
unfolding shift_placeholders_if_needed placeholder
shift-positional mysql query k p = refl
shift-positional postgresql query k p = absurd (numbered≢mark (p 0))
shift-positional sqlite query k p = refl
shift-positional clickhouse query k p = refl
shift-positional default_dialect query k p = refl

module _ {ℓ} {A : Type ℓ} where
  -- The builder keeps to a dialect, and its marks are those of its arguments.
  abbrev pub IsKept : Dialect → WhereBuilder A → Type 0
  IsKept d wb = (wb.dialect ≡ d) × IsPlain wb

  pub add_where-IsKept :
      (d : Dialect) (c : Text) (args : List A) (wb : WhereBuilder A)
      → IsEven c args
      → IsKept d wb
      → IsKept d (add_where c args wb)
  unfolding add_where
  add_where-IsKept d c args wb e (same, h) = (same, add_where-IsPlain c args wb e h)

  at_mark :
      (d : Dialect) (wb : WhereBuilder A) (k : ℕ)
      → IsPositional d
      → wb.dialect ≡ d
      → placeholder wb.dialect k ≡ mark
  at_mark d wb k p same = ap (λ x. placeholder x k) same ∙ p k

  pub compare-IsKept :
      (d : Dialect) (op : Op) (column : String) (value : A) (wb : WhereBuilder A)
      → IsPositional d
      → IsKept d wb
      → IsKept d (compare_with op column value wb)
  unfolding compare_with marks_only count_marks
  compare-IsKept d op column value wb p h =
      add_where-IsKept d
        (name column ∷ word (op_text op) ∷ placeholder wb.dialect (length wb.args) ∷ [])
        (value ∷ []) wb (rw (at_mark d wb (length wb.args) p h.0) (refl, refl)) h

  pub ilike-IsKept :
      (d : Dialect) (column : String) (value : A) (wb : WhereBuilder A)
      → IsPositional d
      → IsKept d wb
      → IsKept d (ilike column value wb)
  unfolding ilike marks_only count_marks
  ilike-IsKept d column value wb p h =
      let x = placeholder wb.dialect (length wb.args) in
      let text = λ (b : Bool).
        if b
        then name column ∷ word "ILIKE" ∷ x ∷ []
        else word "LOWER(" ∷ name column ∷ word ") LIKE LOWER(" ∷ x ∷ word ")" ∷ [] in
      add_where-IsKept d (text (is_postgres wb.dialect)) (value ∷ []) wb
        (if_elim (λ (t : Text). IsEven t (value ∷ [])) (is_postgres wb.dialect)
          (λ _. rw (at_mark d wb (length wb.args) p h.0) (refl, refl))
          (λ _. rw (at_mark d wb (length wb.args) p h.0) (refl, refl)))
        h

  pub between-IsKept :
      (d : Dialect) (w column : String) (start end : A) (wb : WhereBuilder A)
      → IsPositional d
      → IsKept d wb
      → IsKept d (between w column start end wb)
  unfolding between marks_only count_marks
  between-IsKept d w column start end wb p h =
      add_where-IsKept d
        (name column
          ∷ word w
          ∷ placeholder wb.dialect (length wb.args)
          ∷ word "AND"
          ∷ placeholder wb.dialect (length wb.args + 1)
          ∷ [])
        (start ∷ end ∷ []) wb
        (rw (at_mark d wb (length wb.args) p h.0, at_mark d wb (length wb.args + 1) p h.0)
          (refl, refl))
        h

  pub in_values-IsKept :
      (d : Dialect) (w always column : String) (values : List A) (wb : WhereBuilder A)
      → IsPlainCall d (in_call w always column values)
      → IsKept d wb
      → IsKept d (in_values w always column values wb)
  unfolding in_values marks_only count_marks IsPlainCall
  in_values-IsKept d w always column [] wb p h =
      add_where-IsKept d (word always ∷ []) [] wb (refl, refl) h
  in_values-IsKept d w always column (v ∷ values) wb p h =
      let n = length (v ∷ values) in
      let list = join (word "," ∷ []) (placeholders_from wb.dialect (length wb.args) n) in
      let (m, c) = positional-IsEven wb.dialect (length wb.args) n (λ k. at_mark d wb k p h.0) in
      add_where-IsKept d (name column ∷ word w ∷ (list ++ word ")" ∷ [])) (v ∷ values) wb
        (
          ground (arith, marks_only-append list (word ")" ∷ []), m),
          omega (arith, count_marks-append list (word ")" ∷ []), c),
        )
        h

  pub null-IsKept :
      (d : Dialect) (w column : String) (wb : WhereBuilder A)
      → IsKept d wb
      → IsKept d (is_null w column wb)
  unfolding is_null marks_only count_marks
  null-IsKept d w column wb h = add_where-IsKept d (name column ∷ word w ∷ []) [] wb (refl, refl) h

  pub exists-IsKept :
      (d : Dialect) (w : String) (query : Text) (args : List A) (wb : WhereBuilder A)
      → IsEven query args
      → IsKept d wb
      → IsKept d (exists w query args wb)
  unfolding exists marks_only count_marks
  exists-IsKept d w query args wb e h =
      add_where-IsKept d (enclosed (word w ∷ []) query) args wb
        (enclosed-IsEven (word w ∷ []) query args (refl, refl) e) h

  pub subquery-IsKept :
      (d : Dialect) (head query : Text) (args : List A) (wb : WhereBuilder A)
      → IsPositional d × IsEven {A = A} head [] × IsEven query args
      → IsKept d wb
      → IsKept d (with_subquery head (query, args) wb)
  unfolding with_subquery
  subquery-IsKept d head query args wb (p, e, q) h =
      let s : shift_placeholders_if_needed query wb.dialect (length wb.args) ≡ query =
        ap (λ x. shift_placeholders_if_needed query x (length wb.args)) h.0
        ∙ shift-positional d query (length wb.args) p in
      add_where-IsKept d
        (enclosed head (shift_placeholders_if_needed query wb.dialect (length wb.args))) args wb
        (rw s (enclosed-IsEven head query args e q)) h

  group-IsKept :
      (d : Dialect) (w : String) (cs : List Text) (args : List A) (wb : WhereBuilder A)
      → All (λ c. marks_only c ≡ true) cs × (marks_of cs ≡ length args)
      → IsKept d wb
      → IsKept d (add_group w (record { conditions = cs; args = args; dialect = wb.dialect }) wb)
  unfolding add_group marks_only count_marks
  group-IsKept d w [] args wb e h = h
  group-IsKept d w (c ∷ cs) args wb e h =
      let inner : IsEven (join [] (c ∷ cs)) args =
        (marks_only-join (c ∷ cs) e.0, count_marks-join (c ∷ cs) ∙ e.1) in
      add_where-IsKept d (led_by w (enclosed [] (join [] (c ∷ cs))) wb.conditions) args wb
        (led_by-IsEven w (enclosed [] (join [] (c ∷ cs))) wb.conditions args
          (enclosed-IsEven [] (join [] (c ∷ cs)) args (refl, refl) inner))
        h

  pub sub-IsKept :
      (d : Dialect) (w : String) (sub wb : WhereBuilder A)
      → IsKept d sub
      → IsKept d wb
      → IsKept d (add_group w sub wb)
  unfolding add_group
  sub-IsKept d w sub wb s h = group-IsKept d w sub.conditions sub.args wb s.1 h

  pub started :
      (d : Dialect) (wb : WhereBuilder A) → wb.dialect ≡ d → IsKept d (new_where_builder wb.dialect)
  unfolding new_where_builder marks_of
  started d wb same = (same, (tt, refl))
