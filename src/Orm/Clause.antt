-- ===== src/Orm/Clause.antt =====
-- plugins/db/orm/where_builder.go: what the calls of the builder say, each with its own arguments, and
-- that the clause says it.
use golang_gin_rpc.Base.{
  ℕ, suc, ◌+◌, ◌≡◌, refl, sym, ◌∙◌, ap, ap₂, subst, Bool, true, false, List, [], ◌∷◌, ◌++◌, arith,
  String, length, if◌then◌else◌, All, get_elem?,
}
use golang_gin_rpc.Orm.{
  Dialect, mysql, postgresql, sqlite, clickhouse, default_dialect, word, name, number, mark,
  numbered, Text, placeholder, join, count_marks, shift_placeholders_if_needed,
}
use golang_gin_rpc.Orm.Where.{
  WhereBuilder, op_text, is_postgres, placeholders_from, led_by, enclosed, new_where_builder,
  add_where, add_and, add_or, compare_with, ilike, in_values, is_null, between, exists,
  with_subquery, add_group, build_with_offset, Call, Calls, call, call_each, where_call, and_call,
  or_call, compare_call, ilike_call, in_call, null_call, between_call, exists_call, subquery_call,
  group_call, none_left, then_call, numbered_conditions,
}
use golang_gin_rpc.Orm.Slots.{slots, marks_only}
use golang_gin_rpc.Orm.Fill.{
  Said, says, holds, fill, bind, bind-fill, Counted-self, fill-append, fill-blank, blank-conditions,
}
use golang_gin_rpc.Orm.Binding.{
  IsBound, IsEven, marks_of, marks_only-join, count_marks-join, built_from, build-built_from,
  build-IsBound,
}
use golang_gin_rpc.Orm.Kept.{IsKept, IsPlainCall, ArePlainCalls, shift-positional, started}
use golang_gin_rpc.Orm.Bound.{call-IsKept, new-IsKept}
use mathlib.Core.List.{append_assoc, append-nil}

abbrev is_any {ℓ} : {B : Type ℓ} → List B → Bool
is_any [] = false
is_any (x ∷ xs) = true

module _ {ℓ} {A : Type ℓ} where
  -- The conditions one after the other.
  abbrev pub all_said : List (List (Said A)) → List (Said A)
  all_said [] = []
  all_said (c ∷ conditions) = c ++ all_said conditions

  abbrev led_said : String → List (Said A) → List (List (Said A)) → List (Said A)
  led_said w condition [] = condition
  led_said w condition (c ∷ conditions) = says (word w) ∷ condition

  abbrev enclosed_said : List (Said A) → List (Said A) → List (Said A)
  enclosed_said head query = head ++ (says (word "(") ∷ (query ++ says (word ")") ∷ []))

  abbrev listed_values : List A → List (Said A)
  listed_values [] = []
  listed_values (v ∷ []) = holds v ∷ []
  listed_values (v ∷ w ∷ values) = holds v ∷ says (word ",") ∷ listed_values (w ∷ values)

  abbrev group_said : String → List (List (Said A)) → List (List (Said A)) → List (List (Said A))
  group_said w [] conditions = conditions
  group_said w (c ∷ sub) conditions =
      conditions ++ led_said w (enclosed_said [] (all_said (c ∷ sub))) conditions ∷ []

  abbrev ilike_said : Dialect → String → A → List (Said A)
  ilike_said d column value =
      if is_postgres d
      then says (name column) ∷ says (word "ILIKE") ∷ holds value ∷ []
      else says (word "LOWER(")
        ∷ says (name column)
        ∷ says (word ") LIKE LOWER(")
        ∷ holds value
        ∷ says (word ")")
        ∷ []

  -- The conditions after a call, from those before it, with the arguments of the call in their places.
  unfoldable mutual
    pub said_call : Dialect → Call A → List (List (Said A)) → List (List (Said A))
    said_call d (where_call condition args) cs = cs ++ fill condition args ∷ []
    said_call d (and_call condition args) cs = cs ++ led_said "AND" (fill condition args) cs ∷ []
    said_call d (or_call condition args) cs = cs ++ led_said "OR" (fill condition args) cs ∷ []
    said_call d (compare_call op column value) cs =
        cs ++ (says (name column) ∷ says (word (op_text op)) ∷ holds value ∷ []) ∷ []
    said_call d (ilike_call column value) cs = cs ++ ilike_said d column value ∷ []
    said_call d (in_call w always column []) cs = cs ++ (says (word always) ∷ []) ∷ []
    said_call d (in_call w always column (v ∷ values)) cs =
        cs
        ++ (says (name column)
            ∷ says (word w)
            ∷ (listed_values (v ∷ values) ++ says (word ")") ∷ []))
          ∷ []
    said_call d (null_call w column) cs = cs ++ (says (name column) ∷ says (word w) ∷ []) ∷ []
    said_call d (between_call w column start end) cs =
        cs
        ++ (says (name column) ∷ says (word w) ∷ holds start ∷ says (word "AND") ∷ holds end ∷ [])
          ∷ []
    said_call d (exists_call w query args) cs =
        cs ++ enclosed_said (says (word w) ∷ []) (fill query args) ∷ []
    said_call d (subquery_call head query args) cs =
        cs ++ enclosed_said (fill head []) (fill query args) ∷ []
    said_call d (group_call w calls) cs = group_said w (said_calls d calls []) cs

    pub said_calls : Dialect → Calls A → List (List (Said A)) → List (List (Said A))
    said_calls d none_left cs = cs
    said_calls d (then_call c calls) cs = said_calls d calls (said_call d c cs)

  -- The builder says the conditions.
  abbrev IsSaid : List Text → List A → List (List (Said A)) → Type ℓ
  IsSaid conditions args cs =
      (fill (join [] conditions) args ≡ all_said cs) × (is_any conditions ≡ is_any cs)

  all_said-append :
      (cs : List (List (Said A))) (s : List (Said A)) → all_said (cs ++ s ∷ []) ≡ all_said cs ++ s
  all_said-append [] s = append-nil s
  all_said-append (c ∷ cs) s =
      ap (λ l. c ++ l) (all_said-append cs s) ∙ sym (append_assoc c (all_said cs) s)

  pub fill-placeholder :
      (d : Dialect) (k : ℕ) (t : Text) (a : A) (args : List A)
      → fill (placeholder d k ∷ t) (a ∷ args) ≡ holds a ∷ fill t args
  unfolding fill placeholder
  fill-placeholder mysql k t a args = refl
  fill-placeholder postgresql k t a args = refl
  fill-placeholder sqlite k t a args = refl
  fill-placeholder clickhouse k t a args = refl
  fill-placeholder default_dialect k t a args = refl

  fill-listed :
      (d : Dialect) (k : ℕ) (values : List A) (t : Text)
      → fill (join (word "," ∷ []) (placeholders_from d k (length values)) ++ t) values
        ≡ listed_values values ++ fill t []
  unfolding fill join placeholders_from
  fill-listed d k [] t = refl
  fill-listed d k (v ∷ []) t = fill-placeholder d k t v []
  fill-listed d k (v ∷ w ∷ values) t =
      fill-placeholder d k
        (word "," ∷ (join (word "," ∷ []) (placeholders_from d (k + 1) (length (w ∷ values))) ++ t))
        v (w ∷ values)
      ∙ ap (λ l. holds v ∷ says (word ",") ∷ l) (fill-listed d (k + 1) (w ∷ values) t)

-- The placeholders of a text of marks are its marks.
slots-marks : (t : Text) → marks_only t ≡ true → length (slots t) ≡ count_marks t
unfolding slots marks_only count_marks
slots-marks [] h = refl
slots-marks (mark ∷ t) h = omega (arith, slots-marks t h)
slots-marks (numbered n ∷ t) h = absurd (ground arith)
slots-marks (word w ∷ t) h = slots-marks t h
slots-marks (name n ∷ t) h = slots-marks t h
slots-marks (number n ∷ t) h = slots-marks t h

blank_join : (cs : List Text) (c : Text) → join [] (cs ++ c ∷ []) ≡ join [] cs ++ c
unfolding join
blank_join [] c = refl
blank_join (e ∷ []) c = refl
blank_join (e ∷ f ∷ cs) c =
    ap (λ l. e ++ l) (blank_join (f ∷ cs) c) ∙ sym (append_assoc e (join [] (f ∷ cs)) c)

any-append {ℓ} : {B : Type ℓ} (xs : List B) (x : B) → is_any (xs ++ x ∷ []) ≡ true
any-append [] x = refl
any-append (y ∷ ys) x = refl

module _ {ℓ} {A : Type ℓ} where
  add_where-IsSaid :
      (d : Dialect) (c : Text) (args : List A) (wb : WhereBuilder A) (s : List (Said A))
      (cs : List (List (Said A)))
      → IsKept d wb
      → fill c args ≡ s
      → IsSaid wb.conditions wb.args cs
      → IsSaid (add_where c args wb).conditions (add_where c args wb).args (cs ++ s ∷ [])
  unfolding add_where
  add_where-IsSaid d c args wb s cs k e h =
      let before = join [] wb.conditions in
      let even : length (slots before) ≡ length wb.args =
        slots-marks before (marks_only-join wb.conditions k.1.0)
        ∙ count_marks-join wb.conditions
        ∙ k.1.1 in
      (
        ap (λ t. fill t (wb.args ++ args)) (blank_join wb.conditions c)
            ∙ fill-append before c wb.args args even
            ∙ ap₂ (λ l r. l ++ r) h.0 e
            ∙ sym (all_said-append cs s),
        any-append wb.conditions c ∙ sym (any-append cs s),
      )

  led_by-fill :
      (w : String) (c : Text) (args : List A) (texts : List Text) (cs : List (List (Said A)))
      → is_any texts ≡ is_any cs
      → fill (led_by w c texts) args ≡ led_said w (fill c args) cs
  unfolding fill
  led_by-fill w c args [] [] e = refl
  led_by-fill w c args [] (s ∷ cs) e = absurd (ground arith)
  led_by-fill w c args (t ∷ texts) [] e = absurd (ground arith)
  led_by-fill w c args (t ∷ texts) (s ∷ cs) e = refl

  led_by-said :
      (w : String) (c : Text) (args : List A) (s : List (Said A)) (texts : List Text)
      (cs : List (List (Said A)))
      → is_any texts ≡ is_any cs
      → fill c args ≡ s
      → fill (led_by w c texts) args ≡ led_said w s cs
  led_by-said w c args s texts cs e f =
      led_by-fill w c args texts cs e ∙ ap (λ x. led_said w x cs) f

  enclosed-fill :
      (head query : Text) (args : List A) (s : List (Said A))
      → IsEven {A = A} head []
      → IsEven query args
      → fill query args ≡ s
      → fill (enclosed head query) args ≡ enclosed_said (fill head []) s
  unfolding fill
  enclosed-fill head query args s h q e =
      fill-append head (word "(" ∷ (query ++ word ")" ∷ [])) [] args (slots-marks head h.0 ∙ h.1)
      ∙ ap (λ l. fill head [] ++ (says (word "(") ∷ l))
          (ap (fill (query ++ word ")" ∷ [])) (sym (append-nil args))
            ∙ fill-append query (word ")" ∷ []) args [] (slots-marks query q.0 ∙ q.1)
            ∙ ap (λ l. l ++ says (word ")") ∷ []) e)

  group-IsSaid :
      (d : Dialect) (w : String) (texts : List Text) (args : List A) (wb : WhereBuilder A)
      (sub cs : List (List (Said A)))
      → All (λ c. marks_only c ≡ true) texts × (marks_of texts ≡ length args)
      → IsKept d wb
      → IsSaid texts args sub
      → IsSaid wb.conditions wb.args cs
      → let g = add_group w (record { conditions = texts; args = args; dialect = wb.dialect }) wb in
        IsSaid g.conditions g.args (group_said w sub cs)
  unfolding add_group fill marks_only count_marks
  group-IsSaid d w [] args wb [] cs p k s h = h
  group-IsSaid d w [] args wb (x ∷ sub) cs p k s h = absurd (ground (arith, s))
  group-IsSaid d w (t ∷ texts) args wb [] cs p k s h = absurd (ground (arith, s))
  group-IsSaid d w (t ∷ texts) args wb (x ∷ sub) cs p k s h =
      let inner = join [] (t ∷ texts) in
      let even : IsEven inner args =
        (marks_only-join (t ∷ texts) p.0, count_marks-join (t ∷ texts) ∙ p.1) in
      add_where-IsSaid d (led_by w (enclosed [] inner) wb.conditions) args wb
        (led_said w (enclosed_said [] (all_said (x ∷ sub))) cs) cs k
        (led_by-said w (enclosed [] inner) args (enclosed_said [] (all_said (x ∷ sub)))
          wb.conditions cs h.1
          (enclosed-fill [] inner args (all_said (x ∷ sub)) (refl, refl) even s.0))
        h

  sub-IsSaid :
      (d : Dialect) (w : String) (inner wb : WhereBuilder A) (sub cs : List (List (Said A)))
      → IsKept d inner
      → IsKept d wb
      → IsSaid inner.conditions inner.args sub
      → IsSaid wb.conditions wb.args cs
      → IsSaid (add_group w inner wb).conditions (add_group w inner wb).args (group_said w sub cs)
  unfolding add_group
  sub-IsSaid d w inner wb sub cs i k s h =
      group-IsSaid d w inner.conditions inner.args wb sub cs i.1 k s h

  ilike-fill :
      (d : Dialect) (k : ℕ) (column : String) (value : A)
      → fill
          (if is_postgres d
            then name column ∷ word "ILIKE" ∷ placeholder d k ∷ []
            else word "LOWER("
              ∷ name column
              ∷ word ") LIKE LOWER("
              ∷ placeholder d k
              ∷ word ")"
              ∷ [])
          (value ∷ [])
        ≡ ilike_said d column value
  unfolding fill placeholder
  ilike-fill mysql k column value = refl
  ilike-fill postgresql k column value = refl
  ilike-fill sqlite k column value = refl
  ilike-fill clickhouse k column value = refl
  ilike-fill default_dialect k column value = refl

  in_values-IsSaid :
      (d : Dialect) (w always column : String) (values : List A) (wb : WhereBuilder A)
      (cs : List (List (Said A)))
      → IsKept d wb
      → IsSaid wb.conditions wb.args cs
      → let g = in_values w always column values wb in
        IsSaid g.conditions g.args (said_call d (in_call w always column values) cs)
  unfolding in_values said_call fill
  in_values-IsSaid d w always column [] wb cs k h =
      add_where-IsSaid d (word always ∷ []) [] wb (says (word always) ∷ []) cs k refl h
  in_values-IsSaid d w always column (v ∷ values) wb cs k h =
      let list =
        join (word "," ∷ [])
          (placeholders_from wb.dialect (length wb.args) (length (v ∷ values))) in
      add_where-IsSaid d (name column ∷ word w ∷ (list ++ word ")" ∷ [])) (v ∷ values) wb
        (says (name column) ∷ says (word w) ∷ (listed_values (v ∷ values) ++ says (word ")") ∷ []))
        cs k
        (ap (λ l. says (name column) ∷ says (word w) ∷ l)
          (fill-listed wb.dialect (length wb.args) (v ∷ values) (word ")" ∷ [])))
        h

mutual
  unfolding call call_each said_call said_calls IsPlainCall ArePlainCalls add_and add_or
      compare_with ilike is_null between exists with_subquery fill new_where_builder join marks_only
      count_marks

  call-IsSaid {ℓ} :
      {A : Type ℓ} (d : Dialect) (c : Call A) (wb : WhereBuilder A) (cs : List (List (Said A)))
      → IsPlainCall d c
      → IsKept d wb
      → IsSaid wb.conditions wb.args cs
      → IsSaid (call c wb).conditions (call c wb).args (said_call d c cs)
  call-IsSaid d (where_call condition args) wb cs p k h =
      add_where-IsSaid d condition args wb (fill condition args) cs k refl h
  call-IsSaid d (and_call condition args) wb cs p k h =
      add_where-IsSaid d (led_by "AND" condition wb.conditions) args wb
        (led_said "AND" (fill condition args) cs) cs k
        (led_by-fill "AND" condition args wb.conditions cs h.1) h
  call-IsSaid d (or_call condition args) wb cs p k h =
      add_where-IsSaid d (led_by "OR" condition wb.conditions) args wb
        (led_said "OR" (fill condition args) cs) cs k
        (led_by-fill "OR" condition args wb.conditions cs h.1) h
  call-IsSaid d (compare_call op column value) wb cs p k h =
      add_where-IsSaid d
        (name column ∷ word (op_text op) ∷ placeholder wb.dialect (length wb.args) ∷ [])
        (value ∷ []) wb (says (name column) ∷ says (word (op_text op)) ∷ holds value ∷ []) cs k
        (ap (λ l. says (name column) ∷ says (word (op_text op)) ∷ l)
          (fill-placeholder wb.dialect (length wb.args) [] value []))
        h
  call-IsSaid d (ilike_call column value) wb cs p k h =
      add_where-IsSaid d
        (if is_postgres wb.dialect
          then name column ∷ word "ILIKE" ∷ placeholder wb.dialect (length wb.args) ∷ []
          else word "LOWER("
            ∷ name column
            ∷ word ") LIKE LOWER("
            ∷ placeholder wb.dialect (length wb.args)
            ∷ word ")"
            ∷ [])
        (value ∷ []) wb (ilike_said d column value) cs k
        (ilike-fill wb.dialect (length wb.args) column value
          ∙ ap (λ x. ilike_said x column value) k.0)
        h
  call-IsSaid d (in_call w always column values) wb cs p k h =
      in_values-IsSaid d w always column values wb cs k h
  call-IsSaid d (null_call w column) wb cs p k h =
      add_where-IsSaid d (name column ∷ word w ∷ []) [] wb (says (name column) ∷ says (word w) ∷ [])
        cs k refl h
  call-IsSaid d (between_call w column start end) wb cs p k h =
      let n = length wb.args in
      add_where-IsSaid d
        (name column
          ∷ word w
          ∷ placeholder wb.dialect n
          ∷ word "AND"
          ∷ placeholder wb.dialect (n + 1)
          ∷ [])
        (start ∷ end ∷ []) wb
        (says (name column) ∷ says (word w) ∷ holds start ∷ says (word "AND") ∷ holds end ∷ []) cs k
        (ap (λ l. says (name column) ∷ says (word w) ∷ l)
          (fill-placeholder wb.dialect n (word "AND" ∷ placeholder wb.dialect (n + 1) ∷ []) start
              (end ∷ [])
            ∙ ap (λ l. holds start ∷ says (word "AND") ∷ l)
                (fill-placeholder wb.dialect (n + 1) [] end [])))
        h
  call-IsSaid d (exists_call w query args) wb cs p k h =
      add_where-IsSaid d (enclosed (word w ∷ []) query) args wb
        (enclosed_said (says (word w) ∷ []) (fill query args)) cs k
        (enclosed-fill (word w ∷ []) query args (fill query args) (refl, refl) p refl) h
  call-IsSaid d (subquery_call head query args) wb cs p k h =
      let n = length wb.args in
      let moved = shift_placeholders_if_needed query wb.dialect n in
      let same : moved ≡ query =
        ap (λ x. shift_placeholders_if_needed query x n) k.0 ∙ shift-positional d query n p.0 in
      add_where-IsSaid d (enclosed head moved) args wb
        (enclosed_said (fill head []) (fill query args)) cs k
        (ap (λ q. fill (enclosed head q) args) same
          ∙ enclosed-fill head query args (fill query args) p.1 p.2 refl)
        h
  call-IsSaid d (group_call w calls) wb cs p k h =
      let sub = call_each calls (new_where_builder wb.dialect) in
      let (kept, said) =
        calls-IsSaid d calls (new_where_builder wb.dialect) [] p (started d wb k.0) (refl, refl) in
      sub-IsSaid d w sub wb (said_calls d calls []) cs kept k said h

  calls-IsSaid {ℓ} :
      {A : Type ℓ} (d : Dialect) (calls : Calls A) (wb : WhereBuilder A) (cs : List (List (Said A)))
      → ArePlainCalls d calls
      → IsKept d wb
      → IsSaid wb.conditions wb.args cs
      → IsKept d (call_each calls wb)
        × IsSaid (call_each calls wb).conditions (call_each calls wb).args (said_calls d calls cs)
  calls-IsSaid d none_left wb cs p k h = (k, h)
  calls-IsSaid d (then_call c calls) wb cs p k h =
      calls-IsSaid d calls (call c wb) (said_call d c cs) p.1 (call-IsKept d c wb p.0 k)
        (call-IsSaid d c wb cs p.0 k h)

-- The clause says the conditions, behind its first word.
abbrev pub where_said {ℓ} : {A : Type ℓ} → String → List (List (Said A)) → List (Said A)
where_said w [] = []
where_said w (c ∷ conditions) = says (word w) ∷ all_said (c ∷ conditions)

built_from-said {ℓ} :
    {A : Type ℓ} (d : Dialect) (k : ℕ) (texts : List Text) (args : List A)
    (cs : List (List (Said A)))
    → IsSaid texts args cs
    → fill (built_from k d texts args).0 (built_from k d texts args).1 ≡ where_said "WHERE" cs
unfolding built_from fill
built_from-said d k [] args [] h = refl
built_from-said d k [] args (c ∷ cs) h = absurd (ground (arith, h.1))
built_from-said d k (t ∷ texts) args [] h = absurd (ground (arith, h.1))
built_from-said d k (t ∷ texts) args (c ∷ cs) h =
    ap (λ l. says (word "WHERE") ∷ l)
      (fill-blank (join [] (numbered_conditions d k (t ∷ texts))) (join [] (t ∷ texts)) args
          (blank-conditions d k (t ∷ texts))
        ∙ h.0)

-- What the calls of a builder say, behind any number of arguments: the placeholders are those of the
-- arguments, in order, and with the arguments in their places the text is what the calls say.
pub clause-said {ℓ} :
    {A : Type ℓ} (d : Dialect) (k : ℕ) (calls : Calls A)
    → ArePlainCalls d calls
    → let b = build_with_offset k (call_each calls (new_where_builder d)) in
      IsBound d k b × (fill b.0 b.1 ≡ where_said "WHERE" (said_calls d calls []))
unfolding new_where_builder join fill
clause-said {A} d k calls p =
    let wb = call_each calls (new_where_builder d) in
    let (kept, said) =
      calls-IsSaid d calls (new_where_builder d) [] p (new-IsKept A d) (refl, refl) in
    (
      subst (λ x. IsBound x k (build_with_offset k wb)) kept.0 (build-IsBound k wb kept.1),
      ap (λ (b : Text × List A). fill b.0 b.1) (build-built_from k wb)
          ∙ built_from-said wb.dialect k wb.conditions wb.args (said_calls d calls []) said,
    )

after_all {ℓ} :
    {A : Type ℓ} (before args : List A) (i : ℕ)
    → get_elem? (before ++ args) (length before + i) ≡ get_elem? args i
after_all [] args i = let at : 0 + i ≡ i = omega arith in ap (get_elem? args) at
after_all (b ∷ before) args i =
    let at : suc (length before) + i ≡ suc (length before + i) = omega arith in
    ap (get_elem? (b ∷ (before ++ args))) at ∙ after_all before args i

-- What the database reads of a WHERE clause, behind any arguments of the statement before it: what the
-- calls say, in order and groups within groups included, each with its own arguments in the places of
-- its placeholders. It binds a question mark by its place among the arguments of the statement and
-- `$n` by its number. Each raw condition has as many marks as arguments and no placeholder of another
-- form. The dialect is one with the mark as placeholder, or only calls with raw conditions and without
-- values are made.
pub bind-build_with_offset {ℓ} :
    {A : Type ℓ} (d : Dialect) (before : List A) (calls : Calls A)
    → ArePlainCalls d calls
    → let b = build_with_offset (length before) (call_each calls (new_where_builder d)) in
      bind (before ++ b.1) (length before) b.0 ≡ where_said "WHERE" (said_calls d calls [])
bind-build_with_offset d before calls p =
    let b = build_with_offset (length before) (call_each calls (new_where_builder d)) in
    let (bound, said) = clause-said d (length before) calls p in
    bind-fill d (before ++ b.1) b.1 (length before) (length before) b.0
      (Counted-self d (length before)) (after_all before b.1) bound
    ∙ said
