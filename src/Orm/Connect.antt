-- ===== src/Orm/Connect.antt =====
-- plugins/db/orm/where_builder.go and update_builder.go: the word between two conditions.
use golang_gin_rpc.Base.{
  ◌≡◌, refl, Bool, true, false, ◌&&◌, ◌||◌, List, [], ◌∷◌, ◌++◌, arith, String, string_eq, ◌==◌,
}
use golang_gin_rpc.Orm.{word, name, number, mark, numbered, Text, join}
use golang_gin_rpc.Orm.Where.{
  WhereBuilder, Op, op_text, led_by, enclosed, add_where, add_and, add_or, compare_with, add_group,
  next_placeholder,
}
use golang_gin_rpc.Orm.Delete.{DeleteBuilder, where_delete, delete_with_version}
use golang_gin_rpc.Orm.Columns.{UpdateBuilder, set_value, where_update, with_version}

-- A condition that says how it is joined to those before it.
abbrev is_led : Text → Bool
is_led [] = false
is_led (word w ∷ text) = w == "AND" || w == "OR"
is_led (name n ∷ text) = false
is_led (number n ∷ text) = false
is_led (mark ∷ text) = false
is_led (numbered n ∷ text) = false

abbrev pub all_led : List Text → Bool
all_led [] = true
all_led (c ∷ conditions) = is_led c && all_led conditions

-- Every condition after the first one says how it is joined. Any other clause is not SQL.
abbrev pub is_joined : List Text → Bool
is_joined [] = true
is_joined (c ∷ conditions) = all_led conditions

all_led-append : (cs : List Text) (c : Text) → all_led (cs ++ c ∷ []) ≡ (all_led cs && is_led c)
all_led-append [] c = ground arith
all_led-append (d ∷ cs) c = ground (arith, all_led-append cs c)

joined_led :
    (w : String) (c : Text) (cs : List Text)
    → (w == "AND" || w == "OR") ≡ true
    → is_joined cs ≡ true
    → is_joined (cs ++ led_by w c cs ∷ []) ≡ true
joined_led w c [] e h = refl
joined_led w c (d ∷ cs) e h = rw (all_led-append cs (word w ∷ c), h, e)

joined_bare :
    (c d : Text) (cs : List Text) → is_led c ≡ false → is_joined ((d ∷ cs) ++ c ∷ []) ≡ false
joined_bare c d cs e = rw (all_led-append cs c, e) (ground arith)

appended : (cs : List Text) (c : Text) → (d : Text) × (ds : List Text) × (cs ++ c ∷ [] ≡ d ∷ ds)
appended [] c = (c, [], refl)
appended (d ∷ cs) c = (d, cs ++ c ∷ [], refl)

module _ {ℓ} {A : Type ℓ} where
  -- And, Or and the groups join their condition to those before it: a clause that they begin, and
  -- one of conditions that are joined, stays so.
  pub joined_calls :
      (condition : Text) (args : List A) (sub wb : WhereBuilder A)
      → is_joined wb.conditions ≡ true
      → (is_joined (add_and condition args wb).conditions ≡ true)
        × (is_joined (add_or condition args wb).conditions ≡ true)
        × (is_joined (add_group "AND" sub wb).conditions ≡ true)
        × (is_joined (add_group "OR" sub wb).conditions ≡ true)
  unfolding add_and add_or add_where add_group
  joined_calls condition args sub wb h = (
    joined_led "AND" condition wb.conditions refl h,
    joined_led "OR" condition wb.conditions refl h,
    grouped "AND" refl sub.conditions sub.args,
    grouped "OR" refl sub.conditions sub.args,
  )
    where
      grouped :
          (w : String)
          → (w == "AND" || w == "OR") ≡ true
          → (cs : List Text) (args : List A)
          → is_joined (add_group w (record sub { conditions = cs; args = args }) wb).conditions
            ≡ true
      grouped w e [] args = h
      grouped w e (c ∷ cs) args = joined_led w (enclosed [] (join [] (c ∷ cs))) wb.conditions e h

  compare-unjoined :
      (op : Op) (column : String) (value : A) (wb : WhereBuilder A) (d : Text) (cs : List Text)
      → wb.conditions ≡ d ∷ cs
      → is_joined (compare_with op column value wb).conditions ≡ false
  unfolding compare_with add_where
  compare-unjoined op column value wb d cs e =
      rw e (joined_bare (name column ∷ word (op_text op) ∷ next_placeholder wb ∷ []) d cs refl)

  -- UpdateWithVersion and DeleteWithVersion always make a WHERE clause that is not SQL: whatever
  -- conditions there were, the second of the two that they add, on the id of an update and on the
  -- version of a delete, follows the first with no word between them.
  pub with_version-unjoined :
      (id : A) (id_column : String) (current_version one : A) (ub : UpdateBuilder A)
      (version_field : String) (db : DeleteBuilder A)
      → (is_joined (with_version id id_column current_version one ub).conditions.conditions ≡ false)
        × (is_joined
              (delete_with_version id_column id version_field current_version
                db).conditions.conditions
            ≡ false)
  unfolding with_version where_update set_value add_and add_where delete_with_version where_delete
      compare_with op_text
  with_version-unjoined id id_column current_version one ub version_field db =
      let c = name ub.version_field ∷ word "=" ∷ next_placeholder ub.conditions ∷ [] in
      let (d, ds, e) =
        appended ub.conditions.conditions (led_by "AND" c ub.conditions.conditions) in
      let i = name id_column ∷ word "=" ∷ next_placeholder db.conditions ∷ [] in
      let (x, xs, f) = appended db.conditions.conditions i in
      (
        compare-unjoined Op.eq id_column id (add_and c (current_version ∷ []) ub.conditions) d ds e,
        compare-unjoined Op.eq version_field current_version
            (compare_with Op.eq id_column id db.conditions) x xs f,
      )
