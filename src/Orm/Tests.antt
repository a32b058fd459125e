-- ===== src/Orm/Tests.antt =====
-- Statements that exercise the theorems on plugins/db/orm.
use golang_gin_rpc.Base.{ℕ, ◌≡◌, refl, true, false, [], ◌∷◌, String}
use golang_gin_rpc.Base.Int.{pos}
use golang_gin_rpc.Orm.{postgresql, mysql, word, name, mark, numbered, placeholder, count_marks}
use golang_gin_rpc.Orm.Where.{
  WhereBuilder, eq, new_where_builder, compare_with, Calls, call_each, where_call, or_call,
  group_call, none_left, then_call, build_with_offset,
}
use golang_gin_rpc.Orm.Query.{Built, SelectBuilder, build_select}
use golang_gin_rpc.Orm.Columns.{
  plain, expr, UpdateBuilder, new_update_builder, set_value, where_update, with_version,
  build_update,
}
use golang_gin_rpc.Orm.Slots.{slots, marks_only, expected}
use golang_gin_rpc.Orm.Update.{update_said}
use golang_gin_rpc.Orm.Kept.{ArePlainCalls}
use golang_gin_rpc.Orm.Where.{call, add_where}
use golang_gin_rpc.Orm.Fill.{bind}
use golang_gin_rpc.Orm.Parts.{read}
use golang_gin_rpc.Orm.Clause.{where_said, said_calls, bind-build_with_offset}
use golang_gin_rpc.Orm.Select.{select_said, read-build_select}
use golang_gin_rpc.Orm.Connect.{is_joined, with_version-unjoined}
use golang_gin_rpc.Orm.Delete.{
  DeleteBuilder, new_delete_builder, delete_with_version, build_delete, delete_said, read-changes,
}
use golang_gin_rpc.Orm.Insert.{
  InsertBuilder, new_insert_builder, set_rows, add_row, build_bulk_insert, IsAnswer,
  build_bulk_insert-IsAnswer,
}
use golang_gin_rpc.Orm.Update.{compare_misbinds}

-- a = ? AND (b > ? OR c > ?)
abbrev calls : Calls ℕ
calls = then_call (where_call (name "a" ∷ word "=" ∷ mark ∷ []) (1 ∷ [])) (
    then_call
      (group_call "AND" (
        then_call (where_call (name "b" ∷ word ">" ∷ mark ∷ []) (2 ∷ []))
          (then_call (or_call (name "c" ∷ word ">" ∷ mark ∷ []) (3 ∷ [])) none_left)))
      none_left)

bind-build_with_offset_example :
    let b = build_with_offset 2 (call_each calls (new_where_builder postgresql)) in
    bind (8 ∷ 9 ∷ b.1) 2 b.0 ≡ where_said "WHERE" (said_calls postgresql calls [])
unfolding ArePlainCalls marks_only count_marks
bind-build_with_offset_example =
    bind-build_with_offset postgresql (8 ∷ 9 ∷ []) calls
      ((refl, refl), (((refl, refl), ((refl, refl), tt)), tt))

-- One condition on the column, with its mark, and the builder that holds it.
abbrev only : String → ℕ → Calls ℕ
only column value =
    then_call (where_call (name column ∷ word "=" ∷ mark ∷ []) (value ∷ [])) none_left

-- A condition on the column, with its mark.
abbrev filtered : String → ℕ → WhereBuilder ℕ
filtered column value = record {
  conditions = (name column ∷ word "=" ∷ mark ∷ []) ∷ [];
  args = value ∷ [];
  dialect = postgresql;
}

abbrev recent : Built ℕ
recent = (word "SELECT * FROM logs WHERE at >" ∷ numbered 1 ∷ [], 7 ∷ [])

abbrev users : SelectBuilder ℕ
users = record {
  table = (name "users" ∷ [], []);
  columns = (name "id" ∷ []) ∷ [];
  joins =
      record {
        kind = "INNER";
        table = name "orders" ∷ [];
        raw_table = false;
        table_args = [];
        condition = word "orders.state =" ∷ mark ∷ [];
        args = 8 ∷ [];
      }
      ∷ [];
  conditions = filtered "role" 9;
  group_by = [];
  having = filtered "total" 10;
  order_by = (name "id" ∷ []) ∷ [];
  limit = pos 5;
  offset = pos 0;
  lock_mode = [];
  dialect = postgresql;
  ctes = ("recent", false, recent) ∷ [];
  unions = (true, recent) ∷ [];
}

read-build_select_example :
    read (build_select users) ≡ select_said (only "role" 9) (only "total" 10) users
unfolding slots marks_only expected count_marks placeholder call_each call add_where
    new_where_builder ArePlainCalls
read-build_select_example = read-build_select (only "role" 9) (only "total" 10) users record {
  from = refl;
  columns = (refl, tt);
  joins = ((refl, (refl, refl)), tt);
  conditions = (refl, ((refl, refl), tt));
  group_by = tt;
  having = (refl, ((refl, refl), tt));
  order_by = (refl, tt);
  lock_mode = refl;
  ctes = (refl, tt);
  unions = (refl, tt);
}

with_version-unjoined_example :
    (is_joined
        (with_version {A = ℕ} 3 "id" 8 1 (new_update_builder "users" mysql)).conditions.conditions
      ≡ false)
    × (is_joined
          (delete_with_version {A = ℕ} "id" 3 "version" 8
            (new_delete_builder "users" mysql)).conditions.conditions
        ≡ false)
with_version-unjoined_example =
    with_version-unjoined {A = ℕ} 3 "id" 8 1 (new_update_builder "users" mysql) "version"
      (new_delete_builder "users" mysql)

abbrev renamed : UpdateBuilder ℕ
renamed = record {
  table = "users";
  columns =
      ("name", plain 4) ∷ ("logins", expr (name "logins" ∷ word "+" ∷ mark ∷ []) (1 ∷ [])) ∷ [];
  conditions = filtered "id" 6;
  joins = [];
  order_by = [];
  limit = pos 0;
  dialect = postgresql;
  version_field = "version";
}

abbrev removed : DeleteBuilder ℕ
removed = record (new_delete_builder "users" postgresql) { conditions = filtered "id" 6 }

read-changes_example :
    (read (build_update renamed) ≡ update_said (only "id" 6) renamed)
    × (read (build_delete removed) ≡ delete_said (only "id" 6) removed)
unfolding slots marks_only count_marks new_delete_builder call_each call add_where new_where_builder
    ArePlainCalls
read-changes_example =
    read-changes (only "id" 6) (only "id" 6) renamed removed
      record {
        columns = (tt, ((refl, refl), tt));
        joins = tt;
        conditions = (refl, ((refl, refl), tt));
        order_by = tt;
      }
      record { joins = tt; conditions = (refl, ((refl, refl), tt)); order_by = tt }

compare_misbinds_example :
    (slots
        (build_update {A = ℕ} (
          where_update
            (compare_with eq "id" 6)
            (set_value "name" (plain 4) (new_update_builder "users" postgresql)))).0
      ≡ numbered 1 ∷ numbered 1 ∷ [])
    × ((build_update {A = ℕ} (
          where_update
            (compare_with eq "id" 6)
            (set_value "name" (plain 4) (new_update_builder "users" postgresql)))).1
        ≡ 4 ∷ 6 ∷ [])
compare_misbinds_example = compare_misbinds {A = ℕ} "users" "name" "id" 4 6 eq

-- Two rows, and one that is a value short.
abbrev added : InsertBuilder ℕ
added = add_row (5 ∷ []) (
    set_rows ("id" ∷ "age" ∷ []) ((1 ∷ 30 ∷ []) ∷ (2 ∷ 40 ∷ []) ∷ [])
      (new_insert_builder "users" postgresql))

build_bulk_insert-IsAnswer_example : IsAnswer added (build_bulk_insert added)
build_bulk_insert-IsAnswer_example = build_bulk_insert-IsAnswer added
