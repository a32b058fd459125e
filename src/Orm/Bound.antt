-- ===== src/Orm/Bound.antt =====
-- plugins/db/orm/where_builder.go: any calls of the builder keep its marks those of its arguments.
use golang_gin_rpc.Base.{refl}
use golang_gin_rpc.Orm.{Dialect}
use golang_gin_rpc.Orm.Where.{
  WhereBuilder, led_by, new_where_builder, add_and, add_or, Call, Calls, call, call_each,
  where_call, and_call, or_call, compare_call, ilike_call, in_call, null_call, between_call,
  exists_call, subquery_call, group_call, none_left, then_call,
}
use golang_gin_rpc.Orm.Binding.{marks_of, led_by-IsEven}
use golang_gin_rpc.Orm.Kept.{
  IsKept, ArePlainCalls, IsPlainCall, add_where-IsKept, between-IsKept, compare-IsKept,
  exists-IsKept, ilike-IsKept, in_values-IsKept, null-IsKept, started, sub-IsKept, subquery-IsKept,
}

pub new-IsKept {ℓ} : (A : Type ℓ) (d : Dialect) → IsKept {A = A} d (new_where_builder d)
unfolding new_where_builder marks_of
new-IsKept A d = (refl, (tt, refl))

mutual
  unfolding call call_each IsPlainCall ArePlainCalls add_and add_or

  pub call-IsKept {ℓ} :
      {A : Type ℓ} (d : Dialect) (c : Call A) (wb : WhereBuilder A)
      → IsPlainCall d c
      → IsKept d wb
      → IsKept d (call c wb)
  call-IsKept d (where_call condition args) wb p h = add_where-IsKept d condition args wb p h
  call-IsKept d (and_call condition args) wb p h =
      add_where-IsKept d (led_by "AND" condition wb.conditions) args wb
        (led_by-IsEven "AND" condition wb.conditions args p) h
  call-IsKept d (or_call condition args) wb p h =
      add_where-IsKept d (led_by "OR" condition wb.conditions) args wb
        (led_by-IsEven "OR" condition wb.conditions args p) h
  call-IsKept d (compare_call op column value) wb p h = compare-IsKept d op column value wb p h
  call-IsKept d (ilike_call column value) wb p h = ilike-IsKept d column value wb p h
  call-IsKept d (in_call w always column values) wb p h =
      in_values-IsKept d w always column values wb p h
  call-IsKept d (null_call w column) wb p h = null-IsKept d w column wb h
  call-IsKept d (between_call w column start end) wb p h =
      between-IsKept d w column start end wb p h
  call-IsKept d (exists_call w query args) wb p h = exists-IsKept d w query args wb p h
  call-IsKept d (subquery_call head query args) wb p h = subquery-IsKept d head query args wb p h
  call-IsKept d (group_call w calls) wb p h =
      sub-IsKept d w (call_each calls (new_where_builder wb.dialect)) wb
        (calls-IsKept d calls (new_where_builder wb.dialect) p (started d wb h.0)) h

  pub calls-IsKept {ℓ} :
      {A : Type ℓ} (d : Dialect) (calls : Calls A) (wb : WhereBuilder A)
      → ArePlainCalls d calls
      → IsKept d wb
      → IsKept d (call_each calls wb)
  calls-IsKept d none_left wb p h = h
  calls-IsKept d (then_call c calls) wb p h =
      calls-IsKept d calls (call c wb) p.1 (call-IsKept d c wb p.0 h)
