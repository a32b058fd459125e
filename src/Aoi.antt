-- ===== src/Aoi.antt =====
-- plugins/gameserver/aoi/aoi.go: a grid index of the entities of a world. A position is a value of
-- some type, and `keyAt`, which the code computes in floating point, is an argument. The maps of the
-- code share one object for each entity: `entities` holds it, and a cell the ids of its own. Ids are
-- not negative, so that the id -1 that excludes no entity is `none`.
pub mod Cells
pub mod Index
pub mod Around
mod Tests
use golang_gin_rpc.Base.{
  ℕ, zero, suc, ◌≡◌, ◌↔◌, Bool, true, false, not, ◌&&◌, ◌||◌, Option, none, some, List, [], ◌∷◌,
  ◌++◌, Eq, ◌==◌, nat_eq, Dict, lookup, insert, erase, has, if◌then◌else◌, length, contains, eqb,
  eqb_iff, arith,
}
use golang_gin_rpc.Base.Int.{ℤ, pos, negsuc, same_int}

pub record CellKey : Type 0 where
  pub cx : ℤ
  pub cy : ℤ

abbrev same_key : CellKey → CellKey → Bool
same_key a b = same_int a.cx b.cx && same_int a.cy b.cy

pub same_key_iff : (a b : CellKey) → (same_key a b ≡ true) ↔ (a ≡ b)
same_key_iff a b = ground arith

instance abbrev pub key_eq : Eq CellKey
key_eq = record { same = same_key; same_iff = same_key_iff }

-- `c + 1` and `c - 1`.
abbrev pub up : ℤ → ℤ
up (pos n) = pos (suc n)
up (negsuc zero) = pos 0
up (negsuc (suc n)) = negsuc n

abbrev pub down : ℤ → ℤ
down (pos zero) = negsuc 0
down (pos (suc n)) = pos n
down (negsuc n) = negsuc (suc n)

-- `delete(entities, id)` of a cell.
unfoldable pub without : ℕ → List ℕ → List ℕ
without id [] = []
without id (j ∷ ids) = if j == id then without id ids else j ∷ without id ids

pub record Entity (X : Type 0) : Type 0 where
  pub id : ℕ
  pub at : X

pub record Manager (X : Type 0) : Type 0 where
  pub cells : Dict CellKey (List ℕ)
  pub entities : Dict ℕ X
  pub entity_cell : Dict ℕ CellKey

abbrev pub ids_or : Option (List ℕ) → List ℕ
ids_or none = []
ids_or (some ids) = ids

-- The entities of a cell; none when it was never made.
abbrev pub cell : CellKey → Dict CellKey (List ℕ) → List ℕ
cell k cells = ids_or (lookup k cells)

-- `m.cellAt(k).entities[id] = e`.
unfoldable pub put : CellKey → ℕ → Dict CellKey (List ℕ) → Dict CellKey (List ℕ)
put k id cells =
    insert k (if contains (cell k cells) id then cell k cells else id ∷ cell k cells) cells

-- `if c := m.cells[k]; c != nil { delete(c.entities, id) }`.
unfoldable pub take : CellKey → ℕ → Dict CellKey (List ℕ) → Dict CellKey (List ℕ)
take k id cells = if has k cells then insert k (without id (cell k cells)) cells else cells

abbrev pub zero_key : CellKey
zero_key = record { cx = pos 0; cy = pos 0 }

abbrev pub key_or_zero : Option CellKey → CellKey
key_or_zero none = zero_key
key_or_zero (some k) = k

module _ {X : Type 0} (key_at : X → CellKey) where
  abbrev pub new_manager : Manager X
  new_manager = record { cells = []; entities = []; entity_cell = [] }

  unfoldable pub move_locked : Manager X → ℕ → X → Manager X
  move_locked m id at =
      let old = key_or_zero (lookup id m.entity_cell) in
      let k = key_at at in
      if not (has id m.entities)
      then m
      else (if old == k then record m { entities = insert id at m.entities } else record {
        cells = put k id (take old id m.cells);
        entities = insert id at m.entities;
        entity_cell = insert id k m.entity_cell;
      })

  unfoldable pub enter : Manager X → ℕ → X → Manager X
  unfolding move_locked
  enter m id at = if has id m.entities then move_locked m id at else record {
    cells = put (key_at at) id m.cells;
    entities = insert id at m.entities;
    entity_cell = insert id (key_at at) m.entity_cell;
  }

  unfoldable pub leave : Manager X → ℕ → Manager X × Bool
  leave m id = if not (has id m.entities) then (m, false) else (
    record {
      cells = take (key_or_zero (lookup id m.entity_cell)) id m.cells;
      entities = erase id m.entities;
      entity_cell = erase id m.entity_cell;
    },
    true,
  )

  -- What happens in a world.
  pub data WorldEvent : Type 0 where
    enters moves : ℕ → X → WorldEvent
    leaves : ℕ → WorldEvent

  unfoldable pub step : Manager X → WorldEvent → Manager X
  step m (enters id at) = enter m id at
  step m (moves id at) = move_locked m id at
  step m (leaves id) = (leave m id).0

  unfoldable pub run : Manager X → List WorldEvent → Manager X
  run m [] = m
  run m (e ∷ es) = run (step m e) es

-- The coordinates next to one, for `dx` or `dy` from -1 to 1.
abbrev pub axis : ℤ → List ℤ
axis c = down c ∷ c ∷ up c ∷ []

abbrev pub is_excluded : Option ℕ → ℕ → Bool
is_excluded none id = false
is_excluded (some i) id = id == i

module _ {X : Type 0} where
  -- The entities of a cell, without the excluded one.
  unfoldable pub collect : Manager X → Option ℕ → List ℕ → List (Entity X)
  collect m exclude [] = []
  collect m exclude (id ∷ ids) = elim (lookup id m.entities) [
    | none ↦ collect m exclude ids
    | some at ↦
        if is_excluded exclude id
        then collect m exclude ids
        else record { id = id; at = at } ∷ collect m exclude ids
  ]

  unfoldable pub collect_column : Manager X → Option ℕ → ℤ → List ℤ → List (Entity X)
  collect_column m exclude cx [] = []
  collect_column m exclude cx (cy ∷ cys) =
      collect m exclude (cell (record { cx = cx; cy = cy }) m.cells)
      ++ collect_column m exclude cx cys

  unfoldable pub collect_grid : Manager X → Option ℕ → List ℤ → List ℤ → List (Entity X)
  collect_grid m exclude [] cys = []
  collect_grid m exclude (cx ∷ cxs) cys =
      collect_column m exclude cx cys ++ collect_grid m exclude cxs cys

  unfoldable pub around_cell_locked : Manager X → CellKey → Option ℕ → List (Entity X)
  around_cell_locked m k exclude = collect_grid m exclude (axis k.cx) (axis k.cy)

  unfoldable pub around : Manager X → ℕ → List (Entity X)
  around m id = elim (lookup id m.entity_cell) [
    | none ↦ []
    | some k ↦ around_cell_locked m k (some id)
  ]

  unfoldable pub around_point : (X → CellKey) → Manager X → X → List (Entity X)
  around_point key_at m at = around_cell_locked m (key_at at) none

  abbrev pub get : Manager X → ℕ → Option (Entity X)
  get m id = elim (lookup id m.entities) [
    | none ↦ none
    | some at ↦ some (record { id = id; at = at })
  ]

  abbrev pub count : Manager X → ℕ
  count m = length m.entities
