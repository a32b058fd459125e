-- ===== src/Aoi/Tests.antt =====
-- A world on the line, with cells of length ten.
use golang_gin_rpc.Base.{
  ℕ, ◌≡◌, refl, ◌/◌, not, ◌&&◌, List, [], ◌∷◌, eqb, nat_eq, lookup, insert, erase, contains,
}
use golang_gin_rpc.Base.Int.{pos}
use golang_gin_rpc.Aoi.{
  CellKey, Manager, WorldEvent, enters, moves, leaves, new_manager, run, around, step, enter,
  move_locked, leave, put, take, without, key_eq,
}
use golang_gin_rpc.Aoi.Index.{IsIndexed, run-IsIndexed, new-IsIndexed}
use golang_gin_rpc.Aoi.Cells.{located}
use golang_gin_rpc.Aoi.Around.{ids, is_near_to, around-near}

abbrev on_line : ℕ → CellKey
on_line x = record { cx = pos (x / 10); cy = pos 0 }

abbrev events : List (WorldEvent on_line)
events = enters 1 5 ∷ enters 2 17 ∷ enters 3 95 ∷ moves 3 25 ∷ enters 4 12 ∷ leaves 4 ∷ []

run-IsIndexed_example : IsIndexed on_line (run on_line (new_manager on_line) events)
run-IsIndexed_example = run-IsIndexed on_line (new_manager on_line) events (new-IsIndexed on_line)

abbrev world : Manager ℕ
world = run on_line (new_manager on_line) events

world-IsIndexed : IsIndexed on_line world
world-IsIndexed = run-IsIndexed on_line (new_manager on_line) events (new-IsIndexed on_line)

around-near_example :
    contains (ids (around world 1)) 2
    ≡ (not (eqb 2 1) && is_near_to (on_line 5) (located on_line (lookup 2 world.entities)))
unfolding run step enter move_locked leave put take lookup insert erase without
around-near_example = around-near on_line world world-IsIndexed 1 2 5 refl
