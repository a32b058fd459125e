-- ===== src/Aoi/Index.antt =====
-- The index stays in step with the entities.
use mathlib.Core.Bool.{true≢false}
use golang_gin_rpc.Base.{
  ℕ, ◌≡◌, refl, sym, ap, ◌∙◌, true, false, none, some, List, [], ◌∷◌, ◌==◌, ==_iff, nat_eq, Dict,
  lookup, insert, erase, has, is_some, contains, lookup-insert, lookup-erase, Bool-cases,
  Option-cases, inl, inr, subst,
}
use golang_gin_rpc.Aoi.{
  CellKey, key_eq, Manager, cell, put, take, key_or_zero, new_manager, move_locked, enter, leave,
  WorldEvent, enters, moves, leaves, step, run,
}
use golang_gin_rpc.Aoi.Cells.{
  if_true, contains-put, contains-take, is_at, located, and_true, and_false, not_there, not_here,
  nowhere, only_here,
}

-- An entity is in the cell that its position lies in and in no other, and no cell holds anything else.
pub record IsIndexed {X : Type 0} (key_at : X → CellKey) (m : Manager X) : Type 0 where
  pub key_of : (id : ℕ) → lookup id m.entity_cell ≡ located key_at (lookup id m.entities)
  pub placed :
      (k : CellKey) (id : ℕ) → contains (cell k m.cells) id ≡ is_at k (lookup id m.entity_cell)

module _ {X : Type 0} (key_at : X → CellKey) where
  located-insert :
      (id j : ℕ) (at : X) (entities : Dict ℕ X) (entity_cell : Dict ℕ CellKey)
      → lookup j entity_cell ≡ located key_at (lookup j entities)
      → lookup j (insert id (key_at at) entity_cell)
        ≡ located key_at (lookup j (insert id at entities))
  located-insert id j at entities entity_cell h =
      rw (lookup-insert id j (key_at at) entity_cell, lookup-insert id j at entities)
        (elim (Bool-cases (id == j)) [ inl e ↦ rw e refl | inr e ↦ rw e h ])

  unlocated :
      (id : ℕ) (m : Manager X)
      → IsIndexed key_at m
      → has id m.entities ≡ false
      → lookup id m.entity_cell ≡ none
  unlocated id m v h = elim (Option-cases (lookup id m.entities)) [
    | inl n ↦ v.key_of id ∙ ap (located key_at) n
    | inr (x, n) ↦ absurd (true≢false (sym (ap is_some n) ∙ h))
  ]

  placed-new :
      (k q : CellKey) (id j : ℕ) (m : Manager X)
      → IsIndexed key_at m
      → has id m.entities ≡ false
      → contains (cell q (put k id m.cells)) j ≡ is_at q (lookup j (insert id k m.entity_cell))
  placed-new k q id j m v h =
      rw (contains-put k q id j m.cells, lookup-insert id j k m.entity_cell, v.placed q j)
        (elim (Bool-cases (id == j)) [
          | inl e ↦
              let n =
                ap (λ i. lookup i m.entity_cell) (sym ((==_iff id j).0 e)) ∙ unlocated id m v h in
              rw (e, n) (and_true (k == q))
          | inr e ↦ rw e (and_false (k == q) (is_at q (lookup j m.entity_cell)))
        ])

  placed-moved :
      (k q : CellKey) (id j : ℕ) (m : Manager X)
      → IsIndexed key_at m
      → contains (cell q (put k id (take (key_or_zero (lookup id m.entity_cell)) id m.cells))) j
        ≡ is_at q (lookup j (insert id k m.entity_cell))
  placed-moved k q id j m v =
      let old = key_or_zero (lookup id m.entity_cell) in
      rw
        (
          contains-put k q id j (take old id m.cells),
          contains-take old q id j m.cells,
          lookup-insert id j k m.entity_cell,
          v.placed q j,
        )
        (elim (Bool-cases (id == j)) [
          | inl e ↦
              let n = ap (λ i. lookup i m.entity_cell) (sym ((==_iff id j).0 e)) in
              rw (e, n) (only_here (k == q) q (lookup id m.entity_cell))
          | inr e ↦ rw e (not_here (k == q) (old == q) (is_at q (lookup j m.entity_cell)))
        ])

  placed-left :
      (q : CellKey) (id j : ℕ) (m : Manager X)
      → IsIndexed key_at m
      → contains (cell q (take (key_or_zero (lookup id m.entity_cell)) id m.cells)) j
        ≡ is_at q (lookup j (erase id m.entity_cell))
  placed-left q id j m v =
      let old = key_or_zero (lookup id m.entity_cell) in
      rw (contains-take old q id j m.cells, lookup-erase id j m.entity_cell, v.placed q j)
        (elim (Bool-cases (id == j)) [
          | inl e ↦
              let n = ap (λ i. lookup i m.entity_cell) (sym ((==_iff id j).0 e)) in
              rw (e, n) (nowhere q (lookup id m.entity_cell))
          | inr e ↦ rw e (not_there (old == q) (is_at q (lookup j m.entity_cell)))
        ])

  enter_new :
      (m : Manager X) (id : ℕ) (at : X)
      → has id m.entities ≡ false
      → IsIndexed key_at m
      → IsIndexed key_at (enter key_at m id at)
  unfolding enter
  enter_new m id at h v =
      rw (h, enter)
        (record {
          key_of = λ j. located-insert id j at m.entities m.entity_cell (v.key_of j);
          placed = λ q j. placed-new (key_at at) q id j m v h;
        })

  same_cell :
      (m : Manager X) (id j : ℕ) (at : X)
      → has id m.entities ≡ true
      → (key_or_zero (lookup id m.entity_cell) == key_at at) ≡ true
      → IsIndexed key_at m
      → lookup j m.entity_cell ≡ located key_at (lookup j (insert id at m.entities))
  same_cell m id j at h e v = elim (Option-cases (lookup id m.entities)) [
    | inl n ↦ absurd (true≢false (sym h ∙ ap is_some n))
    | inr (x, n) ↦
        let c = v.key_of id ∙ ap (located key_at) n in
        let k =
          ap key_or_zero (sym c)
          ∙ (==_iff (key_or_zero (lookup id m.entity_cell)) (key_at at)).0 e in
        rw (lookup-insert id j at m.entities) (elim (Bool-cases (id == j)) [
          | inl s ↦
              rw s (ap (λ i. lookup i m.entity_cell) (sym ((==_iff id j).0 s)) ∙ c ∙ ap some k)
          | inr s ↦ rw s (v.key_of j)
        ])
  ]

  move-IsIndexed :
      (m : Manager X) (id : ℕ) (at : X)
      → IsIndexed key_at m
      → IsIndexed key_at (move_locked key_at m id at)
  unfolding move_locked
  move-IsIndexed m id at v = elim (Bool-cases (has id m.entities)) [
    | inr absent ↦ rw (absent, move_locked) v
    | inl there ↦ elim (Bool-cases (key_or_zero (lookup id m.entity_cell) == key_at at)) [
      | inl same ↦
          rw (there, same, move_locked)
            (record { key_of = λ j. same_cell m id j at there same v; placed = v.placed })
      | inr other ↦
          rw (there, other, move_locked)
            (record {
              key_of = λ j. located-insert id j at m.entities m.entity_cell (v.key_of j);
              placed = λ q j. placed-moved (key_at at) q id j m v;
            })
    ]
  ]

  leave-IsIndexed :
      (m : Manager X) (id : ℕ) → IsIndexed key_at m → IsIndexed key_at (leave key_at m id).0
  unfolding leave
  leave-IsIndexed m id v = elim (Bool-cases (has id m.entities)) [
    | inr absent ↦ rw (absent, leave) v
    | inl there ↦
        rw (there, leave)
          (record {
            key_of = λ j.
                rw (lookup-erase id j m.entity_cell, lookup-erase id j m.entities)
                  (elim (Bool-cases (id == j)) [ inl e ↦ rw e refl | inr e ↦ rw e (v.key_of j) ]);
            placed = λ q j. placed-left q id j m v;
          })
  ]

  step-IsIndexed :
      (m : Manager X) (e : WorldEvent key_at)
      → IsIndexed key_at m
      → IsIndexed key_at (step key_at m e)
  unfolding step enter
  step-IsIndexed m (enters id at) v = elim (Bool-cases (has id m.entities)) [
    | inl there ↦ subst (IsIndexed key_at) (sym (if_true _ _ there)) (move-IsIndexed m id at v)
    | inr absent ↦ enter_new m id at absent v
  ]
  step-IsIndexed m (moves id at) v = move-IsIndexed m id at v
  step-IsIndexed m (leaves id) v = leave-IsIndexed m id v

  pub new-IsIndexed : IsIndexed key_at (new_manager key_at)
  unfolding lookup
  new-IsIndexed = record { key_of = λ id. refl; placed = λ k id. refl }

  -- Whatever enters, moves and leaves, an entity is in the cell that its position lies in, in no
  -- other, and no cell holds anything else.
  pub run-IsIndexed :
      (m : Manager X) (es : List (WorldEvent key_at))
      → IsIndexed key_at m
      → IsIndexed key_at (run key_at m es)
  unfolding run
  run-IsIndexed m [] v = v
  run-IsIndexed m (e ∷ es) v = run-IsIndexed (step key_at m e) es (step-IsIndexed m e v)
