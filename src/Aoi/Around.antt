-- ===== src/Aoi/Around.antt =====
-- What is around an entity.
use golang_gin_rpc.Base.{
  ℕ, ◌≡◌, refl, sym, ap, ap₂, ◌∙◌, Bool, true, false, not, ◌&&◌, ◌||◌, Option, none, some, List, [],
  ◌∷◌, ◌++◌, ◌==◌, ==_iff, nat_eq, lookup, has, is_some, contains, contains-append, arith,
  Bool-cases, Option-cases, inl, inr,
}
use golang_gin_rpc.Base.Int.{same_int, ℤ}
use golang_gin_rpc.Aoi.{
  CellKey, key_eq, Manager, Entity, cell, up, down, axis, is_excluded, collect, collect_column,
  collect_grid, around_cell_locked, around, around_point,
}
use golang_gin_rpc.Aoi.Cells.{is_at, located}
use golang_gin_rpc.Aoi.Index.{IsIndexed}

-- The ids of what a query returns.
abbrev pub ids : {X : Type 0} → List (Entity X) → List ℕ
ids [] = []
ids (e ∷ es) = e.id ∷ ids es

-- Two coordinates are at most one apart.
abbrev pub near_axis : ℤ → ℤ → Bool
near_axis a b = same_int b (down a) || same_int b a || same_int b (up a)

abbrev pub is_near : CellKey → CellKey → Bool
is_near k q = near_axis k.cx q.cx && near_axis k.cy q.cy

abbrev pub is_near_to : CellKey → Option CellKey → Bool
is_near_to k none = false
is_near_to k (some q) = is_near k q

ids-append : {X : Type 0} (xs ys : List (Entity X)) → ids (xs ++ ys) ≡ ids xs ++ ids ys
ids-append [] ys = refl
ids-append (x ∷ xs) ys = ap (λ l. x.id ∷ l) (ids-append xs ys)

absent_one : (b h x c : Bool) → (b ≡ true → h ≡ false) → (h && x && c) ≡ (h && x && (b || c))
absent_one true h x c f = rw (f refl) refl
absent_one false h x c f = refl

excluded_one :
    (b h x c : Bool) → (b ≡ true → x ≡ true) → (h && not x && c) ≡ (h && not x && (b || c))
excluded_one true h x c f = let e = f refl in ground (arith, e)
excluded_one false h x c f = refl

kept_one :
    (b h x c : Bool)
    → (b ≡ true → h ≡ true)
    → (b ≡ true → x ≡ false)
    → (b || (h && not x && c)) ≡ (h && not x && (b || c))
kept_one true h x c f g = rw (f refl, g refl) refl
kept_one false h x c f g = refl

module _ {X : Type 0} (m : Manager X) (exclude : Option ℕ) where
  abbrev in_column : ℤ → List ℤ → ℕ → Bool
  in_column cx [] j = false
  in_column cx (cy ∷ cys) j =
      contains (cell (record { cx = cx; cy = cy }) m.cells) j || in_column cx cys j

  abbrev in_grid : List ℤ → List ℤ → ℕ → Bool
  in_grid [] cys j = false
  in_grid (cx ∷ cxs) cys j = in_column cx cys j || in_grid cxs cys j

  contains-collect :
      (js : List ℕ) (j : ℕ)
      → contains (ids (collect m exclude js)) j
        ≡ (has j m.entities && not (is_excluded exclude j) && contains js j)
  unfolding collect
  contains-collect [] j = ground arith
  contains-collect (i ∷ js) j = elim (Option-cases (lookup i m.entities)) [
    | inl n ↦
        rw (n, collect)
          (contains-collect js j
            ∙ absent_one (i == j) _ _ _
                (λ e. ap (λ k. has k m.entities) (sym ((==_iff i j).0 e)) ∙ ap is_some n))
    | inr (x, n) ↦ elim (Bool-cases (is_excluded exclude i)) [
      | inl out ↦
          rw (n, out, collect)
            (contains-collect js j
              ∙ excluded_one (i == j) _ _ _
                  (λ e. ap (is_excluded exclude) (sym ((==_iff i j).0 e)) ∙ out))
      | inr kept ↦
          rw (n, kept, collect)
            (ap (λ c. (i == j) || c) (contains-collect js j)
              ∙ kept_one (i == j) _ _ _
                  (λ e. ap (λ k. has k m.entities) (sym ((==_iff i j).0 e)) ∙ ap is_some n)
                  (λ e. ap (is_excluded exclude) (sym ((==_iff i j).0 e)) ∙ kept))
    ]
  ]

  contains-column :
      (cx : ℤ) (cys : List ℤ) (j : ℕ)
      → contains (ids (collect_column m exclude cx cys)) j
        ≡ (has j m.entities && not (is_excluded exclude j) && in_column cx cys j)
  unfolding collect_column
  contains-column cx [] j = ground arith
  contains-column cx (cy ∷ cys) j =
      let here = collect m exclude (cell (record { cx = cx; cy = cy }) m.cells) in
      ap (λ l. contains l j) (ids-append here (collect_column m exclude cx cys))
      ∙ contains-append (ids here) (ids (collect_column m exclude cx cys)) j
      ∙ ground (
        arith,
        contains-collect (cell (record { cx = cx; cy = cy }) m.cells) j,
        contains-column cx cys j,
      )

  contains-grid :
      (cxs cys : List ℤ) (j : ℕ)
      → contains (ids (collect_grid m exclude cxs cys)) j
        ≡ (has j m.entities && not (is_excluded exclude j) && in_grid cxs cys j)
  unfolding collect_grid
  contains-grid [] cys j = ground arith
  contains-grid (cx ∷ cxs) cys j =
      let here = collect_column m exclude cx cys in
      ap (λ l. contains l j) (ids-append here (collect_grid m exclude cxs cys))
      ∙ contains-append (ids here) (ids (collect_grid m exclude cxs cys)) j
      ∙ ground (arith, contains-column cx cys j, contains-grid cxs cys j)

abbrev column_at : ℤ → List ℤ → Option CellKey → Bool
column_at cx [] o = false
column_at cx (cy ∷ cys) o = is_at (record { cx = cx; cy = cy }) o || column_at cx cys o

abbrev grid_at : List ℤ → List ℤ → Option CellKey → Bool
grid_at [] cys o = false
grid_at (cx ∷ cxs) cys o = column_at cx cys o || grid_at cxs cys o

nine :
    (a b c x y z : Bool)
    → ((a && x || (a && y || (a && z || false)))
        || ((b && x || (b && y || (b && z || false)))
            || ((c && x || (c && y || (c && z || false))) || false)))
      ≡ ((a || b || c) && (x || y || z))
nine a b c x y z = ground arith

grid-near : (k : CellKey) (o : Option CellKey) → grid_at (axis k.cx) (axis k.cy) o ≡ is_near_to k o
grid-near k none = refl
grid-near k (some q) =
    nine (same_int q.cx (down k.cx)) (same_int q.cx k.cx) (same_int q.cx (up k.cx))
      (same_int q.cy (down k.cy)) (same_int q.cy k.cy) (same_int q.cy (up k.cy))

module _ {X : Type 0} (key_at : X → CellKey) (m : Manager X) (v : IsIndexed key_at m) where
  column-placed :
      (exclude : Option ℕ) (cx : ℤ) (cys : List ℤ) (j : ℕ)
      → in_column m exclude cx cys j ≡ column_at cx cys (lookup j m.entity_cell)
  column-placed exclude cx [] j = refl
  column-placed exclude cx (cy ∷ cys) j =
      ap₂ (λ a b. a || b) (v.placed (record { cx = cx; cy = cy }) j)
        (column-placed exclude cx cys j)

  grid-placed :
      (exclude : Option ℕ) (cxs cys : List ℤ) (j : ℕ)
      → in_grid m exclude cxs cys j ≡ grid_at cxs cys (lookup j m.entity_cell)
  grid-placed exclude [] cys j = refl
  grid-placed exclude (cx ∷ cxs) cys j =
      ap₂ (λ a b. a || b) (column-placed exclude cx cys j) (grid-placed exclude cxs cys j)

  only_there :
      (j : ℕ) (x : Bool) (k : CellKey)
      → (has j m.entities && x && is_near_to k (lookup j m.entity_cell))
        ≡ (x && is_near_to k (located key_at (lookup j m.entities)))
  only_there j x k = rw (v.key_of j) (elim (Option-cases (lookup j m.entities)) [
    | inl n ↦ rw n (ground arith)
    | inr (at, n) ↦ rw n refl
  ])

  contains-around_cell :
      (k : CellKey) (exclude : Option ℕ) (j : ℕ)
      → contains (ids (around_cell_locked m k exclude)) j
        ≡ (not (is_excluded exclude j) && is_near_to k (located key_at (lookup j m.entities)))
  unfolding around_cell_locked
  contains-around_cell k exclude j =
      contains-grid m exclude (axis k.cx) (axis k.cy) j
      ∙ ap (λ b. has j m.entities && not (is_excluded exclude j) && b)
          (grid-placed exclude (axis k.cx) (axis k.cy) j ∙ grid-near k (lookup j m.entity_cell))
      ∙ only_there j (not (is_excluded exclude j)) k

  -- What is around an entity: exactly the other entities of the world whose cells are at most one
  -- away from its own in each coordinate.
  pub around-near :
      (id j : ℕ) (at : X)
      → lookup id m.entities ≡ some at
      → contains (ids (around m id)) j
        ≡ (not (j == id) && is_near_to (key_at at) (located key_at (lookup j m.entities)))
  unfolding around
  around-near id j at l =
      let k = v.key_of id ∙ ap (located key_at) l in
      rw (k, around) (contains-around_cell (key_at at) (some id) j)

  -- What is around a point: exactly the entities of the world whose cells are at most one away from
  -- that of the point in each coordinate.
  pub around_point-near :
      (at : X) (j : ℕ)
      → contains (ids (around_point key_at m at)) j
        ≡ is_near_to (key_at at) (located key_at (lookup j m.entities))
  unfolding around_point
  around_point-near at j = contains-around_cell (key_at at) none j
