-- ===== src/Aoi/Cells.antt =====
-- What putting an id into a cell and taking it out change.
use mathlib.Core.Bool.{true≢false}
use golang_gin_rpc.Base.{
  ℕ, ◌≡◌, refl, sym, ap, ◌∙◌, Bool, true, false, not, ◌&&◌, ◌||◌, Option, none, some, List, [], ◌∷◌,
  ◌==◌, ==_iff, nat_eq, Dict, lookup, insert, has, is_some, if◌then◌else◌, contains, lookup-insert,
  arith, Bool-cases, inl, inr,
}
use golang_gin_rpc.Aoi.{CellKey, key_eq, without, ids_or, cell, put, take, key_or_zero}

pub if_true : {A : Type 0} {b : Bool} (x y : A) → b ≡ true → (if b then x else y) ≡ x
if_true x y e = ap (λ b. if b then x else y) e

pub if_or :
    (b : Bool) (ids : List ℕ) (o : Option (List ℕ))
    → ids_or (if b then some ids else o) ≡ (if b then ids else ids_or o)
if_or true ids o = refl
if_or false ids o = refl

pub with_id :
    (ids : List ℕ) (id j : ℕ)
    → contains (if contains ids id then ids else id ∷ ids) j ≡ ((id == j) || contains ids j)
with_id ids id j = elim (Bool-cases (contains ids id)) [
  | inl e ↦ elim (Bool-cases (id == j)) [
    | inl s ↦ let x = ap (contains ids) ((==_iff id j).0 s) in rw (e, s) (sym x ∙ e)
    | inr s ↦ rw (e, s) refl
  ]
  | inr e ↦ rw e refl
]

pub none_in : (o : Option (List ℕ)) (j : ℕ) → is_some o ≡ false → contains (ids_or o) j ≡ false
none_in none j h = refl
none_in (some ids) j h = absurd (true≢false h)

pub contains-without :
    (id j : ℕ) (ids : List ℕ) → contains (without id ids) j ≡ (not (id == j) && contains ids j)
unfolding without
contains-without id j [] = ground arith
contains-without id j (i ∷ ids) = ground (arith, contains-without id j ids)

pub cell-insert :
    (k q : CellKey) (ids : List ℕ) (cells : Dict CellKey (List ℕ))
    → cell q (insert k ids cells) ≡ (if k == q then ids else cell q cells)
cell-insert k q ids cells =
    ap ids_or (lookup-insert k q ids cells) ∙ if_or (k == q) ids (lookup q cells)

pub contains-put :
    (k q : CellKey) (id j : ℕ) (cells : Dict CellKey (List ℕ))
    → contains (cell q (put k id cells)) j ≡ ((k == q && id == j) || contains (cell q cells) j)
unfolding put
contains-put k q id j cells =
    let ids = if contains (cell k cells) id then cell k cells else id ∷ cell k cells in
    ap (λ l. contains l j) (cell-insert k q ids cells) ∙ elim (Bool-cases (k == q)) [
      | inl e ↦ let s = (==_iff k q).0 e in rw (e, s) (with_id (cell q cells) id j)
      | inr e ↦ rw e refl
    ]

pub contains-take :
    (k q : CellKey) (id j : ℕ) (cells : Dict CellKey (List ℕ))
    → contains (cell q (take k id cells)) j ≡ (not (k == q && id == j) && contains (cell q cells) j)
unfolding take
contains-take k q id j cells = elim (Bool-cases (has k cells)) [
  | inl h ↦
      rw (h, take)
        (ap (λ l. contains l j) (cell-insert k q (without id (cell k cells)) cells)
          ∙ elim (Bool-cases (k == q)) [
            | inl e ↦ let s = (==_iff k q).0 e in rw (e, s) (contains-without id j (cell q cells))
            | inr e ↦ rw e refl
          ])
  | inr h ↦
      rw (h, take)
        (elim (Bool-cases (k == q)) [
          | inl e ↦
              let s = (==_iff k q).0 e in
              let x = none_in (lookup q cells) j (ap (λ x. has x cells) (sym s) ∙ h) in
              ground (arith, x, e)
          | inr e ↦ rw e refl
        ])
]

abbrev pub is_at : CellKey → Option CellKey → Bool
is_at k none = false
is_at k (some q) = q == k

abbrev pub located : {X : Type 0} → (X → CellKey) → Option X → Option CellKey
located key_at none = none
located key_at (some x) = some (key_at x)

pub and_true : (b : Bool) → ((b && true) || false) ≡ b
and_true b = ground arith

pub and_false : (b c : Bool) → ((b && false) || c) ≡ c
and_false b c = ground arith

pub not_there : (b c : Bool) → (not (b && false) && c) ≡ c
not_there b c = ground arith

pub not_here : (a b c : Bool) → ((a && false) || (not (b && false) && c)) ≡ c
not_here a b c = ground arith

pub nowhere :
    (q : CellKey) (o : Option CellKey) → (not (key_or_zero o == q && true) && is_at q o) ≡ false
nowhere q none = ground arith
nowhere q (some k) = ground arith

pub only_here :
    (b : Bool) (q : CellKey) (o : Option CellKey)
    → ((b && true) || (not (key_or_zero o == q && true) && is_at q o)) ≡ b
only_here b q o = rw (nowhere q o) (and_true b)
