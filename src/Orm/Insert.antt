-- ===== src/Orm/Insert.antt =====
-- plugins/db/orm/insert_builder.go: an INSERT of rows.
use golang_gin_rpc.Base.{
  ℕ, zero, suc, ◌+◌, ◌≡◌, ◌≢◌, refl, sym, ◌∙◌, ap, ap₂, List, [], ◌∷◌, ◌++◌, arith, String, length,
  length-append, subst, if◌then◌else◌, if_elim, eqb, eqb_iff, All,
}
use golang_gin_rpc.Orm.{Dialect, word, name, Text, placeholder, join}
use golang_gin_rpc.Orm.Where.{placeholders_from, enclosed}
use golang_gin_rpc.Orm.Query.{Built}
use golang_gin_rpc.Orm.Slots.{slots, expected, slots-append, expected-append, placeholder-slot}
use golang_gin_rpc.Orm.Binding.{IsBound}
use mathlib.Core.List.{append-nil}

-- `InsertBuilder`, as far as an insert of rows reads it.
pub record InsertBuilder {ℓ} (A : Type ℓ) : Type ℓ where
  pub table : String
  pub columns : List String
  pub values : List (List A)
  pub insert_prefix : String
  pub dialect : Dialect

-- The texts of the rows with their arguments, or the place and the length of a row that has not as
-- many values as there are columns.
pub data Rows {ℓ} (A : Type ℓ) : Type ℓ where
  rows_built : List Text → List A → Rows A
  uneven : ℕ → ℕ → Rows A

pub data Inserted {ℓ} (A : Type ℓ) : Type ℓ where
  inserted : Built A → Inserted A
  refused : ℕ → ℕ → Inserted A

abbrev names : List String → List Text
names [] = []
names (column ∷ columns) = (name column ∷ []) ∷ names columns

comma :
    (t : Text) (ts : List Text)
    → slots (join (word "," ∷ []) (t ∷ ts)) ≡ slots t ++ slots (join (word "," ∷ []) ts)
unfolding join slots
comma t [] = sym (append-nil (slots t))
comma t (u ∷ ts) = slots-append t (word "," ∷ join (word "," ∷ []) (u ∷ ts))

slots-placeholders :
    (d : Dialect) (k n : ℕ)
    → slots (join (word "," ∷ []) (placeholders_from d k n)) ≡ expected d k n
unfolding placeholders_from join slots expected
slots-placeholders d k zero = refl
slots-placeholders d k (suc n) =
    comma (placeholder d k ∷ []) (placeholders_from d (k + 1) n)
    ∙ ap₂ (λ l r. l ++ r) (placeholder-slot d k []) (slots-placeholders d (k + 1) n)

slots-enclosed : (t : Text) → slots (enclosed [] t) ≡ slots t
unfolding slots
slots-enclosed t = slots-append t (word ")" ∷ []) ∙ append-nil (slots t)

slots-names : (columns : List String) → slots (join (word "," ∷ []) (names columns)) ≡ []
unfolding join slots
slots-names [] = refl
slots-names (column ∷ columns) = comma (name column ∷ []) (names columns) ∙ slots-names columns

module _ {ℓ} {A : Type ℓ} where
  unfoldable pub new_insert_builder : String → Dialect → InsertBuilder A
  new_insert_builder table dialect = record {
    table = table;
    columns = [];
    values = [];
    insert_prefix = "INSERT INTO";
    dialect = dialect;
  }

  -- `Values` and `AddRow`.
  unfoldable pub set_rows : List String → List (List A) → InsertBuilder A → InsertBuilder A
  set_rows columns rows ib = record ib { columns = columns; values = rows }

  unfoldable pub add_row : List A → InsertBuilder A → InsertBuilder A
  add_row row ib = record ib { values = ib.values ++ row ∷ [] }

  -- `valueStrings[i]`, behind `k` arguments.
  abbrev pub row_text : Dialect → ℕ → List A → Text
  row_text d k row = enclosed [] (join (word "," ∷ []) (placeholders_from d k (length row)))

  abbrev pub then_row : Text → List A → Rows A → Rows A
  then_row t row (rows_built texts args) = rows_built (t ∷ texts) (row ++ args)
  then_row t row (uneven i n) = uneven i n

  -- The loop over the rows, from the row with an index on and behind `k` arguments.
  unfoldable pub row_each : Dialect → ℕ → ℕ → ℕ → List (List A) → Rows A
  row_each d width i k [] = rows_built [] []
  row_each d width i k (row ∷ rows) =
      let rest = row_each d width (i + 1) (k + length row) rows in
      if eqb (length row) width then then_row (row_text d k row) row rest else uneven i (length row)

  abbrev pub statement : InsertBuilder A → Rows A → Inserted A
  statement ib (uneven i n) = refused i n
  statement ib (rows_built texts args) = inserted (
    word ib.insert_prefix
        ∷ name ib.table
        ∷ (enclosed [] (join (word "," ∷ []) (names ib.columns))
            ++ (word "VALUES" ∷ join (word "," ∷ []) texts)),
    args,
  )

  -- `buildBulkInsert`.
  unfoldable pub build_bulk_insert : InsertBuilder A → Inserted A
  build_bulk_insert ib = statement ib (row_each ib.dialect (length ib.columns) 0 0 ib.values)

  -- The values of all rows, one row after the other.
  abbrev pub all_values : List (List A) → List A
  all_values [] = []
  all_values (row ∷ rows) = row ++ all_values rows

  abbrev pub IsEvenRow : ℕ → List A → Type 0
  IsEvenRow width row = length row ≡ width

  -- Row `i` of the rows is the first that is not as long as it should be, with `n` values.
  abbrev pub FirstUneven : ℕ → List (List A) → ℕ → ℕ → Type ℓ
  FirstUneven width rows i n =
      (before : List (List A)) × (row : List A) × (after : List (List A)) × (rows
        ≡ before ++ row ∷ after)
      × All (IsEvenRow width) before
      × (length before ≡ i)
      × (length row ≡ n)
      × (n ≢ width)

  -- What the loop over rows gives, from the row with an index on and behind `k` arguments.
  IsRows : Dialect → ℕ → ℕ → ℕ → List (List A) → Rows A → Type ℓ
  IsRows d width start k rows (rows_built texts args) =
      All (IsEvenRow width) rows
      × (args ≡ all_values rows)
      × (slots (join (word "," ∷ []) texts) ≡ expected d k (length args))
  IsRows d width start k rows (uneven i n) = (j : ℕ) × (start + j ≡ i) × FirstUneven width rows j n

  then_row-IsRows :
      (d : Dialect) (width start k : ℕ) (row : List A) (rows : List (List A)) (rest : Rows A)
      → length row ≡ width
      → IsRows d width (start + 1) (k + length row) rows rest
      → IsRows d width start k (row ∷ rows) (then_row (row_text d k row) row rest)
  unfolding IsRows
  then_row-IsRows d width start k row rows (rows_built texts args) e (even, same, bound) = (
    (e, even),
    ap (λ l. row ++ l) same,
    comma (row_text d k row) texts
        ∙ ap₂ (λ l r. l ++ r)
            (slots-enclosed (join (word "," ∷ []) (placeholders_from d k (length row)))
              ∙ slots-placeholders d k (length row))
            bound
        ∙ sym (expected-append d k (length row) (length args))
        ∙ ap (expected d k) (sym (length-append row args)),
  )
  then_row-IsRows d width start k row rows (uneven i n) e (j, at, first) =
      let (before, bad, after, same, even, l, r, u) = first in
      (
        suc j,
        omega (arith, at),
        (row ∷ before, bad, after, ap (λ l. row ∷ l) same, (e, even), omega (arith, l), r, u),
      )

  row_each-IsRows :
      (d : Dialect) (width start k : ℕ) (rows : List (List A))
      → IsRows d width start k rows (row_each d width start k rows)
  unfolding row_each IsRows join slots expected
  row_each-IsRows d width start k [] = (tt, refl, refl)
  row_each-IsRows d width start k (row ∷ rows) =
      let rest = row_each d width (start + 1) (k + length row) rows in
      if_elim (IsRows d width start k (row ∷ rows)) (eqb (length row) width)
        (λ e.
          then_row-IsRows d width start k row rows rest ((eqb_iff (length row) width).0 e)
            (row_each-IsRows d width (start + 1) (k + length row) rows))
        (λ e.
          (0, omega arith, ([], row, rows, refl, tt, refl, refl, λ same. ground (arith, e, same))))

  -- What an insert of rows answers.
  abbrev pub IsAnswer : InsertBuilder A → Inserted A → Type ℓ
  IsAnswer ib (inserted (text, args)) =
      All (IsEvenRow (length ib.columns)) ib.values
      × (args ≡ all_values ib.values)
      × IsBound ib.dialect 0 (text, args)
  IsAnswer ib (refused i n) = FirstUneven (length ib.columns) ib.values i n

  statement-IsAnswer :
      (ib : InsertBuilder A) (rows : Rows A)
      → IsRows ib.dialect (length ib.columns) 0 0 ib.values rows
      → IsAnswer ib (statement ib rows)
  unfolding IsRows slots
  statement-IsAnswer ib (uneven i n) (j, at, first) =
      let here : j ≡ i = omega (arith, at) in
      subst (λ i. FirstUneven (length ib.columns) ib.values i n) here first
  statement-IsAnswer ib (rows_built texts args) (even, same, bound) = (
    even,
    same,
    slots-append (enclosed [] (join (word "," ∷ []) (names ib.columns)))
          (word "VALUES" ∷ join (word "," ∷ []) texts)
        ∙ ap (λ l. l ++ slots (join (word "," ∷ []) texts))
            (slots-enclosed (join (word "," ∷ []) (names ib.columns)) ∙ slots-names ib.columns)
        ∙ bound,
  )

  -- An insert of rows is refused exactly for the first row that has not as many values as there are
  -- columns, with its index and its length. Where every row has, the arguments are the values of the
  -- rows, one row after the other, and each is bound to its own placeholder, in every dialect.
  pub build_bulk_insert-IsAnswer : (ib : InsertBuilder A) → IsAnswer ib (build_bulk_insert ib)
  unfolding build_bulk_insert
  build_bulk_insert-IsAnswer ib =
      statement-IsAnswer ib (row_each ib.dialect (length ib.columns) 0 0 ib.values)
        (row_each-IsRows ib.dialect (length ib.columns) 0 0 ib.values)
