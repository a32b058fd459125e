-- ===== src/Orm.antt =====
-- plugins/db/orm: the builders of SQL (dialect.go, where_builder.go, select_builder.go,
-- update_builder.go). A text of SQL is the list of its pieces: words, quoted names, numbers, the
-- mark `?` and the numbered placeholders of PostgreSQL. How a dialect writes a quoted name is left
-- out, and names and words hold no placeholder. Arguments are of any type.
pub mod Where
pub mod Slots
pub mod Fill
pub mod Binding
pub mod Kept
pub mod Clause
pub mod Bound
pub mod Query
pub mod Columns
pub mod Parts
pub mod Select
pub mod Update
pub mod Delete
pub mod Insert
pub mod Connect
mod Tests
use golang_gin_rpc.Base.{
  ℕ, zero, suc, ◌+◌, ◌≡◌, Bool, true, false, Option, none, some, List, [], ◌∷◌, ◌++◌, String,
  if◌then◌else◌, eqb, string_eq, ◌==◌,
}
use golang_gin_rpc.Base.Int.{ℤ, pos, negsuc}

pub data Dialect : Type 0 where
  mysql : Dialect
  postgresql : Dialect
  sqlite : Dialect
  clickhouse : Dialect
  default_dialect : Dialect

pub data Piece : Type 0 where
  word : String → Piece
  name : String → Piece
  number : ℤ → Piece
  mark : Piece
  numbered : ℕ → Piece

abbrev pub Text : Type 0
Text = List Piece

-- `NewDialect`.
unfoldable pub new_dialect : String → Dialect
new_dialect dialect_type =
    if dialect_type == "mysql"
    then mysql
    else if dialect_type == "postgresql"
    then postgresql
    else if dialect_type == "sqlite"
    then sqlite
    else if dialect_type == "clickhouse"
    then clickhouse
    else default_dialect

-- `Placeholder`.
unfoldable pub placeholder : Dialect → ℕ → Piece
placeholder mysql index = mark
placeholder postgresql index = numbered (index + 1)
placeholder sqlite index = mark
placeholder clickhouse index = mark
placeholder default_dialect index = mark

abbrev pub is_positive : ℤ → Bool
is_positive (pos zero) = false
is_positive (pos (suc n)) = true
is_positive (negsuc n) = false

-- `LimitOffset`, which is the same in every dialect.
unfoldable pub limit_offset : ℤ → ℤ → Text
limit_offset limit offset =
    if is_positive limit
    then if is_positive offset
      then word "LIMIT" ∷ number limit ∷ word "OFFSET" ∷ number offset ∷ []
      else word "LIMIT" ∷ number limit ∷ []
    else if is_positive offset
    then word "OFFSET" ∷ number offset ∷ []
    else []

-- `strings.Join`.
unfoldable pub join : Text → List Text → Text
join separator [] = []
join separator (t ∷ []) = t
join separator (t ∷ u ∷ texts) = t ++ (separator ++ join separator (u ∷ texts))

-- `strings.Count(text, "?")`.
unfoldable pub count_marks : Text → ℕ
count_marks [] = 0
count_marks (mark ∷ text) = suc (count_marks text)
count_marks (word w ∷ text) = count_marks text
count_marks (name n ∷ text) = count_marks text
count_marks (number n ∷ text) = count_marks text
count_marks (numbered n ∷ text) = count_marks text

-- `strings.Replace(text, "?", piece, 1)`.
unfoldable pub replace_first : Piece → Text → Text
replace_first piece [] = []
replace_first piece (mark ∷ text) = piece ∷ text
replace_first piece (word w ∷ text) = word w ∷ replace_first piece text
replace_first piece (name n ∷ text) = name n ∷ replace_first piece text
replace_first piece (number n ∷ text) = number n ∷ replace_first piece text
replace_first piece (numbered n ∷ text) = numbered n ∷ replace_first piece text

-- The loop over the marks of a condition, with the rounds left.
unfoldable pub replace_marks : ℕ → Dialect → ℕ → Text → Text
replace_marks zero dialect index text = text
replace_marks (suc n) dialect index text =
    replace_marks n dialect (index + 1) (replace_first (placeholder dialect index) text)

-- `replaceConditionPlaceholders`.
unfoldable pub replace_condition_placeholders : Text → Dialect → ℕ → Text
replace_condition_placeholders condition dialect start =
    replace_marks (count_marks condition) dialect start condition

abbrev pub shift_piece : ℕ → Piece → Piece
shift_piece offset (numbered n) = numbered (n + offset)
shift_piece offset mark = mark
shift_piece offset (word w) = word w
shift_piece offset (name n) = name n
shift_piece offset (number n) = number n

unfoldable pub shift_all : ℕ → Text → Text
shift_all offset [] = []
shift_all offset (p ∷ text) = shift_piece offset p ∷ shift_all offset text

-- `shiftPlaceholdersIfNeeded`.
unfoldable pub shift_placeholders_if_needed : Text → Dialect → ℕ → Text
shift_placeholders_if_needed query postgresql offset =
    if eqb offset 0 then query else shift_all offset query
shift_placeholders_if_needed query mysql offset = query
shift_placeholders_if_needed query sqlite offset = query
shift_placeholders_if_needed query clickhouse offset = query
shift_placeholders_if_needed query default_dialect offset = query
