-- ===== src/Csv/Row/Columns.antt =====
-- Each field of a row comes from the last value that is mapped to its column.
use systemrdl_toolkit.Base.{
  ℕ, ◌<◌, ◌≡◌, refl, ap, ◌∙◌, false, List, [], ◌∷◌, Option, none, some, Bytes, arith, ◌==◌,
  if◌then◌else◌, ==_iff, Bool-cases, inl, inr,
}
use systemrdl_toolkit.Csv.Row.{
  CsvRow, empty_row, plain_field, name_field, text_field, set_column, row_step, parse_row_from,
  parse_row,
}

-- the columns of a row in the order of `standard_columns`
pub column : ℕ → CsvRow → Bytes
column k row =
    if k == 0
    then row.addrmap_offset
    else if k == 1
    then row.addrmap_name
    else if k == 2
    then row.reg_offset
    else if k == 3
    then row.reg_name
    else if k == 4
    then row.reg_width
    else if k == 5
    then row.field_name
    else if k == 6
    then row.field_lsb
    else if k == 7
    then row.field_msb
    else if k == 8
    then row.reset_value
    else if k == 9
    then row.sw_access
    else if k == 10
    then row.hw_access
    else if k == 11
    then row.onread
    else if k == 12
    then row.onwrite
    else if k == 13
    then row.description
    else []

-- how the value of a column is cleaned: names lose their newlines, the description keeps them
pub cleaned : ℕ → Bytes → Bytes
cleaned k value =
    if k == 13
    then text_field value
    else if k == 1
    then name_field value
    else if k == 3
    then name_field value
    else if k == 5
    then name_field value
    else plain_field value

column-set_column :
    (k : ℕ) (value : Bytes) (row : CsvRow)
    → k < 14
    → column k (set_column k value row) ≡ cleaned k value
unfolding column set_column cleaned
column-set_column k value row h = ground arith

column-set_column_ne :
    (j k : ℕ) (value : Bytes) (row : CsvRow)
    → (j == k) ≡ false
    → column j (set_column k value row) ≡ column j row
unfolding column set_column
column-set_column_ne j k value row h = ground arith

-- the value that the last of the columns mapped to `k` gives, `old` if there is none
pub last_mapped : ℕ → List Bytes → List (Option ℕ) → Bytes → Bytes
last_mapped k (value ∷ fields) (none ∷ mapping) old = last_mapped k fields mapping old
last_mapped k (value ∷ fields) (some j ∷ mapping) old =
    last_mapped k fields mapping (if k == j then cleaned k value else old)
last_mapped k _ _ old = old

column-set_column_if :
    (k j : ℕ) (value : Bytes) (row : CsvRow)
    → k < 14
    → column k (set_column j value row) ≡ (if k == j then cleaned k value else column k row)
column-set_column_if k j value row h = elim (Bool-cases (k == j)) [
  | inl same ↦ rw (same, ← (==_iff k j).0 same) (column-set_column k value row h)
  | inr other ↦ rw other (column-set_column_ne k j value row other)
]

column-parse_row_from :
    (k : ℕ) (fields : List Bytes) (mapping : List (Option ℕ)) (row : CsvRow)
    → k < 14
    → column k (parse_row_from fields mapping row) ≡ last_mapped k fields mapping (column k row)
unfolding parse_row_from row_step last_mapped
column-parse_row_from k (value ∷ fields) (none ∷ mapping) row h =
    column-parse_row_from k fields mapping row h
column-parse_row_from k (value ∷ fields) (some j ∷ mapping) row h =
    column-parse_row_from k fields mapping (set_column j value row) h
    ∙ ap (last_mapped k fields mapping) (column-set_column_if k j value row h)
column-parse_row_from k [] _ row h = refl
column-parse_row_from k (value ∷ fields) [] row h = refl

column_empty : (k : ℕ) → column k empty_row ≡ []
unfolding column
column_empty k = ground arith

-- Every column of a parsed row holds the cleaned value of the last field that the header maps
-- to it, and nothing if no field is mapped to it: fields beyond the header or without a column
-- have no effect.
pub column-parse_row :
    (k : ℕ) (fields : List Bytes) (mapping : List (Option ℕ))
    → k < 14
    → column k (parse_row fields mapping) ≡ last_mapped k fields mapping []
unfolding parse_row
column-parse_row k fields mapping h =
    column-parse_row_from k fields mapping empty_row h
    ∙ ap (last_mapped k fields mapping) (column_empty k)
