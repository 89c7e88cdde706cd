-- ===== src/Csv/Validate/Grammar.antt =====
-- The first loop of `validate_csv_structure` decides a grammar of row kinds.
use mathlib.Core.Option.{none-ne-some}
use systemrdl_toolkit.Base.{
  ℕ, suc, ◌≡◌, ◌≢◌, ◌⊎◌, inl, inr, refl, sym, ◌∙◌, true, false, List, [], ◌∷◌, none, some, arith,
}
use systemrdl_toolkit.Csv.Row.{CsvRow}
use systemrdl_toolkit.Csv.Validate.{
  ExpectedRowType, addrmap, reg, field, is_addrmap_row, is_reg_row, is_field_row, check_row,
  check_rows, RowVerdict, go_on, stop, CsvError,
}

pub data RowKind : Type 0 where
  addrmap_row reg_row field_row : RowKind

-- The row is of this kind and of no other.
abbrev pub IsKind : RowKind → CsvRow → Type 0
IsKind addrmap_row row =
    (is_addrmap_row row ≡ true) × (is_reg_row row ≡ false) × (is_field_row row ≡ false)
IsKind reg_row row =
    (is_addrmap_row row ≡ false) × (is_reg_row row ≡ true) × (is_field_row row ≡ false)
IsKind field_row row =
    (is_addrmap_row row ≡ false) × (is_reg_row row ≡ false) × (is_field_row row ≡ true)

-- the rows that may stand where `expected` is expected
pub data Structured : ExpectedRowType → List CsvRow → Type 0 where
  end : {e : ExpectedRowType} → Structured e []
  addrmap_first :
      {e : ExpectedRowType} {row : CsvRow} {rows : List CsvRow}
      → IsKind addrmap_row row
      → Structured reg rows
      → Structured e (row ∷ rows)
  reg_first :
      {e : ExpectedRowType} {row : CsvRow} {rows : List CsvRow}
      → e ≢ addrmap
      → IsKind reg_row row
      → Structured field rows
      → Structured e (row ∷ rows)
  field_first :
      {e : ExpectedRowType} {row : CsvRow} {rows : List CsvRow}
      → e ≡ field
      → IsKind field_row row
      → Structured field rows
      → Structured e (row ∷ rows)

-- what a row that passes is, and what it makes of `expected`
abbrev pub Passed : ExpectedRowType → CsvRow → ExpectedRowType → Type 0
Passed e row next =
    ((next ≡ reg) × IsKind addrmap_row row)
    ⊎ (((next ≡ field) × (e ≢ addrmap) × IsKind reg_row row)
        ⊎ ((next ≡ field) × (e ≡ field) × IsKind field_row row))

pub check_row-Passed :
    (e : ExpectedRowType) (line : ℕ) (row : CsvRow) {next : ExpectedRowType}
    → check_row e line row ≡ go_on next
    → Passed e row next
unfolding check_row
check_row-Passed addrmap line row h = ground arith
check_row-Passed _ line row h = ground arith

module _ (line : ℕ) (row : CsvRow) where
  check_row_addrmap :
      (e : ExpectedRowType) → IsKind addrmap_row row → check_row e line row ≡ go_on reg
  unfolding check_row
  check_row_addrmap e k = ground arith

  check_row_reg :
      (e : ExpectedRowType) → e ≢ addrmap → IsKind reg_row row → check_row e line row ≡ go_on field
  unfolding check_row
  check_row_reg addrmap ne k = absurd (ne refl)
  check_row_reg _ ne k = ground arith

  check_row_field :
      (e : ExpectedRowType) → e ≡ field → IsKind field_row row → check_row e line row ≡ go_on field
  unfolding check_row
  check_row_field e same k = ground arith

pub check_rows-cons :
    (e : ExpectedRowType) (line : ℕ) (row : CsvRow) (rows : List CsvRow) (next : ExpectedRowType)
    → check_row e line row ≡ go_on next
    → check_rows e line (row ∷ rows) ≡ check_rows next (suc line) rows
unfolding check_rows
check_rows-cons e line row rows next h = rw (h, check_rows)

pub check_rows_stop :
    (e : ExpectedRowType) (line : ℕ) (row : CsvRow) (rows : List CsvRow) (why : CsvError)
    → check_row e line row ≡ stop why
    → check_rows e line (row ∷ rows) ≡ some why
unfolding check_rows
check_rows_stop e line row rows why h = rw (h, check_rows)

pub RowVerdict-cases :
    (v : RowVerdict)
    → ((next : ExpectedRowType) × (v ≡ go_on next)) ⊎ ((why : CsvError) × (v ≡ stop why))
RowVerdict-cases (go_on next) = inl (next, refl)
RowVerdict-cases (stop why) = inr (why, refl)

pub Structured-passed :
    (e : ExpectedRowType) (row : CsvRow) (rows : List CsvRow) (next : ExpectedRowType)
    → Passed e row next
    → Structured next rows
    → Structured e (row ∷ rows)
Structured-passed e row rows next (inl (n, k)) s = addrmap_first k (rw (sym n) s)
Structured-passed e row rows next (inr (inl (n, ne, k))) s = reg_first ne k (rw (sym n) s)
Structured-passed e row rows next (inr (inr (n, same, k))) s = field_first same k (rw (sym n) s)

pub check_rows-Structured :
    (e : ExpectedRowType) (line : ℕ) (rows : List CsvRow)
    → check_rows e line rows ≡ none
    → Structured e rows
check_rows-Structured e line [] h = end
check_rows-Structured e line (row ∷ rows) h = elim (RowVerdict-cases (check_row e line row)) [
  | inl (next, v) ↦ Structured-passed e row rows next (check_row-Passed e line row v) (
      check_rows-Structured next (suc line) rows (sym (check_rows-cons e line row rows next v) ∙ h))
  | inr (why, v) ↦ absurd (none-ne-some why (sym h ∙ check_rows_stop e line row rows why v))
]

pub Structured-check_rows :
    {e : ExpectedRowType} {rows : List CsvRow} (line : ℕ)
    → Structured e rows
    → check_rows e line rows ≡ none
Structured-check_rows line end = unfold check_rows in refl
Structured-check_rows line (addrmap_first {e} {row} {rows} k s) =
    check_rows-cons e line row rows reg (check_row_addrmap line row e k)
    ∙ Structured-check_rows (suc line) s
Structured-check_rows line (reg_first {e} {row} {rows} ne k s) =
    check_rows-cons e line row rows field (check_row_reg line row e ne k)
    ∙ Structured-check_rows (suc line) s
Structured-check_rows line (field_first {e} {row} {rows} same k s) =
    check_rows-cons e line row rows field (check_row_field line row e same k)
    ∙ Structured-check_rows (suc line) s
