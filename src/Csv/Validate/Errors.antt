-- ===== src/Csv/Validate/Errors.antt =====
-- The line that an error of the first loop names.
use mathlib.Core.Option.{none-ne-some}
use mathlib.Core.Path.{subst₂}
use systemrdl_toolkit.Base.{
  ℕ, suc, ◌+◌, ◌≡◌, inl, inr, refl, sym, ap, ◌∙◌, false, List, [], ◌∷◌, ◌++◌, some, arith, length,
  ◌<◌, if◌then◌else◌,
}
use systemrdl_toolkit.Csv.Row.{CsvRow}
use systemrdl_toolkit.Csv.Validate.{
  one_if, validate_csv_structure, RowVerdict, ExpectedRowType, addrmap, reg, field, CsvError,
  no_information, mixed_information, reg_before_addrmap, field_before_addrmap, field_before_reg,
  go_on, stop, check_row, check_rows, is_addrmap_row, is_reg_row, is_field_row,
}
use systemrdl_toolkit.Csv.Validate.Grammar.{
  IsKind, reg_row, field_row, check_rows-cons, check_rows_stop, RowVerdict-cases, Structured, end,
  Structured-passed, check_row-Passed,
}

-- What is wrong with a row on line `line` where `e` is expected, for each error.
abbrev pub WrongAt : ℕ → CsvRow → ExpectedRowType → CsvError → Type 0
WrongAt line row e (no_information l) =
    (l ≡ line)
    × (is_addrmap_row row ≡ false)
    × (is_reg_row row ≡ false)
    × (is_field_row row ≡ false)
WrongAt line row e (mixed_information l a r f) =
    (l ≡ line)
    × (a ≡ is_addrmap_row row)
    × (r ≡ is_reg_row row)
    × (f ≡ is_field_row row)
    × (1 < one_if a + one_if r + one_if f)
WrongAt line row e (reg_before_addrmap l) = (l ≡ line) × (e ≡ addrmap) × IsKind reg_row row
WrongAt line row e (field_before_addrmap l) = (l ≡ line) × (e ≡ addrmap) × IsKind field_row row
WrongAt line row e (field_before_reg l) = (l ≡ line) × (e ≡ reg) × IsKind field_row row
WrongAt line row e _ = ⊥

abbrev Explained : ExpectedRowType → ℕ → CsvRow → RowVerdict → Type 0
Explained e line row (go_on next) = next ≡ (if is_addrmap_row row then reg else field)
Explained e line row (stop why) = WrongAt line row e why

check_row-Explained :
    (e : ExpectedRowType) (line : ℕ) (row : CsvRow) → Explained e line row (check_row e line row)
unfolding check_row
check_row-Explained addrmap line row = ground arith
check_row-Explained _ line row = ground arith

-- what is expected behind rows that pass
abbrev pub expected_after : ExpectedRowType → List CsvRow → ExpectedRowType
expected_after e [] = e
expected_after e (row ∷ rows) = expected_after (if is_addrmap_row row then reg else field) rows

-- The rows up to the one refused pass, and the error tells what is wrong with that one, on its line.
pub record RefusedAt (e : ExpectedRowType) (line : ℕ) (rows : List CsvRow) (why : CsvError)
    : Type 0 where
  pub before : List CsvRow
  pub row : CsvRow
  pub after : List CsvRow
  pub splits : rows ≡ before ++ row ∷ after
  pub passes : Structured e before
  pub wrong : WrongAt (line + length before) row (expected_after e before) why

RefusedAt-later :
    (e : ExpectedRowType) (line : ℕ) (row : CsvRow) (rows : List CsvRow) {why : CsvError}
    (next : ExpectedRowType)
    → check_row e line row ≡ go_on next
    → RefusedAt next (suc line) rows why
    → RefusedAt e line (row ∷ rows) why
RefusedAt-later e line row rows {why} next v r = record {
  before = row ∷ r.before;
  row = r.row;
  after = r.after;
  splits = ap (◌∷◌ row) r.splits;
  passes = Structured-passed e row r.before next (check_row-Passed e line row v) r.passes;
  wrong =
      subst₂ (λ n x. WrongAt n r.row (expected_after x r.before) why) (omega arith)
        (rw v at (check_row-Explained e line row)) r.wrong;
}

check_rows-RefusedAt :
    (e : ExpectedRowType) (line : ℕ) (rows : List CsvRow) {why : CsvError}
    → check_rows e line rows ≡ some why
    → RefusedAt e line rows why
check_rows-RefusedAt e line [] {why} h = absurd (none-ne-some why (unfold check_rows in h))
check_rows-RefusedAt e line (row ∷ rows) {why} h = elim (RowVerdict-cases (check_row e line row)) [
  | inl (next, v) ↦
      RefusedAt-later e line row rows next v (
        check_rows-RefusedAt next (suc line) rows
          (sym (check_rows-cons e line row rows next v) ∙ h))
  | inr (why', v) ↦
      let both : some why' ≡ some why = sym (check_rows_stop e line row rows why' v) ∙ h in
      let same : why' ≡ why = cc in
      let start : line ≡ line + 0 = omega arith in
      record {
        before = [];
        row = row;
        after = rows;
        splits = refl;
        passes = end;
        wrong =
            subst₂ (λ n w. WrongAt n row e w) start same (rw v at (check_row-Explained e line row));
      }
]

validate_check_rows :
    (rows : List CsvRow) {why : CsvError}
    → check_rows addrmap 2 rows ≡ some why
    → validate_csv_structure rows ≡ some why
unfolding validate_csv_structure check_rows
validate_check_rows [] {why} h = absurd (none-ne-some why h)
validate_check_rows (row ∷ rows) h = rw (h, validate_csv_structure)

-- If the rows break the grammar, validation returns an error for the first row that is out of
-- place: the rows before it follow the grammar, and the error says what is wrong with that row
-- and names its line, counting the header as line 1.
pub validate_csv_structure-RefusedAt :
    (rows : List CsvRow) {why : CsvError}
    → check_rows addrmap 2 rows ≡ some why
    → (validate_csv_structure rows ≡ some why) × RefusedAt addrmap 2 rows why
validate_csv_structure-RefusedAt rows h =
    (validate_check_rows rows h, check_rows-RefusedAt addrmap 2 rows h)
