-- ===== src/Csv/Validate/Access.antt =====
-- The whole of `validate_csv_structure`: which lists of rows pass.
use systemrdl_toolkit.Base.{◌≡◌, ◌≢◌, ◌↔◌, refl, ◌∙◌, true, List, [], ◌∷◌, none, arith, All}
use systemrdl_toolkit.Csv.Row.{CsvRow}
use systemrdl_toolkit.Csv.Validate.{
  addrmap, is_field_row, check_rows, check_properties, check_all_properties, allows, access_values,
  onread_values, onwrite_values, validate_csv_structure,
}
use systemrdl_toolkit.Csv.Validate.Grammar.{
  Structured, check_rows-Structured, Structured-check_rows,
}

-- The properties of a field are among the values that the format knows, or are not given.
pub record HasValidProperties (row : CsvRow) : Type 0 where
  pub sw : is_field_row row ≡ true → allows access_values row.sw_access ≡ true
  pub hw : is_field_row row ≡ true → allows access_values row.hw_access ≡ true
  pub onread : is_field_row row ≡ true → allows onread_values row.onread ≡ true
  pub onwrite : is_field_row row ≡ true → allows onwrite_values row.onwrite ≡ true

check_properties-valid : (row : CsvRow) → check_properties row ≡ none → HasValidProperties row
unfolding check_properties
check_properties-valid row h = ground arith

valid-check_properties : (row : CsvRow) → HasValidProperties row → check_properties row ≡ none
unfolding check_properties
valid-check_properties row h = ground arith

check_all-cons :
    (row : CsvRow) (rows : List CsvRow)
    → check_all_properties (row ∷ rows) ≡ none
    → (check_properties row ≡ none) × (check_all_properties rows ≡ none)
unfolding check_all_properties
check_all-cons row rows h = ground arith

cons-check_all :
    (row : CsvRow) (rows : List CsvRow)
    → check_properties row ≡ none
    → check_all_properties (row ∷ rows) ≡ check_all_properties rows
unfolding check_all_properties
cons-check_all row rows h = rw (h, check_all_properties)

check_rest-none :
    (rows : List CsvRow) → check_all_properties rows ≡ none → All HasValidProperties rows
check_rest-none [] h = tt
check_rest-none (row ∷ rows) h =
    let (here, later) = check_all-cons row rows h in
    (check_properties-valid row here, check_rest-none rows later)

none-check_rest :
    (rows : List CsvRow) → All HasValidProperties rows → check_all_properties rows ≡ none
none-check_rest [] h = unfold check_all_properties in refl
none-check_rest (row ∷ rows) h =
    cons-check_all row rows (valid-check_properties row h.0) ∙ none-check_rest rows h.1

validate_parts :
    (row : CsvRow) (rows : List CsvRow)
    → validate_csv_structure (row ∷ rows) ≡ none
    → (check_rows addrmap 2 (row ∷ rows) ≡ none) × (check_all_properties (row ∷ rows) ≡ none)
unfolding validate_csv_structure
validate_parts row rows h = ground arith

parts_validate :
    (row : CsvRow) (rows : List CsvRow)
    → check_rows addrmap 2 (row ∷ rows) ≡ none
    → check_all_properties (row ∷ rows) ≡ none
    → validate_csv_structure (row ∷ rows) ≡ none
unfolding validate_csv_structure
parts_validate row rows h k = ground arith

-- Rows that the generator may be given: some, in an order that the grammar allows, with
-- properties that it knows.
pub record IsValidTable (rows : List CsvRow) : Type 0 where
  pub some_rows : rows ≢ []
  pub structured : Structured addrmap rows
  pub properties : All HasValidProperties rows

-- Validation passes exactly the lists of rows that are not empty, follow the grammar of address
-- maps, registers and fields, and give their fields no unknown property value.
pub validate_csv_structure_iff :
    (rows : List CsvRow) → (validate_csv_structure rows ≡ none) ↔ IsValidTable rows
validate_csv_structure_iff [] =
    (λ h. absurd (unfold validate_csv_structure in cc h), λ v. absurd (v.some_rows refl))
validate_csv_structure_iff (row ∷ rows) = (
  λ h.
      let (order, values) = validate_parts row rows h in
      record {
        some_rows = λ e. cc;
        structured = check_rows-Structured addrmap 2 (row ∷ rows) order;
        properties = check_rest-none (row ∷ rows) values;
      },
  λ v.
      parts_validate row rows (Structured-check_rows 2 v.structured)
        (none-check_rest (row ∷ rows) v.properties),
)
