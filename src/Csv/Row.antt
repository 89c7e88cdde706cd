-- ===== src/Csv/Row.antt =====
-- `CSVRow`, and `parse_row` of `CSVParser`, in systemrdl_api.cpp.
pub mod Columns
use systemrdl_toolkit.Base.{
  ℕ, Bool, true, false, List, [], ◌∷◌, Option, none, some, Bytes, ◌==◌, if◌then◌else◌,
}
use systemrdl_toolkit.Csv.Clean.{remove_all_newlines, process_field_with_quotes}

pub record CsvRow : Type 0 where
  pub addrmap_offset : Bytes
  pub addrmap_name : Bytes
  pub reg_offset : Bytes
  pub reg_name : Bytes
  pub reg_width : Bytes
  pub field_name : Bytes
  pub field_lsb : Bytes
  pub field_msb : Bytes
  pub reset_value : Bytes
  pub sw_access : Bytes
  pub hw_access : Bytes
  pub onread : Bytes
  pub onwrite : Bytes
  pub description : Bytes

abbrev pub empty_row : CsvRow
empty_row = record {
  addrmap_offset = [];
  addrmap_name = [];
  reg_offset = [];
  reg_name = [];
  reg_width = [];
  field_name = [];
  field_lsb = [];
  field_msb = [];
  reset_value = [];
  sw_access = [];
  hw_access = [];
  onread = [];
  onwrite = [];
  description = [];
}

abbrev pub plain_field : Bytes → Bytes
plain_field value = process_field_with_quotes value false

abbrev pub name_field : Bytes → Bytes
name_field value = remove_all_newlines (process_field_with_quotes value false)

abbrev pub text_field : Bytes → Bytes
text_field value = process_field_with_quotes value true

-- the `switch` on the column
unfoldable pub set_column : ℕ → Bytes → CsvRow → CsvRow
set_column k value row =
    if k == 0
    then record row { addrmap_offset = plain_field value }
    else if k == 1
    then record row { addrmap_name = name_field value }
    else if k == 2
    then record row { reg_offset = plain_field value }
    else if k == 3
    then record row { reg_name = name_field value }
    else if k == 4
    then record row { reg_width = plain_field value }
    else if k == 5
    then record row { field_name = name_field value }
    else if k == 6
    then record row { field_lsb = plain_field value }
    else if k == 7
    then record row { field_msb = plain_field value }
    else if k == 8
    then record row { reset_value = plain_field value }
    else if k == 9
    then record row { sw_access = plain_field value }
    else if k == 10
    then record row { hw_access = plain_field value }
    else if k == 11
    then record row { onread = plain_field value }
    else if k == 12
    then record row { onwrite = plain_field value }
    else if k == 13
    then record row { description = text_field value }
    else row

-- one round of the loop; an unmapped column is skipped
unfoldable pub row_step : Bytes → Option ℕ → CsvRow → CsvRow
row_step value none row = row
row_step value (some k) row = set_column k value row

unfoldable pub parse_row_from : List Bytes → List (Option ℕ) → CsvRow → CsvRow
unfolding row_step set_column
parse_row_from (value ∷ fields) (k ∷ mapping) row =
    parse_row_from fields mapping (row_step value k row)
parse_row_from _ _ row = row

unfoldable pub parse_row : List Bytes → List (Option ℕ) → CsvRow
unfolding parse_row_from
parse_row fields mapping = parse_row_from fields mapping empty_row
