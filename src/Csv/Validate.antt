-- ===== src/Csv/Validate.antt =====
-- `validate_csv_structure` of `CSVParser` in systemrdl_api.cpp. The source returns a message, empty
-- if the rows pass; here an error is a value, none if they pass, and `error_message` gives its text.
pub mod Grammar
pub mod Access
pub mod Errors
use systemrdl_toolkit.Base.{
  ℕ, suc, ◌+◌, Bool, true, false, not, ◌&&◌, ◌||◌, List, [], ◌∷◌, ◌++◌, Option, none, some, Bytes,
  codes, is_empty, String, eq_bytes, to_string, if◌then◌else◌, ltb, ◌==◌,
}
use systemrdl_toolkit.Csv.Clean.{to_upper}
use systemrdl_toolkit.Csv.Row.{CsvRow}

pub data ExpectedRowType : Type 0 where
  addrmap reg field : ExpectedRowType

pub data CsvError : Type 0 where
  empty_file : CsvError
  no_information : ℕ → CsvError
  mixed_information : ℕ → Bool → Bool → Bool → CsvError
  reg_before_addrmap field_before_addrmap field_before_reg : ℕ → CsvError
  invalid_sw_access invalid_hw_access invalid_onread invalid_onwrite : Bytes → CsvError

abbrev pub is_addrmap_row : CsvRow → Bool
is_addrmap_row row = not (is_empty row.addrmap_offset) && not (is_empty row.addrmap_name)

abbrev pub is_reg_row : CsvRow → Bool
is_reg_row row = not (is_empty row.reg_offset) && not (is_empty row.reg_name)

abbrev pub is_field_row : CsvRow → Bool
is_field_row row = not (is_empty row.field_name)

abbrev pub one_if : Bool → ℕ
one_if b = if b then 1 else 0

-- what one row of the first loop makes of `expected`, or the error that it returns
pub data RowVerdict : Type 0 where
  go_on : ExpectedRowType → RowVerdict
  stop : CsvError → RowVerdict

unfoldable pub check_reg_row : ExpectedRowType → ℕ → RowVerdict
check_reg_row addrmap line = stop (reg_before_addrmap line)
check_reg_row reg line = go_on field
check_reg_row field line = go_on field

unfoldable pub check_field_row : ExpectedRowType → ℕ → RowVerdict
check_field_row addrmap line = stop (field_before_addrmap line)
check_field_row reg line = stop (field_before_reg line)
check_field_row field line = go_on field

unfoldable pub check_row : ExpectedRowType → ℕ → CsvRow → RowVerdict
unfolding check_reg_row check_field_row
check_row expected line row =
    let a = is_addrmap_row row in
    let r = is_reg_row row in
    let f = is_field_row row in
    let type_count = one_if a + one_if r + one_if f in
    if type_count == 0
    then stop (no_information line)
    else if ltb 1 type_count
    then stop (mixed_information line a r f)
    else if a
    then go_on reg
    else if r
    then check_reg_row expected line
    else if f
    then check_field_row expected line
    else go_on expected

unfoldable pub check_rows : ExpectedRowType → ℕ → List CsvRow → Option CsvError
check_rows expected line [] = none
check_rows expected line (row ∷ rows) = elim (check_row expected line row) [
  | go_on next ↦ check_rows next (suc line) rows
  | stop e ↦ some e
]

-- the chains of `!=` of the second loop
unfoldable pub is_one_of : Bytes → List Bytes → Bool
is_one_of s [] = false
is_one_of s (t ∷ ts) = eq_bytes s t || is_one_of s ts

abbrev pub access_values : List Bytes
access_values = codes "RW" ∷ codes "RO" ∷ codes "WO" ∷ codes "NA" ∷ []

abbrev pub onread_values : List Bytes
onread_values = codes "RCLR" ∷ codes "RSET" ∷ codes "RUSER" ∷ []

abbrev pub onwrite_values : List Bytes
onwrite_values =
    codes "WOCLR"
    ∷ codes "WOSET"
    ∷ codes "WOT"
    ∷ codes "WZS"
    ∷ codes "WZC"
    ∷ codes "WZT"
    ∷ codes "WCLR"
    ∷ codes "WSET"
    ∷ codes "WUSER"
    ∷ []

-- a value that is given must be one of `values`, in any case of letters
unfoldable pub allows : List Bytes → Bytes → Bool
allows values s = is_empty s || is_one_of (to_upper s) values

unfoldable pub check_properties : CsvRow → Option CsvError
check_properties row =
    if is_field_row row
    then (if not (allows access_values row.sw_access)
        then some (invalid_sw_access row.sw_access)
        else if not (allows access_values row.hw_access)
        then some (invalid_hw_access row.hw_access)
        else if not (allows onread_values row.onread)
        then some (invalid_onread row.onread)
        else if not (allows onwrite_values row.onwrite)
        then some (invalid_onwrite row.onwrite)
        else none)
    else none

unfoldable pub check_all_properties : List CsvRow → Option CsvError
check_all_properties [] = none
check_all_properties (row ∷ rows) = elim (check_properties row) [
  | none ↦ check_all_properties rows
  | some e ↦ some e
]

unfoldable pub validate_csv_structure : List CsvRow → Option CsvError
validate_csv_structure rows =
    if is_empty rows
    then some empty_file
    else elim (check_rows addrmap 2 rows) [ none ↦ check_all_properties rows | some e ↦ some e ]

abbrev at_line : ℕ → String → Bytes
at_line line text = codes "Error: Line " ++ (to_string line ++ codes text)

abbrev bad_value : String → Bytes → String → Bytes
bad_value name value hint =
    codes "Error: Invalid " ++ (codes name ++ (codes " value '" ++ (value ++ codes hint)))

unfoldable pub error_message : CsvError → Bytes
unfolding to_string
error_message empty_file = codes "Error: CSV file is empty"
error_message (no_information line) =
    at_line line " does not contain valid addrmap, register, or field information"
error_message (mixed_information line a r f) =
    at_line line " contains mixed information types: "
    ++ ((if a then codes "addrmap " else [])
        ++ ((if r then codes "register " else []) ++ (if f then codes "field " else [])))
error_message (reg_before_addrmap line) =
    at_line line " defines a register but no addrmap was defined first"
error_message (field_before_addrmap line) =
    at_line line " defines a field but no addrmap was defined first"
error_message (field_before_reg line) =
    at_line line " defines a field but no register was defined for this addrmap"
error_message (invalid_sw_access v) = bad_value "sw_access" v "' (use RW/RO/WO/NA)"
error_message (invalid_hw_access v) = bad_value "hw_access" v "' (use RW/RO/WO/NA)"
error_message (invalid_onread v) = bad_value "onread" v "' (use rclr/rset/ruser)"
error_message (invalid_onwrite v) =
    bad_value "onwrite" v "' (use woclr/woset/wot/wzs/wzc/wzt/wclr/wset/wuser)"
