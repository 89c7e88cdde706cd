-- ===== src/Tests/CsvOutput.antt =====
-- Examples for validation, generation and the whole conversion.
use systemrdl_toolkit.Base.{
  ◌≡◌, ◌↔◌, refl, true, false, if◌then◌else◌, List, [], ◌∷◌, ◌++◌, none, some, Bytes, codes, All,
  eq_bytes,
}
use systemrdl_toolkit.Csv.Clean.{to_upper}
use systemrdl_toolkit.Csv.Row.{CsvRow, empty_row}
use systemrdl_toolkit.Csv.Validate.{
  validate_csv_structure, check_rows, check_row, check_all_properties, check_properties, allows,
  is_one_of, addrmap, field_before_reg, error_message,
}
use systemrdl_toolkit.Csv.Validate.Access.{IsValidTable, validate_csv_structure_iff}
use systemrdl_toolkit.Csv.Validate.Errors.{RefusedAt, validate_csv_structure-RefusedAt}
use systemrdl_toolkit.Csv.Content.{parse_content}
use systemrdl_toolkit.Rdl.{generate, escape_string}
use systemrdl_toolkit.Elab.Expr.{without_quotes}
use systemrdl_toolkit.Rdl.Strings.{string_token, all_plain, all_verbatim, escape_string-token}
use systemrdl_toolkit.Rdl.Tree.{MapBlock, map_rows, IsMapBlock, render}
use systemrdl_toolkit.Rdl.Refines.{generate-refines_tree}
use systemrdl_toolkit.Api.{csv_to_rdl}
use systemrdl_toolkit.Api.CsvToRdl.{Tells, csv_to_rdl-Tells}

abbrev chip : CsvRow
chip = record empty_row { addrmap_offset = codes "0"; addrmap_name = codes "chip" }

abbrev ctrl : CsvRow
ctrl = record empty_row { reg_offset = codes "10"; reg_name = codes "CTRL" }

abbrev enable : CsvRow
enable = record empty_row {
  field_name = codes "EN";
  field_lsb = codes "0";
  field_msb = codes "0";
  sw_access = codes "rw";
}

abbrev rows : List CsvRow
rows = chip ∷ ctrl ∷ enable ∷ []

rows_pass : validate_csv_structure rows ≡ none
unfolding validate_csv_structure check_rows check_row check_all_properties check_properties allows
    is_one_of eq_bytes to_upper
rows_pass = refl

generate_example :
    generate rows
    ≡ codes
        "addrmap chip {\n    name = \"chip\";\n\n    reg {\n        name = \"CTRL\";\n\n        field {\n            name = \"EN\";\n            sw = rw;\n        } EN[0:0];\n\n    } CTRL @ 0x10;\n\n};\n"
unfolding generate
generate_example = refl

validate_csv_structure_iff_example : (validate_csv_structure rows ≡ none) ↔ IsValidTable rows
validate_csv_structure_iff_example = validate_csv_structure_iff rows

early_field : check_rows addrmap 2 (chip ∷ enable ∷ []) ≡ some (field_before_reg 3)
unfolding check_rows check_row
early_field = refl

early_field_message :
    error_message (field_before_reg 13)
    ≡ codes "Error: Line 13 defines a field but no register was defined for this addrmap"
unfolding error_message
early_field_message = refl

validate_csv_structure-RefusedAt_example :
    (validate_csv_structure (chip ∷ enable ∷ []) ≡ some (field_before_reg 3))
    × RefusedAt addrmap 2 (chip ∷ enable ∷ []) (field_before_reg 3)
validate_csv_structure-RefusedAt_example =
    validate_csv_structure-RefusedAt (chip ∷ enable ∷ []) early_field

generate-refines_tree_example :
    (ms : List MapBlock) × (rows ≡ map_rows ms) × All IsMapBlock ms × (generate rows ≡ render ms)
generate-refines_tree_example = generate-refines_tree rows rows_pass

tab_escapes : escape_string (codes "a\t\"") ≡ codes "a\\t\\\""
unfolding escape_string
tab_escapes = refl

escape_string-token_example :
    (string_token false (escape_string (codes "a\t") ++ 34 ∷ codes ";")
      ≡ (if all_plain (codes "a\t") then some (codes ";") else none))
    × (without_quotes (34 ∷ (escape_string (codes "a\t") ++ 34 ∷ [])) ≡ escape_string (codes "a\t"))
    × (all_verbatim (codes "a\t") ≡ true
        → without_quotes (34 ∷ (escape_string (codes "a\t") ++ 34 ∷ [])) ≡ codes "a\t")
escape_string-token_example = escape_string-token (codes "a\t") (codes ";")

abbrev file : Bytes
file =
    codes
      "addrmap_offset,addrmap_name,reg_offset,reg_name,field_name,field_lsb,field_msb\n0,chip\n,,10,CTRL\n,,,,EN,0,0\n"

csv_to_rdl-Tells_example : Tells (parse_content file) (csv_to_rdl file)
csv_to_rdl-Tells_example = csv_to_rdl-Tells file
