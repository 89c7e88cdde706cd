-- ===== src/Api.antt =====
-- The entry point `csv_to_rdl` of systemrdl_api.cpp, and `Result` of systemrdl_api.h. The handler
-- of `std::exception` in `csv_to_rdl` has no counterpart: nothing that it calls throws. The other
-- entry points are in Api/Calls, the functions on files and streams in Api/Wrappers.
pub mod CsvToRdl
pub mod Json
pub mod Simplified
pub mod Calls
pub mod Wrappers
use systemrdl_toolkit.Base.{Option, none, some, Bytes}
use systemrdl_toolkit.Csv.Content.{parse_content}
use systemrdl_toolkit.Csv.Validate.{validate_csv_structure, error_message}
use systemrdl_toolkit.Rdl.{generate}

pub data Result : Type 0 where
  success error : Bytes → Result

unfoldable pub csv_to_rdl : Bytes → Result
csv_to_rdl csv_content =
    let rows = parse_content csv_content in
    elim (validate_csv_structure rows) [
      | some e ↦ error (error_message e)
      | none ↦ success (generate rows)
    ]
