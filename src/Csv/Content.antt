-- ===== src/Csv/Content.antt =====
-- `parse_content` of `CSVParser` in systemrdl_api.cpp: the header, then a row for each line.
pub mod Table
use systemrdl_toolkit.Base.{
  ℕ, Bool, true, false, List, [], ◌∷◌, ◌++◌, Option, Bytes, is_empty, if◌then◌else◌,
}
use systemrdl_toolkit.Csv.Scan.{parse_csv_content, detect_delimiter, split_csv_line}
use systemrdl_toolkit.Csv.Header.{create_column_mapping}
use systemrdl_toolkit.Csv.Row.{CsvRow, parse_row}

-- the variables of the loop
pub record ContentScan : Type 0 where
  pub rows : List CsvRow
  pub first_line : Bool
  pub column_mapping : List (Option ℕ)

unfoldable pub content_step : Bytes → ContentScan → ContentScan
content_step csv_line st =
    let delimiter = detect_delimiter csv_line in
    let fields = split_csv_line csv_line delimiter in
    if is_empty csv_line
    then st
    else if st.first_line
    then record st { column_mapping = create_column_mapping fields; first_line = false }
    else record st { rows = st.rows ++ parse_row fields st.column_mapping ∷ [] }

unfoldable pub content_scan : List Bytes → ContentScan → ContentScan
content_scan [] st = st
content_scan (csv_line ∷ csv_lines) st = content_scan csv_lines (content_step csv_line st)

unfoldable pub parse_content : Bytes → List CsvRow
unfolding content_scan content_step parse_csv_content detect_delimiter split_csv_line
    create_column_mapping parse_row
parse_content csv_content =
    (content_scan (parse_csv_content csv_content)
      (record { rows = []; first_line = true; column_mapping = [] })).rows
