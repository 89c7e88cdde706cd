-- ===== src/Csv/Content/Table.antt =====
-- A table that is written with every field in double quotes, read back as rows.
use systemrdl_toolkit.Base.{
  ℕ, ◌≡◌, ◌≢◌, ap, ◌∙◌, true, false, List, [], ◌∷◌, ◌++◌, Option, Bytes, All, map, append_assoc,
  append-nil,
}
use systemrdl_toolkit.Csv.Scan.{detect_delimiter, split_csv_line}
use systemrdl_toolkit.Csv.Scan.Fields.{print_row, split_csv_line-print_row}
use systemrdl_toolkit.Csv.Scan.Lines.{unlines, parse_csv_content-unlines}
use systemrdl_toolkit.Csv.Scan.Table.{print_table, print_table-IsLine, fields_of}
use systemrdl_toolkit.Csv.Header.{create_column_mapping}
use systemrdl_toolkit.Csv.Row.{CsvRow, parse_row}
use systemrdl_toolkit.Csv.Content.{ContentScan, content_step, content_scan, parse_content}

abbrev at_row : List CsvRow → List (Option ℕ) → ContentScan
at_row rows mapping = record { rows = rows; first_line = false; column_mapping = mapping }

-- the delimiter that the reader finds on a row is the one that the row was written with
abbrev pub IsDetected : ℕ → Bytes × List Bytes → Type 0
IsDetected d (s, ts) = detect_delimiter (print_row d s ts []) ≡ d

module _ (d : ℕ) (h : d ≢ 34) (k : d ≢ 39) where
  split_detected :
      (s : Bytes) (ts : List Bytes)
      → IsDetected d (s, ts)
      → split_csv_line (print_row d s ts []) (detect_delimiter (print_row d s ts [])) ≡ s ∷ ts
  split_detected s ts e =
      ap (split_csv_line (print_row d s ts [])) e ∙ split_csv_line-print_row d s ts h k

  content_step_row :
      (s : Bytes) (ts : List Bytes) (rows : List CsvRow) (mapping : List (Option ℕ))
      → IsDetected d (s, ts)
      → content_step (print_row d s ts []) (at_row rows mapping)
        ≡ at_row (rows ++ parse_row (s ∷ ts) mapping ∷ []) mapping
  unfolding content_step
  content_step_row s [] rows mapping e =
      ap (λ f. at_row (rows ++ parse_row f mapping ∷ []) mapping) (split_detected s [] e)
  content_step_row s (t ∷ ts) rows mapping e =
      ap (λ f. at_row (rows ++ parse_row f mapping ∷ []) mapping) (split_detected s (t ∷ ts) e)

  content_step_header :
      (s : Bytes) (ts : List Bytes)
      → IsDetected d (s, ts)
      → content_step
          (print_row d s ts [])
          (record { rows = []; first_line = true; column_mapping = [] })
        ≡ at_row [] (create_column_mapping (s ∷ ts))
  unfolding content_step
  content_step_header s [] e = ap (λ f. at_row [] (create_column_mapping f)) (split_detected s [] e)
  content_step_header s (t ∷ ts) e =
      ap (λ f. at_row [] (create_column_mapping f)) (split_detected s (t ∷ ts) e)

  content_scan_rows :
      (table : List (Bytes × List Bytes)) (rows : List CsvRow) (mapping : List (Option ℕ))
      → All (IsDetected d) table
      → content_scan (print_table d table) (at_row rows mapping)
        ≡ at_row (rows ++ map (λ r. parse_row (fields_of r) mapping) table) mapping
  unfolding content_scan
  content_scan_rows [] rows mapping e = rw append-nil
  content_scan_rows ((s, ts) ∷ table) rows mapping e =
      ap (content_scan (print_table d table)) (content_step_row s ts rows mapping e.0)
      ∙ content_scan_rows table (rows ++ parse_row (s ∷ ts) mapping ∷ []) mapping e.1
      ∙ rw append_assoc

  content_scan_table :
      (s : Bytes) (ts : List Bytes) (table : List (Bytes × List Bytes))
      → All (IsDetected d) ((s, ts) ∷ table)
      → (content_scan
          (print_table d ((s, ts) ∷ table))
          (record { rows = []; first_line = true; column_mapping = [] })).rows
        ≡ map (λ r. parse_row (fields_of r) (create_column_mapping (s ∷ ts))) table
  unfolding content_scan
  content_scan_table s ts table e =
      ap (λ st. (content_scan (print_table d table) st).rows) (content_step_header s ts e.0)
      ∙ ap (λ st. st.rows) (content_scan_rows table [] (create_column_mapping (s ∷ ts)) e.1)

-- A file with a header and rows, written with every field in double quotes and a delimiter that
-- the reader detects on each line, is read as one row for each line below the header: its
-- fields, whatever bytes they hold, under the columns that the header names.
pub parse_content-print_table :
    (d : ℕ) (header : Bytes × List Bytes) (table : List (Bytes × List Bytes))
    → d ≢ 34
    → d ≢ 39
    → d ≢ 10
    → All (IsDetected d) (header ∷ table)
    → parse_content (unlines (print_table d (header ∷ table)))
      ≡ map (λ r. parse_row (fields_of r) (create_column_mapping (fields_of header))) table
unfolding parse_content
parse_content-print_table d (s, ts) table h k n e =
    ap (λ ls. (content_scan ls (record { rows = []; first_line = true; column_mapping = [] })).rows)
      (parse_csv_content-unlines (print_table d ((s, ts) ∷ table))
        (print_table-IsLine d ((s, ts) ∷ table) h k n))
    ∙ content_scan_table d h k s ts table e
