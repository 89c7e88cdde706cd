-- ===== src/Tests/CsvInput.antt =====
-- Examples for the CSV reader of systemrdl_api.cpp.
use systemrdl_toolkit.Base.{
  ℕ, ◌≡◌, ◌≤◌, refl, List, [], ◌∷◌, map, none, some, Bytes, codes, arith, find_first_not_of,
  find_last_not_of,
}
use systemrdl_toolkit.Csv.Clean.{trim, process_description, remove_outer_quotes, to_lower}
use systemrdl_toolkit.Csv.Clean.Trim.{IsTrimmed, trim-IsTrimmed}
use systemrdl_toolkit.Csv.Scan.{parse_csv_content, line_step, detect_delimiter, split_csv_line}
use systemrdl_toolkit.Csv.Scan.Lines.{unlines}
use systemrdl_toolkit.Csv.Scan.Table.{print_table, fields_of, split-print_table}
use systemrdl_toolkit.Csv.Header.{
  levenshtein_distance, find_best_match, standard_columns, create_column_mapping,
}
use systemrdl_toolkit.Csv.Header.Edits.{Edits}
use systemrdl_toolkit.Csv.Header.Distance.{levenshtein_distance_least}
use systemrdl_toolkit.Csv.Header.Match.{Chosen, find_best_match-Chosen}
use systemrdl_toolkit.Csv.Row.{parse_row}
use systemrdl_toolkit.Csv.Row.Columns.{column, last_mapped, column-parse_row}
use systemrdl_toolkit.Csv.Content.{parse_content}
use systemrdl_toolkit.Csv.Content.Table.{parse_content-print_table}

trim_example : trim (codes " \ta b\n ") ≡ codes "a b"
unfolding trim find_first_not_of find_last_not_of
trim_example = refl

process_description_example : process_description (codes "\n a\n\nb\n") ≡ codes "a\nb"
unfolding process_description find_first_not_of find_last_not_of
process_description_example = refl

remove_outer_quotes_example : remove_outer_quotes (codes "'it'") ≡ codes "it"
unfolding remove_outer_quotes
remove_outer_quotes_example = refl

split_csv_line_example :
    split_csv_line (codes "a,\"b,\"\"c\",'d,e'") b',' ≡ codes "a" ∷ codes "b,\"c" ∷ codes "d,e" ∷ []
unfolding split_csv_line
split_csv_line_example = refl

-- quoted semicolons count too
detect_delimiter_example : detect_delimiter (codes "a,\"b;c;d\"") ≡ b';'
unfolding detect_delimiter
detect_delimiter_example = refl

find_best_match_examples :
    (find_best_match (codes "SW_ACC") standard_columns ≡ some 9)
    × (find_best_match (codes "Field_Name") standard_columns ≡ some 5)
    × (find_best_match (codes "resetvalue") standard_columns ≡ some 8)
    × (find_best_match (codes "something_else") standard_columns ≡ none)
unfolding find_best_match to_lower
find_best_match_examples = (refl, refl, refl, refl)

trim-IsTrimmed_example : IsTrimmed (codes " \ta b\n ") (trim (codes " \ta b\n "))
trim-IsTrimmed_example = trim-IsTrimmed (codes " \ta b\n ")

abbrev quoted_line : Bytes
quoted_line = codes "a,\"b\nc\""

cut_at_newlines :
    parse_csv_content (unlines (quoted_line ∷ codes "d" ∷ [])) ≡ quoted_line ∷ codes "d" ∷ []
unfolding parse_csv_content line_step
cut_at_newlines = refl

abbrev header : Bytes × List Bytes
header = (codes "reg_offset", codes "REG_NAME" ∷ codes "desc" ∷ [])

abbrev table : List (Bytes × List Bytes)
table = (codes "0x4", codes "CTRL" ∷ codes "say \"a,b\"\nand c" ∷ []) ∷ []

split-print_table_example :
    map
      (λ l. split_csv_line l b',')
      (parse_csv_content (unlines (print_table b',' (header ∷ table))))
    ≡ map fields_of (header ∷ table)
split-print_table_example =
    split-print_table b',' (header ∷ table) (omega arith) (omega arith) (omega arith)

parse_content-print_table_example :
    parse_content (unlines (print_table b',' (header ∷ table)))
    ≡ map (λ r. parse_row (fields_of r) (create_column_mapping (fields_of header))) table
unfolding detect_delimiter
parse_content-print_table_example =
    parse_content-print_table b',' header table (omega arith) (omega arith) (omega arith)
      (refl, (refl, tt))

levenshtein_distance_least_example :
    Edits (codes "lsb") (codes "msbs") (levenshtein_distance (codes "lsb") (codes "msbs"))
    × ((n : ℕ)
        → Edits (codes "lsb") (codes "msbs") n
        → levenshtein_distance (codes "lsb") (codes "msbs") ≤ n)
levenshtein_distance_least_example = levenshtein_distance_least (codes "lsb") (codes "msbs")

find_best_match-Chosen_example :
    Chosen
      (to_lower (codes "Field_Nme"))
      standard_columns
      (find_best_match (codes "Field_Nme") standard_columns)
find_best_match-Chosen_example = find_best_match-Chosen (codes "Field_Nme") standard_columns

column-parse_row_example :
    column 3 (parse_row (codes "0x4" ∷ codes " CTRL " ∷ []) (some 2 ∷ some 3 ∷ none ∷ []))
    ≡ last_mapped 3 (codes "0x4" ∷ codes " CTRL " ∷ []) (some 2 ∷ some 3 ∷ none ∷ []) []
column-parse_row_example =
    column-parse_row 3 (codes "0x4" ∷ codes " CTRL " ∷ []) (some 2 ∷ some 3 ∷ none ∷ [])
      (omega arith)
