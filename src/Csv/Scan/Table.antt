-- ===== src/Csv/Scan/Table.antt =====
-- A whole table read back by the two scanners.
use systemrdl_toolkit.Base.{
  ℕ, ◌≡◌, ◌≢◌, refl, ap₂, ◌∙◌, true, false, List, [], ◌∷◌, map, Bytes, arith, All,
}
use systemrdl_toolkit.Csv.Scan.{parse_csv_content, split_csv_line}
use systemrdl_toolkit.Csv.Scan.Fields.{print_row, doubled, split_csv_line-print_row}
use systemrdl_toolkit.Csv.Scan.Lines.{closes, unlines, IsLine, parse_csv_content-unlines}

closes-doubled : (s rest : Bytes) → closes true false (doubled s rest) ≡ closes true false rest
unfolding closes
closes-doubled [] rest = refl
closes-doubled (c ∷ s) rest = ground (arith, closes-doubled s rest)

closes-print_row :
    (d : ℕ) (s : Bytes) (ts : List Bytes)
    → d ≢ 34
    → d ≢ 39
    → d ≢ 10
    → closes false false (print_row d s ts []) ≡ true
unfolding closes
closes-print_row d s [] h k n = closes-doubled s (34 ∷ [])
closes-print_row d s (t ∷ ts) h k n =
    closes-doubled s _ ∙ ground (arith, closes-print_row d t ts h k n)

-- a table is a list of rows, a row a first field and the others
abbrev pub print_table : ℕ → List (Bytes × List Bytes) → List Bytes
print_table d [] = []
print_table d ((s, ts) ∷ rows) = print_row d s ts [] ∷ print_table d rows

pub print_table-IsLine :
    (d : ℕ) (rows : List (Bytes × List Bytes))
    → d ≢ 34
    → d ≢ 39
    → d ≢ 10
    → All IsLine (print_table d rows)
print_table-IsLine d [] h k n = tt
print_table-IsLine d ((s, []) ∷ rows) h k n =
    ((λ e. cc, closes-print_row d s [] h k n), print_table-IsLine d rows h k n)
print_table-IsLine d ((s, t ∷ ts) ∷ rows) h k n =
    ((λ e. cc, closes-print_row d s (t ∷ ts) h k n), print_table-IsLine d rows h k n)

abbrev pub fields_of : Bytes × List Bytes → List Bytes
fields_of (s, ts) = s ∷ ts

split_rows :
    (d : ℕ) (rows : List (Bytes × List Bytes))
    → d ≢ 34
    → d ≢ 39
    → map (λ l. split_csv_line l d) (print_table d rows) ≡ map fields_of rows
split_rows d [] h k = refl
split_rows d ((s, ts) ∷ rows) h k =
    ap₂ ◌∷◌ (split_csv_line-print_row d s ts h k) (split_rows d rows h k)

-- Cutting a file into lines and the lines into fields gives back the table that was written
-- with every field in double quotes, for any delimiter that is neither a quote nor a newline
-- and whatever delimiters, quotes and newlines the fields hold.
pub split-print_table :
    (d : ℕ) (rows : List (Bytes × List Bytes))
    → d ≢ 34
    → d ≢ 39
    → d ≢ 10
    → map (λ l. split_csv_line l d) (parse_csv_content (unlines (print_table d rows)))
      ≡ map fields_of rows
split-print_table d rows h k n =
    rw (parse_csv_content-unlines (print_table d rows) (print_table-IsLine d rows h k n))
      (split_rows d rows h k)
