-- ===== src/Csv/Scan.antt =====
-- The two scanners of `CSVParser` in systemrdl_api.cpp: `parse_csv_content` cuts the text into
-- lines, `split_csv_line` a line into fields. Each loop is a step on a record of its variables.
pub mod Fields
pub mod Lines
pub mod Table
use systemrdl_toolkit.Base.{
  ℕ, ◌+◌, Bool, true, false, not, ◌&&◌, ◌||◌, List, [], ◌∷◌, ◌++◌, Bytes, is_empty, ltb, ◌==◌,
  if◌then◌else◌,
}

-- the variables of the loop of `parse_csv_content`
pub record LineScan : Type 0 where
  pub lines : List Bytes
  pub current_line : Bytes
  pub in_double_quotes : Bool
  pub in_single_quotes : Bool

unfoldable pub line_step : ℕ → LineScan → LineScan
line_step c st =
    if c == 34 && not st.in_single_quotes
    then record st {
      in_double_quotes = not st.in_double_quotes;
      current_line = st.current_line ++ c ∷ [];
    }
    else if c == 39 && not st.in_double_quotes
    then record st {
      in_single_quotes = not st.in_single_quotes;
      current_line = st.current_line ++ c ∷ [];
    }
    else if c == 10 && (not st.in_double_quotes && not st.in_single_quotes)
    then (if not (is_empty st.current_line)
        then record st { lines = st.lines ++ st.current_line ∷ []; current_line = [] }
        else st)
    else record st { current_line = st.current_line ++ c ∷ [] }

unfoldable pub line_scan : Bytes → LineScan → LineScan
line_scan [] st = st
line_scan (c ∷ content) st = line_scan content (line_step c st)

-- the push of the last line
unfoldable pub line_finish : LineScan → List Bytes
line_finish st =
    if not (is_empty st.current_line) then st.lines ++ st.current_line ∷ [] else st.lines

abbrev pub line_start : List Bytes → LineScan
line_start done = record {
  lines = done;
  current_line = [];
  in_double_quotes = false;
  in_single_quotes = false;
}

unfoldable pub parse_csv_content : Bytes → List Bytes
unfolding line_scan line_step line_finish
parse_csv_content content = line_finish (line_scan content (line_start []))

-- `std::count`
unfoldable pub count : ℕ → Bytes → ℕ
count b [] = 0
count b (c ∷ s) = (if c == b then 1 else 0) + count b s

unfoldable pub detect_delimiter : Bytes → ℕ
unfolding count
detect_delimiter line = if ltb (count b',' line) (count b';' line) then b';' else b','

-- The variables of the loop of `split_csv_line`; `skip` is the `i++` that passes over a byte.
pub record FieldScan : Type 0 where
  pub fields : List Bytes
  pub current_field : Bytes
  pub in_double_quotes : Bool
  pub in_single_quotes : Bool
  pub skip : Bool

-- `i + 1 < line.length() && line[i + 1] == c`, on what follows `line[i]`
abbrev pub next_is : ℕ → Bytes → Bool
next_is c [] = false
next_is c (d ∷ s) = d == c

unfoldable pub field_step : ℕ → ℕ → Bytes → FieldScan → FieldScan
field_step delimiter c rest st =
    if st.skip
    then record st { skip = false }
    else if c == 34 && not st.in_single_quotes
    then (if st.in_double_quotes && next_is 34 rest
        then record st { current_field = st.current_field ++ 34 ∷ []; skip = true }
        else record st { in_double_quotes = not st.in_double_quotes })
    else if c == 39 && not st.in_double_quotes
    then (if st.in_single_quotes && next_is 39 rest
        then record st { current_field = st.current_field ++ 39 ∷ []; skip = true }
        else record st { in_single_quotes = not st.in_single_quotes })
    else if c == delimiter && (not st.in_double_quotes && not st.in_single_quotes)
    then record st { fields = st.fields ++ st.current_field ∷ []; current_field = [] }
    else record st { current_field = st.current_field ++ c ∷ [] }

unfoldable pub field_scan : ℕ → Bytes → FieldScan → FieldScan
field_scan delimiter [] st = st
field_scan delimiter (c ∷ line) st = field_scan delimiter line (field_step delimiter c line st)

abbrev pub field_start : List Bytes → FieldScan
field_start done = record {
  fields = done;
  current_field = [];
  in_double_quotes = false;
  in_single_quotes = false;
  skip = false;
}

unfoldable pub split_csv_line : Bytes → ℕ → List Bytes
unfolding field_scan field_step
split_csv_line line delimiter =
    let st = field_scan delimiter line (field_start []) in st.fields ++ st.current_field ∷ []
