-- ===== src/Csv/Header.antt =====
-- How `CSVParser` in systemrdl_api.cpp finds the column that a header stands for: by its exact
-- name, by a table of abbreviations, and by edit distance.
pub mod Edits
pub mod Distance
pub mod Nearest
pub mod Match
use systemrdl_toolkit.Base.{
  ℕ, zero, suc, ◌+◌, Bool, true, false, List, [], ◌∷◌, Option, none, some, Bytes, codes, eq_bytes,
  length, get_or, ltb, ◌==◌, if◌then◌else◌, min, map,
}
use systemrdl_toolkit.Csv.Clean.{to_lower}

abbrev pub standard_columns : List Bytes
standard_columns =
    codes "addrmap_offset"
    ∷ codes "addrmap_name"
    ∷ codes "reg_offset"
    ∷ codes "reg_name"
    ∷ codes "reg_width"
    ∷ codes "field_name"
    ∷ codes "field_lsb"
    ∷ codes "field_msb"
    ∷ codes "reset_value"
    ∷ codes "sw_access"
    ∷ codes "hw_access"
    ∷ codes "onread"
    ∷ codes "onwrite"
    ∷ codes "description"
    ∷ []

-- `std::min({a, b, c})`
abbrev pub min3 : ℕ → ℕ → ℕ → ℕ
min3 a b c = min (min a b) c

-- The inner loop at one row of the table: `left` is d[i][j - 1], `diag` is d[i - 1][j - 1], and
-- the list holds d[i - 1][j] and what is right of it.
unfoldable pub fill_row : ℕ → ℕ → ℕ → List ℕ → Bytes → List ℕ
fill_row c left diag (up ∷ ups) (e ∷ s2) =
    let here = min3 (up + 1) (left + 1) (diag + (if c == e then 0 else 1)) in
    here ∷ fill_row c here up ups s2
fill_row c left diag _ _ = []

-- The outer loop from row `i`, above which stands a row of which `corner` is the first entry.
unfoldable pub fill_table : ℕ → ℕ → List ℕ → Bytes → Bytes → List ℕ
fill_table i corner ups [] s2 = corner ∷ ups
fill_table i corner ups (c ∷ s1) s2 = fill_table (suc i) i (fill_row c i corner ups s2) s1 s2

-- d[0][j] from `j` on
unfoldable pub first_row : ℕ → Bytes → List ℕ
first_row j [] = []
first_row j (e ∷ s2) = j ∷ first_row (suc j) s2

unfoldable pub levenshtein_distance : Bytes → Bytes → ℕ
unfolding fill_row fill_table first_row
levenshtein_distance s1 s2 = get_or (fill_table 1 0 (first_row 1 s2) s1 s2) (length s2) 0

-- the search for an equal text; the index of the first
unfoldable pub find_index : Bytes → List Bytes → ℕ → Option ℕ
find_index s [] i = none
find_index s (t ∷ ts) i =
    let later = find_index s ts (suc i) in if eq_bytes s t then some i else later

abbrev pub abbrev_map : List (Bytes × Bytes)
abbrev_map =
    (codes "sw_acc", codes "sw_access")
    ∷ (codes "hw_acc", codes "hw_access")
    ∷ (codes "access", codes "sw_access")
    ∷ (codes "addr_offset", codes "addrmap_offset")
    ∷ (codes "addr_name", codes "addrmap_name")
    ∷ (codes "lsb", codes "field_lsb")
    ∷ (codes "msb", codes "field_msb")
    ∷ (codes "desc", codes "description")
    ∷ (codes "width", codes "reg_width")
    ∷ []

-- `std::map::find`
unfoldable pub find_text : Bytes → List (Bytes × Bytes) → Option Bytes
find_text k [] = none
find_text k ((j, v) ∷ m) = if eq_bytes k j then some v else find_text k m

-- the variables of the fuzzy search; `none` is the -1 of `best_match`
pub record Fuzzy : Type 0 where
  pub best_match : Option ℕ
  pub min_distance : ℕ

unfoldable pub fuzzy_search : Bytes → List Bytes → ℕ → Fuzzy → Fuzzy
fuzzy_search h [] i st = st
fuzzy_search h (t ∷ ts) i st =
    let distance = levenshtein_distance h t in
    fuzzy_search h ts (suc i) (
      if ltb distance st.min_distance
      then record { best_match = some i; min_distance = distance }
      else st)

abbrev pub fuzzy_start : Fuzzy
fuzzy_start = record { best_match = none; min_distance = 4 }

-- the first index among `standards` of the text that the abbreviation stands for
unfoldable pub find_abbreviation : Bytes → List Bytes → Option ℕ
unfolding find_index find_text eq_bytes
find_abbreviation h standards = elim (find_text h abbrev_map) [
  | none ↦ none
  | some full ↦ find_index full standards 0
]

unfoldable pub find_best_match : Bytes → List Bytes → Option ℕ
unfolding find_index find_abbreviation fuzzy_search levenshtein_distance eq_bytes
find_best_match header standards =
    let lower_header = to_lower header in
    elim (find_index lower_header standards 0) [
      | some i ↦ some i
      | none ↦ elim (find_abbreviation lower_header standards) [
        | some i ↦ some i
        | none ↦ (fuzzy_search lower_header standards 0 fuzzy_start).best_match
      ]
    ]

unfoldable pub create_column_mapping : List Bytes → List (Option ℕ)
unfolding find_best_match
create_column_mapping headers = map (λ h. find_best_match h standard_columns) headers
