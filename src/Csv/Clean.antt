-- ===== src/Csv/Clean.antt =====
-- The text helpers of `CSVParser` in systemrdl_api.cpp: trimming, newlines, quotes, letter case.
pub mod Trim
use systemrdl_toolkit.Base.{
  ℕ, ◌+◌, ◌-◌, ◌<◌, Bool, true, false, ◌&&◌, ◌||◌, List, [], ◌∷◌, ◌++◌, Option, none, some, Bytes,
  is_empty, length, substr, leb, ltb, ◌==◌, if◌then◌else◌, find_first_not_of, find_last_not_of, map,
}

-- membership in " \t\r\n"
abbrev pub is_blank : ℕ → Bool
is_blank c = c == b' ' || c == 9 || c == 13 || c == 10

-- One arm for the first `find` that fails; the second cannot fail then.
unfoldable pub trim : Bytes → Bytes
trim s = elim (find_first_not_of is_blank s) [
  | none ↦ []
  | some start ↦ elim (find_last_not_of is_blank s) [
    | none ↦ []
    | some last ↦ substr s start (last - start + 1)
  ]
]

-- `std::remove` of one byte, with `erase`
unfoldable pub remove : ℕ → Bytes → Bytes
remove b [] = []
remove b (c ∷ s) = let rest = remove b s in if c == b then rest else c ∷ rest

unfoldable pub remove_all_newlines : Bytes → Bytes
unfolding remove
remove_all_newlines s = remove 13 (remove 10 s)

-- the loop of `process_description`; the flag is `prev_was_newline`
unfoldable pub collapse : Bool → Bytes → Bytes → Bytes
collapse prev result [] = result
collapse prev result (c ∷ s) =
    let newline = c == 10 || c == 13 in
    collapse newline
      (if newline then (if prev then result else result ++ 10 ∷ []) else result ++ c ∷ []) s

unfoldable pub process_description : Bytes → Bytes
unfolding trim collapse
process_description s =
    if is_empty s
    then s
    else let trimmed = trim s in if is_empty trimmed then trimmed else collapse false [] trimmed

-- `front()` and `back()` of a text that is not empty
abbrev pub front : Bytes → ℕ
front [] = 0
front (c ∷ s) = c

abbrev pub back : Bytes → ℕ
back [] = 0
back (c ∷ []) = c
back (c ∷ d ∷ s) = back (d ∷ s)

unfoldable pub remove_outer_quotes : Bytes → Bytes
remove_outer_quotes s =
    if ltb (length s) 2
    then s
    else if front s == 34 && back s == 34
    then substr s 1 (length s - 2)
    else if front s == 39 && back s == 39
    then substr s 1 (length s - 2)
    else s

unfoldable pub process_field_with_quotes : Bytes → Bool → Bytes
unfolding trim remove_outer_quotes process_description
process_field_with_quotes s is_description =
    if is_empty s
    then s
    else let trimmed = trim s in
      if is_empty trimmed
      then trimmed
      else let unquoted = remove_outer_quotes trimmed in
        if is_description then process_description unquoted else unquoted

-- `::tolower` and `::toupper` in the "C" locale
unfoldable pub lower_char : ℕ → ℕ
lower_char c = if leb b'A' c && leb c b'Z' then c + 32 else c

unfoldable pub upper_char : ℕ → ℕ
upper_char c = if leb b'a' c && leb c b'z' then c - 32 else c

unfoldable pub to_lower : Bytes → Bytes
unfolding lower_char
to_lower = map lower_char

unfoldable pub to_upper : Bytes → Bytes
unfolding upper_char
to_upper = map upper_char
