-- ===== src/Programs.antt =====
-- The names of files in the command-line programs: `get_default_ast_filename` of parser_main.cpp and
-- elaborator_main.cpp, `get_file_extension` and the default output of render_main.cpp, and that of
-- csv2rdl_main.cpp.
pub mod Printer
use systemrdl_toolkit.Base.{
  ℕ, suc, ◌+◌, ◌-◌, ◌==◌, Bool, true, false, not, find_last_not_of, ◌&&◌, ◌||◌, [], ◌∷◌, ◌++◌,
  Bytes, codes, Option, none, some, is_empty, ltb, take, drop, substr, if◌then◌else◌,
}
use systemrdl_toolkit.Csv.Clean.{to_lower}
use systemrdl_toolkit.Elab.Model.{word}

-- the place of the last byte that passes; `none` is `npos`
unfoldable pub find_last_of : (ℕ → Bool) → Bytes → Option ℕ
unfolding find_last_not_of
find_last_of p = find_last_not_of λ c. not (p c)

abbrev pub is_slash : ℕ → Bool
is_slash c = c == b'/' || c == b'\\'

abbrev pub is_dot : ℕ → Bool
is_dot c = c == b'.'

-- a place as a `size_t`
abbrev pub or_npos : Option ℕ → ℕ
or_npos none = word - 1
or_npos (some i) = i

-- the bytes behind a place, or all of them
abbrev pub behind_place : Option ℕ → Bytes → Bytes
behind_place none s = s
behind_place (some i) s = drop (suc i) s

abbrev pub begin_of : Option ℕ → ℕ
begin_of none = 0
begin_of (some i) = suc i

unfoldable pub get_default_ast_filename : Bytes → Bytes → Bytes
unfolding find_last_of
get_default_ast_filename input_file suffix =
    let last_slash = find_last_of is_slash input_file in
    let basename = behind_place last_slash input_file in
    let trimmed : Bytes = elim (find_last_of is_dot input_file) [
      | none ↦ basename
      | some last_dot ↦
          if ltb (or_npos last_slash) last_dot
          then take (last_dot - begin_of last_slash) basename
          else basename
    ] in
    trimmed ++ (suffix ++ codes ".json")

unfoldable pub get_file_extension : Bytes → Bytes
unfolding find_last_of to_lower
get_file_extension filename = elim (find_last_of is_dot filename) [
  | none ↦ []
  | some dot_pos ↦ to_lower (drop (suc dot_pos) filename)
]

-- the text in front of the last dot
unfoldable pub without_extension : Bytes → Bytes
unfolding find_last_of
without_extension s = elim (find_last_of is_dot s) [ none ↦ s | some dot_pos ↦ take dot_pos s ]

-- csv2rdl: what is written to, where no output is named
unfoldable pub rdl_output : Bytes → Bytes → Bytes
unfolding without_extension
rdl_output input_file output_file =
    if is_empty output_file then without_extension input_file ++ codes ".rdl" else output_file

abbrev pub is_prefix : Bytes → Bytes → Bool
is_prefix [] s = true
is_prefix (c ∷ t) [] = false
is_prefix (c ∷ t) (d ∷ s) = c == d && is_prefix t s

-- `find`
unfoldable pub find_in : Bytes → Bytes → Option ℕ
find_in t [] = if is_empty t then some 0 else none
find_in t (c ∷ s) =
    let later = find_in t s in
    if is_prefix t (c ∷ s) then some 0 else elim later [ none ↦ none | some i ↦ some (suc i) ]

-- the purpose in the name of a template: behind `_j2_`, in front of the first `.j2`, with the
-- number of bytes a `size_t`
unfoldable pub template_purpose : Bytes → Option Bytes
unfolding find_in
template_purpose template_basename = elim (find_in (codes "_j2_") template_basename) [
  | none ↦ none
  | some j2_pos ↦ elim (find_in (codes ".j2") template_basename) [
    | none ↦ none
    | some end ↦ some (
        if ltb end (j2_pos + 4)
        then drop (j2_pos + 4) template_basename
        else substr template_basename (j2_pos + 4) (end - (j2_pos + 4)))
  ]
]

-- render: what is written to, where no output is named
unfoldable pub rendered_output : Bytes → Bytes → Bytes → Bytes
unfolding without_extension template_purpose
rendered_output input_file template_file output_file =
    let input_basename =
      without_extension (behind_place (find_last_of is_slash input_file) input_file) in
    if is_empty output_file
    then elim (template_purpose
        (behind_place (find_last_of is_slash template_file) template_file)) [
          | some purpose_and_ext ↦ input_basename ++ (codes "_" ++ purpose_and_ext)
          | none ↦ input_basename ++ codes "_rendered.txt"
        ]
    else output_file
