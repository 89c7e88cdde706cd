-- ===== src/Api/CsvToRdl.antt =====
-- The conversion from end to end.
use mathlib.Core.Option.{none-ne-some}
use systemrdl_toolkit.Base.{
  ◌≡◌, inl, inr, refl, sym, ◌∙◌, List, none, some, Bytes, All, Option-cases,
}
use systemrdl_toolkit.Csv.Row.{CsvRow}
use systemrdl_toolkit.Csv.Content.{parse_content}
use systemrdl_toolkit.Csv.Validate.{validate_csv_structure, error_message, CsvError}
use systemrdl_toolkit.Csv.Validate.Access.{IsValidTable, validate_csv_structure_iff}
use systemrdl_toolkit.Rdl.{generate}
use systemrdl_toolkit.Rdl.Tree.{MapBlock, map_rows, IsMapBlock, render}
use systemrdl_toolkit.Rdl.Refines.{generate-refines_tree}
use systemrdl_toolkit.Api.{Result, success, error, csv_to_rdl}

-- the text is the rendering of a tree whose rows are these
abbrev pub IsRendering : List CsvRow → Bytes → Type 0
IsRendering rows rdl =
    (ms : List MapBlock) × (rows ≡ map_rows ms) × All IsMapBlock ms × (rdl ≡ render ms)

-- what each result tells of the rows that were read
abbrev pub Tells : List CsvRow → Result → Type 0
Tells rows (success rdl) = IsValidTable rows × IsRendering rows rdl
Tells rows (error text) =
    (¬ IsValidTable rows)
    × ((why : CsvError) × (validate_csv_structure rows ≡ some why) × (text ≡ error_message why))

csv_to_rdl-none :
    (content : Bytes)
    → validate_csv_structure (parse_content content) ≡ none
    → csv_to_rdl content ≡ success (generate (parse_content content))
unfolding csv_to_rdl
csv_to_rdl-none content h = rw (h, csv_to_rdl)

csv_to_rdl-some :
    (content : Bytes) (why : CsvError)
    → validate_csv_structure (parse_content content) ≡ some why
    → csv_to_rdl content ≡ error (error_message why)
unfolding csv_to_rdl
csv_to_rdl-some content why h = rw (h, csv_to_rdl)

-- The conversion succeeds exactly if the rows that are read form a valid table, and then gives
-- the rendering of the tree that they are; otherwise it gives the message of the error found.
pub csv_to_rdl-Tells : (content : Bytes) → Tells (parse_content content) (csv_to_rdl content)
csv_to_rdl-Tells content = elim (Option-cases (validate_csv_structure (parse_content content))) [
  | inl h ↦
      let (ms, splits, kinds, text) = generate-refines_tree (parse_content content) h in
      rw (csv_to_rdl-none content h)
        ((validate_csv_structure_iff (parse_content content)).0 h, (ms, splits, kinds, text))
  | inr (why, h) ↦ rw (csv_to_rdl-some content why h) (
    λ v. none-ne-some why (sym ((validate_csv_structure_iff (parse_content content)).1 v) ∙ h),
    (why, h, refl),
  )
]
