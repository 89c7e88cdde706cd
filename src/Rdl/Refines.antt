-- ===== src/Rdl/Refines.antt =====
-- `generate` writes the tree that the rows are.
use systemrdl_toolkit.Base.{
  ◌≡◌, refl, sym, ap, ◌∙◌, true, false, List, [], ◌∷◌, ◌++◌, none, Bytes, codes, All, arith,
  is_empty, if◌then◌else◌, append_assoc, append-nil,
}
use systemrdl_toolkit.Csv.Row.{CsvRow}
use systemrdl_toolkit.Csv.Validate.{validate_csv_structure}
use systemrdl_toolkit.Csv.Validate.Grammar.{IsKind, addrmap_row, reg_row, field_row}
use systemrdl_toolkit.Csv.Validate.Access.{validate_csv_structure_iff}
use systemrdl_toolkit.Rdl.{
  Generator, generate_row, generate_rows, generate_end, generate, generator_start, closed_reg,
  open_addrmap, open_reg, write_field,
}
use systemrdl_toolkit.Rdl.Tree.{
  RegBlock, MapBlock, reg_rows, map_rows, IsRegBlock, IsMapBlock, render_fields, render_regs,
  render_rest, render, Structured-map_rows,
}

module _ (row : CsvRow) (g : Generator) where
  generate_row_addrmap :
      IsKind addrmap_row row
      → generate_row row g ≡ record g {
        rdl =
            (if is_empty g.current_addrmap then closed_reg g else closed_reg g ++ codes "};\n\n")
            ++ open_addrmap row;
        in_reg = false;
        current_addrmap = row.addrmap_name;
        current_addrmap_offset = row.addrmap_offset;
      }
  unfolding generate_row
  generate_row_addrmap k = rw k.0

  generate_row_reg :
      IsKind reg_row row
      → generate_row row g ≡ record g {
        rdl = closed_reg g ++ open_reg row;
        current_reg = row.reg_name;
        current_reg_offset = row.reg_offset;
        in_reg = true;
      }
  unfolding generate_row
  generate_row_reg k = rw (k.0, k.1)

  generate_row_field :
      IsKind field_row row
      → g.in_reg ≡ true
      → generate_row row g ≡ record g { rdl = g.rdl ++ write_field row }
  unfolding generate_row
  generate_row_field k inside = rw (k.0, k.1, k.2, inside)

-- all that is written from state `g` on
abbrev written : List CsvRow → Generator → Bytes
written rows g = generate_end (generate_rows rows g)

written_row :
    (row : CsvRow) (rows : List CsvRow) (g : Generator)
    → written (row ∷ rows) g ≡ written rows (generate_row row g)
unfolding generate_rows
written_row row rows g = refl

-- From any state with an open address map, these rows add `text` behind what is closed.
abbrev Adds : List CsvRow → Bytes → Type 0
Adds rows text =
    (g : Generator) → is_empty g.current_addrmap ≡ false → written rows g ≡ closed_reg g ++ text

written-fields :
    (fs rest : List CsvRow) (g : Generator)
    → All (IsKind field_row) fs
    → g.in_reg ≡ true
    → written (fs ++ rest) g ≡ written rest (record g { rdl = g.rdl ++ render_fields fs })
written-fields [] rest g k inside =
    ap (λ t. written rest (record g { rdl = t })) (sym (append-nil g.rdl))
written-fields (f ∷ fs) rest g k inside =
    written_row f (fs ++ rest) g
    ∙ ap (written (fs ++ rest)) (generate_row_field f g k.0 inside)
    ∙ written-fields fs rest (record g { rdl = g.rdl ++ write_field f }) k.1 inside
    ∙ ap (λ t. written rest (record g { rdl = t }))
        (append_assoc g.rdl (write_field f) (render_fields fs))

written-regs :
    (bs : List RegBlock) (rest : List CsvRow) (text : Bytes)
    → All IsRegBlock bs
    → Adds rest text
    → Adds (reg_rows bs rest) (render_regs bs ++ text)
written-regs [] rest text k adds g open_map = adds g open_map
written-regs (b ∷ bs) rest text ((kind, fields), k) adds g open_map =
    let opened = record g {
      rdl = closed_reg g ++ open_reg b.head;
      current_reg = b.head.reg_name;
      current_reg_offset = b.head.reg_offset;
      in_reg = true;
    } in
    written_row b.head (b.fields ++ reg_rows bs rest) g
    ∙ ap (written (b.fields ++ reg_rows bs rest)) (generate_row_reg b.head g kind)
    ∙ written-fields b.fields (reg_rows bs rest) opened fields refl
    ∙ written-regs bs rest text k adds
        (record opened { rdl = opened.rdl ++ render_fields b.fields }) open_map
    ∙ simp append_assoc

written_end : Adds [] (codes "};\n")
unfolding generate_end generate_rows
written_end g open_map = rw open_map

name_given : (row : CsvRow) → IsKind addrmap_row row → is_empty row.addrmap_name ≡ false
name_given row k = ground arith

written-maps : (ms : List MapBlock) → All IsMapBlock ms → Adds (map_rows ms) (render_rest ms)
written-maps [] k g open_map = written_end g open_map
written-maps (m ∷ ms) ((kind, regs), k) g open_map =
    written_row m.head (reg_rows m.regs (map_rows ms)) g
    ∙ ap (written (reg_rows m.regs (map_rows ms))) (generate_row_addrmap m.head g kind)
    ∙ written-regs m.regs (map_rows ms) (render_rest ms) regs (written-maps ms k) _
        (name_given m.head kind)
    ∙ rw open_map (simp append_assoc)

generate-render : (ms : List MapBlock) → All IsMapBlock ms → generate (map_rows ms) ≡ render ms
unfolding generate
generate-render [] k = unfold generate_end generate_rows in refl
generate-render (m ∷ ms) ((kind, regs), k) =
    written_row m.head (reg_rows m.regs (map_rows ms)) generator_start
    ∙ ap (written (reg_rows m.regs (map_rows ms)))
        (generate_row_addrmap m.head generator_start kind)
    ∙ written-regs m.regs (map_rows ms) (render_rest ms) regs (written-maps ms k) _
        (name_given m.head kind)

-- Rows that pass validation are the rows of a tree of address maps, registers and fields, and
-- what is generated from them is that tree: every address map and register is opened once,
-- holds its own registers or fields in order, and is closed behind them with its own name and
-- offset.
pub generate-refines_tree :
    (rows : List CsvRow)
    → validate_csv_structure rows ≡ none
    → (ms : List MapBlock) × (rows ≡ map_rows ms) × All IsMapBlock ms × (generate rows ≡ render ms)
generate-refines_tree rows h =
    let (ms, splits, kinds) =
      Structured-map_rows (((validate_csv_structure_iff rows).0 h).structured) in
    (ms, splits, kinds, ap generate splits ∙ generate-render ms kinds)
