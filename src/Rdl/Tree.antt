-- ===== src/Rdl/Tree.antt =====
-- The tree of address maps, registers and fields that validated rows are, and how it is written.
use systemrdl_toolkit.Base.{◌≡◌, ◌≢◌, refl, ap, ◌∙◌, List, [], ◌∷◌, ◌++◌, Bytes, codes, All}
use systemrdl_toolkit.Csv.Row.{CsvRow}
use systemrdl_toolkit.Csv.Validate.{ExpectedRowType, addrmap, reg, field}
use systemrdl_toolkit.Csv.Validate.Grammar.{
  Structured, end, addrmap_first, reg_first, field_first, IsKind, addrmap_row, reg_row, field_row,
}
use systemrdl_toolkit.Rdl.{open_addrmap, open_reg, close_reg, write_field}

pub record RegBlock : Type 0 where
  pub head : CsvRow
  pub fields : List CsvRow

pub record MapBlock : Type 0 where
  pub head : CsvRow
  pub regs : List RegBlock

-- the rows of a tree, each head before what it holds
abbrev pub reg_rows : List RegBlock → List CsvRow → List CsvRow
reg_rows [] rest = rest
reg_rows (b ∷ bs) rest = b.head ∷ (b.fields ++ reg_rows bs rest)

abbrev pub map_rows : List MapBlock → List CsvRow
map_rows [] = []
map_rows (m ∷ ms) = m.head ∷ reg_rows m.regs (map_rows ms)

-- Every row is of the kind that its place says.
abbrev pub IsRegBlock : RegBlock → Type 0
IsRegBlock b = IsKind reg_row b.head × All (IsKind field_row) b.fields

abbrev pub IsMapBlock : MapBlock → Type 0
IsMapBlock m = IsKind addrmap_row m.head × All IsRegBlock m.regs

abbrev pub render_fields : List CsvRow → Bytes
render_fields [] = []
render_fields (f ∷ fs) = write_field f ++ render_fields fs

-- each register is closed behind its fields, with its own name and offset
abbrev pub render_regs : List RegBlock → Bytes
render_regs [] = []
render_regs (b ∷ bs) =
    (open_reg b.head ++ (render_fields b.fields ++ close_reg b.head.reg_name b.head.reg_offset))
    ++ render_regs bs

-- what follows the registers of an address map: its end, and the other maps
abbrev pub render_rest : List MapBlock → Bytes
render_rest [] = codes "};\n"
render_rest (m ∷ ms) =
    codes "};\n\n" ++ (open_addrmap m.head ++ (render_regs m.regs ++ render_rest ms))

abbrev pub render : List MapBlock → Bytes
render [] = []
render (m ∷ ms) = open_addrmap m.head ++ (render_regs m.regs ++ render_rest ms)

-- rows that go on in the middle of a tree
record Parsed (e : ExpectedRowType) (rows : List CsvRow) : Type 0 where
  fields : List CsvRow
  regs : List RegBlock
  maps : List MapBlock
  splits : rows ≡ fields ++ reg_rows regs (map_rows maps)
  no_fields : e ≢ field → fields ≡ []
  no_regs : e ≡ addrmap → regs ≡ []
  are_fields : All (IsKind field_row) fields
  are_regs : All IsRegBlock regs
  are_maps : All IsMapBlock maps

addrmap_ne_field : addrmap ≢ field
addrmap_ne_field e = cc

reg_ne_field : reg ≢ field
reg_ne_field e = cc

Structured-Parsed : {e : ExpectedRowType} {rows : List CsvRow} → Structured e rows → Parsed e rows
Structured-Parsed end = record {
  fields = [];
  regs = [];
  maps = [];
  splits = refl;
  no_fields = λ _. refl;
  no_regs = λ _. refl;
  are_fields = tt;
  are_regs = tt;
  are_maps = tt;
}
Structured-Parsed (addrmap_first {e} {row} {rows} k s) =
    let p = Structured-Parsed s in
    record {
      fields = [];
      regs = [];
      maps = record { head = row; regs = p.regs } ∷ p.maps;
      splits = ap (◌∷◌ row) (
          p.splits ∙ ap (λ fs. fs ++ reg_rows p.regs (map_rows p.maps)) (p.no_fields reg_ne_field));
      no_fields = λ _. refl;
      no_regs = λ _. refl;
      are_fields = tt;
      are_regs = tt;
      are_maps = ((k, p.are_regs), p.are_maps);
    }
Structured-Parsed (reg_first {e} {row} {rows} ne k s) =
    let p = Structured-Parsed s in
    record {
      fields = [];
      regs = record { head = row; fields = p.fields } ∷ p.regs;
      maps = p.maps;
      splits = ap (◌∷◌ row) p.splits;
      no_fields = λ _. refl;
      no_regs = λ same. absurd (ne same);
      are_fields = tt;
      are_regs = ((k, p.are_fields), p.are_regs);
      are_maps = p.are_maps;
    }
Structured-Parsed (field_first {e} {row} {rows} same k s) =
    let p = Structured-Parsed s in
    record {
      fields = row ∷ p.fields;
      regs = p.regs;
      maps = p.maps;
      splits = ap (◌∷◌ row) p.splits;
      no_fields = λ ne. absurd (ne same);
      no_regs = λ e. cc;
      are_fields = (k, p.are_fields);
      are_regs = p.are_regs;
      are_maps = p.are_maps;
    }

-- rows that follow the grammar are the rows of a tree
pub Structured-map_rows :
    {rows : List CsvRow}
    → Structured addrmap rows
    → (ms : List MapBlock) × (rows ≡ map_rows ms) × All IsMapBlock ms
Structured-map_rows s =
    let p = Structured-Parsed s in
    (p.maps, p.splits ∙ rw (p.no_fields addrmap_ne_field, p.no_regs refl), p.are_maps)
