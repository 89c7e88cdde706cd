-- ===== src/Elab/Lookup.antt =====
-- The searches for a child in elaborator.cpp: `find_child_by_name` and `find_child_by_address`,
-- which an address map, a register file and a memory each have in the same words, and
-- `find_field_by_name` and `find_field_by_bit_range` of a register.
pub mod Unique
use systemrdl_toolkit.Base.{
  ℕ, ◌+◌, Bool, true, false, ◌&&◌, List, [], ◌∷◌, Bytes, eq_bytes, Option, none, some, ltb, leb,
  ◌==◌, if◌then◌else◌,
}
use systemrdl_toolkit.Elab.Model.{
  Field, FieldInfo, NodeInfo, NodeKind, Node, Nodes, node, nil, cons, fields_of, add64,
}

abbrev pub info_of : Node → NodeInfo
info_of (node info kind children) = info

unfoldable pub find_child_by_name : Bytes → Nodes → Option Node
unfolding eq_bytes
find_child_by_name name nil = none
find_child_by_name name (cons child children) =
    let later = find_child_by_name name children in
    if eq_bytes (info_of child).inst_name name then some child else later

-- the test of the search by address
abbrev pub holds_address : ℕ → NodeInfo → Bool
holds_address addr info =
    leb info.absolute_address addr && ltb addr (add64 info.absolute_address info.size)

unfoldable pub find_child_by_address : ℕ → Nodes → Option Node
find_child_by_address addr nil = none
find_child_by_address addr (cons child children) =
    let later = find_child_by_address addr children in
    if holds_address addr (info_of child) then some child else later

unfoldable pub find_in_fields : (Field → Bool) → List Field → Option Field
find_in_fields test [] = none
find_in_fields test (f ∷ fields) =
    let later = find_in_fields test fields in if test f then some f else later

unfoldable pub find_field_by_name : Bytes → Nodes → Option Field
unfolding find_in_fields fields_of eq_bytes
find_field_by_name name children =
    find_in_fields (λ f. eq_bytes f.info.inst_name name) (fields_of children)

unfoldable pub find_field_by_bit_range : ℕ → ℕ → Nodes → Option Field
unfolding find_in_fields fields_of
find_field_by_bit_range msb lsb children =
    find_in_fields (λ f. f.field.msb == msb && f.field.lsb == lsb) (fields_of children)
