-- ===== src/Programs/Printer.antt =====
-- What `ElaboratedModelPrinter` of elaborator_main.cpp prints of a model, and `printAST` of
-- parser_main.cpp of a parse tree.
use systemrdl_toolkit.Base.{
  ℕ, zero, suc, ◌+◌, ◌*◌, ◌==◌, Bool, true, false, not, ◌||◌, List, [], ◌∷◌, ◌++◌, Bytes, codes,
  none, some, is_empty, ltb, replicate, length, eq_bytes, to_string, if◌then◌else◌,
}
use systemrdl_toolkit.Elab.Model.{
  PropertyValue, text, integer, boolean, Properties, get_property, NodeInfo, NodeKind, addrmap,
  regfile, reg, field, mem, Node, Nodes, node, nil, cons,
}
use systemrdl_toolkit.Elab.AddressMap.{get_node_type}
use systemrdl_toolkit.Elab.Int64.{signed_string}
use systemrdl_toolkit.Api.Json.{
  hex_address, ParseTree, ParseTrees, rule, terminal, none_left, child, trees_text,
}

unfoldable pub indentation : ℕ → Bytes
indentation zero = []
indentation (suc depth) = codes "  " ++ indentation depth

abbrev pub icon : NodeKind → Bytes
icon addrmap = codes "[MAP]"
icon (regfile alignment) = codes "[FILE]"
icon (reg r) = codes "[REG]"
icon (field f) = codes "[FIELD]"
icon (mem m) = codes "[MEM]"

-- `int_val`
abbrev pub int_val : PropertyValue → ℕ
int_val (text s) = 0
int_val (integer n) = n
int_val (boolean b) = 0

abbrev pub is_addrmap : NodeKind → Bool
is_addrmap addrmap = true
is_addrmap _ = false

unfoldable pub bit_range : NodeInfo → NodeKind → Bytes
unfolding get_property signed_string
bit_range info (field f) = elim (get_property (codes "msb") info.properties) [
  | none ↦ []
  | some msb ↦ elim (get_property (codes "lsb") info.properties) [
    | none ↦ []
    | some lsb ↦
        codes " ["
        ++ (signed_string (int_val msb)
            ++ (codes ":" ++ (signed_string (int_val lsb) ++ codes "]")))
  ]
]
bit_range info _ = []

unfoldable pub dimensions : List ℕ → Bytes
unfolding to_string
dimensions [] = []
dimensions (dim ∷ []) = to_string dim
dimensions (dim ∷ (next ∷ dims)) = to_string dim ++ (codes "x" ++ dimensions (next ∷ dims))

unfoldable pub property_text : PropertyValue → Bytes
unfolding signed_string
property_text (text s) = codes "\"" ++ (s ++ codes "\"")
property_text (integer n) = signed_string n
property_text (boolean true) = codes "true"
property_text (boolean false) = codes "false"

unfoldable pub property_lines : ℕ → Properties → Bytes
unfolding indentation property_text
property_lines depth [] = []
property_lines depth ((key, value) ∷ more) =
    indentation (suc depth)
    ++ (codes "    "
        ++ (key
            ++ (codes ": " ++ (property_text value ++ (codes "\n" ++ property_lines depth more)))))

unfoldable pub node_line : ℕ → NodeInfo → NodeKind → Bytes
unfolding indentation hex_address bit_range dimensions to_string
node_line depth info kind =
    indentation depth
    ++ (icon kind
        ++ (codes " "
            ++ (get_node_type kind
                ++ (codes ": "
                    ++ (info.inst_name
                        ++ ((if not (info.absolute_address == 0) || is_addrmap kind
                              then codes " @ " ++ hex_address info.absolute_address
                              else [])
                            ++ (bit_range info kind
                                ++ ((if ltb 0 info.size
                                      then codes " (size: "
                                        ++ (to_string info.size ++ codes " bytes)")
                                      else [])
                                    ++ ((if is_empty info.array_dimensions
                                          then []
                                          else codes " [array: "
                                            ++ (dimensions info.array_dimensions ++ codes "]"))
                                        ++ codes "\n")))))))))

-- the children of a field are not visited
unfoldable mutual
  unfolding node_line property_lines

  pub print_node : ℕ → Node → Bytes
  print_node depth (node info (field f) children) =
      node_line depth info (field f) ++ property_lines depth info.properties
  print_node depth (node info kind children) =
      node_line depth info kind
      ++ (property_lines depth info.properties ++ print_nodes (suc depth) children)

  pub print_nodes : ℕ → Nodes → Bytes
  print_nodes depth nil = []
  print_nodes depth (cons n ns) = print_node depth n ++ print_nodes depth ns

unfoldable pub print_model : Node → Bytes
unfolding print_node
print_model root = codes "=== Elaborated SystemRDL Model ===\n" ++ print_node 0 root

-- the lines that `std::getline` reads
unfoldable pub lines_of : Bytes → List Bytes
lines_of [] = []
lines_of (c ∷ s) =
    let rest = lines_of s in
    if c == b'\n'
    then [] ∷ rest
    else elim rest [ [] ↦ (c ∷ []) ∷ [] | line ∷ more ↦ (c ∷ line) ∷ more ]

unfoldable pub aligned_lines : Bytes → List Bytes → Bytes
aligned_lines align_spaces [] = []
aligned_lines align_spaces (line ∷ more) =
    align_spaces ++ (line ++ (codes "\n" ++ aligned_lines align_spaces more))

-- `printAligned`
unfoldable pub print_aligned : ℕ → Bytes → Bytes → Bytes
unfolding indentation lines_of aligned_lines
print_aligned depth prefix content =
    indentation depth
    ++ (prefix ++ elim (lines_of content) [
      | [] ↦ []
      | line ∷ more ↦
          line ++ (codes "\n" ++ aligned_lines (replicate (depth * 2 + length prefix) b' ') more)
    ])

unfoldable pub rule_lines : ℕ → Bytes → Bytes → Bytes
unfolding eq_bytes indentation print_aligned
rule_lines depth rule_name content =
    if eq_bytes rule_name (codes "component_named_def")
    then indentation depth ++ codes "[COMP] Component Definition\n"
    else if eq_bytes rule_name (codes "component_type_primary")
    then print_aligned depth (codes "[TYPE] ") content
    else if eq_bytes rule_name (codes "component_inst")
    then print_aligned depth (codes "[INST] ") content
    else if eq_bytes rule_name (codes "local_property_assignment")
    then print_aligned depth (codes "[PROP] ") content
    else if eq_bytes rule_name (codes "range_suffix")
    then print_aligned depth (codes "[RANGE] ") content
    else if eq_bytes rule_name (codes "inst_addr_fixed")
    then print_aligned depth (codes "[ADDR] ") content
    else []

unfoldable mutual
  unfolding rule_lines

  pub print_ast : ℕ → ParseTree → Bytes
  print_ast depth (rule name l c l' c' children) =
      rule_lines depth name (trees_text children) ++ print_asts (suc depth) children
  print_ast depth (terminal s l c) = []

  pub print_asts : ℕ → ParseTrees → Bytes
  print_asts depth none_left = []
  print_asts depth (child t ts) = print_ast depth t ++ print_asts depth ts
