-- ===== src/Elab/NodeSize.antt =====
-- `calculate_node_size` in elaborator.cpp, and the parameters that it reads with
-- `resolve_parameter_reference`. `none` is the exception of a register's reset value.
pub mod Extent
pub mod Memory
use systemrdl_toolkit.Base.{
  ℕ, ◌+◌, ◌-◌, ◌^◌, Bool, true, false, not, ◌&&◌, List, [], ◌∷◌, Bytes, codes, Option, none, some,
  ltb, ◌==◌, if◌then◌else◌,
}
use systemrdl_toolkit.Elab.Model.{
  NodeInfo, NodeKind, Node, Nodes, node, nil, cons, addrmap, regfile, reg, field, mem, RegInfo,
  MemInfo, ElaborationError, PropertyValue, text, integer, boolean, Properties, get_property,
  set_property, add64, sub64,
}
use systemrdl_toolkit.Elab.Lookup.{info_of}
use systemrdl_toolkit.Elab.Reg.Size.{SizedRegister, calculate_register_size}

-- A parameter that has no value stands for its own name.
unfoldable pub resolve_parameter_reference : Properties → Bytes → PropertyValue
unfolding get_property
resolve_parameter_reference parameters param_name = elim (get_property param_name parameters) [
  | none ↦ text param_name
  | some value ↦ value
]

-- the test `int_val > 0` on the bit pattern of a signed number
abbrev pub is_positive : ℕ → Bool
is_positive n = ltb 0 n && ltb n (2 ^ 63)

-- a parameter that is a positive number
abbrev pub positive_integer : PropertyValue → Option ℕ
positive_integer (integer n) = if is_positive n then some n else none
positive_integer (text s) = none
positive_integer (boolean b) = none

-- the size of a memory, from the parameters or from what is known of it
unfoldable pub memory_size_of : Properties → MemInfo → ℕ
unfolding resolve_parameter_reference
memory_size_of parameters m =
    elim (positive_integer (resolve_parameter_reference parameters (codes "MEM_SIZE"))) [
      | some n ↦ n
      | none ↦ elim (positive_integer (resolve_parameter_reference parameters (codes "SIZE"))) [
        | some n ↦ n
        | none ↦ if ltb 0 m.memory_size then m.memory_size else 4096
      ]
    ]

abbrev pub memory_type_of : PropertyValue → Bytes → Bytes
memory_type_of (text s) memory_type = s
memory_type_of (integer n) memory_type = memory_type
memory_type_of (boolean b) memory_type = memory_type

abbrev pub with_alignment : PropertyValue → Properties → Properties
with_alignment (integer n) props =
    if is_positive n then set_property (codes "alignment") (integer n) props else props
with_alignment (text s) props = props
with_alignment (boolean b) props = props

abbrev pub with_kb_size : PropertyValue → Properties → Properties
with_kb_size (integer n) props = set_property (codes "kb_size") (integer n) props
with_kb_size (text s) props = props
with_kb_size (boolean b) props = props

-- the branch for memories
unfoldable pub calculate_memory_size : Properties → NodeInfo → MemInfo → NodeInfo × MemInfo
unfolding memory_size_of resolve_parameter_reference
calculate_memory_size parameters info m = (
  record info {
    size = memory_size_of parameters m;
    properties =
        with_kb_size (resolve_parameter_reference parameters (codes "KB_SIZE"))
          (with_alignment (resolve_parameter_reference parameters (codes "ALIGN")) info.properties);
  },
  record m {
    memory_size = memory_size_of parameters m;
    memory_type =
        memory_type_of (resolve_parameter_reference parameters (codes "TYPE")) m.memory_type;
  },
)

-- the loop over the children of a register file
unfoldable pub max_address : ℕ → Nodes → ℕ
max_address max_addr nil = max_addr
max_address max_addr (cons child children) =
    let child_end = add64 (info_of child).absolute_address (info_of child).size in
    max_address (if ltb max_addr child_end then child_end else max_addr) children

-- the branch for register files
unfoldable pub calculate_regfile_size : NodeInfo → Nodes → ℕ
unfolding max_address
calculate_regfile_size info children =
    let size = sub64 (max_address 0 children) info.absolute_address in if size == 0 then 4 else size

unfoldable pub calculate_node_size : Properties → Node → Option (Node × List ElaborationError)
unfolding calculate_memory_size calculate_regfile_size calculate_register_size
calculate_node_size parameters (node info (reg r) children) =
    elim (calculate_register_size r info children) [
      | none ↦ none
      | some sized ↦ some (
        node (record info { size = sized.size })
            (reg (record r { register_reset_hex = sized.register_reset_hex })) sized.children,
        sized.errors,
      )
    ]
calculate_node_size parameters (node info (field f) children) =
    some (node (record info { size = 0 }) (field f) children, [])
calculate_node_size parameters (node info (regfile stride) children) = some (
  node (record info { size = calculate_regfile_size info children }) (regfile stride) children,
  [],
)
calculate_node_size parameters (node info (mem m) children) =
    let (sized, memory) = calculate_memory_size parameters info m in
    some (node sized (mem memory) children, [])
calculate_node_size parameters (node info addrmap children) =
    some (node (record info { size = 4 }) addrmap children, [])
