-- ===== src/Elab/Walk.antt =====
-- The walk of `SystemRDLElaborator` in elaborator.cpp over the parse tree. A method that adds to
-- the parent that it is given returns it, and one that moves `current_address` on returns that
-- too. A body is elaborated with a number of nested bodies that is left, since definitions may be
-- instantiated in one another; the methods in between take the elaboration of a body as an
-- argument.
pub mod Keeps
pub mod Arrays
pub mod Depth
pub mod Sound
use systemrdl_toolkit.Base.{
  ℕ, zero, suc, ◌+◌, ◌-◌, ◌%◌, ◌^◌, Bool, true, false, ◌&&◌, List, [], ◌∷◌, ◌++◌, Bytes, codes,
  eq_bytes, Option, none, some, ltb, ◌==◌, if◌then◌else◌, to_string,
}
use systemrdl_toolkit.Elab.Model.{
  NodeInfo, NodeKind, Node, Nodes, node, nil, cons, addrmap, field, add64, sub64, add_child, word,
  Properties, Position,
}
use systemrdl_toolkit.Elab.Lookup.{info_of}
use systemrdl_toolkit.Elab.NodeSize.{calculate_node_size}
use systemrdl_toolkit.Elab.ExprText.{mul64}
use systemrdl_toolkit.Elab.ExprTree.{Expr}
use systemrdl_toolkit.Elab.Expr.{evaluate_integer_expression_enhanced, evaluate_address_expression}
use systemrdl_toolkit.Elab.Params.{apply_parameter_assignments}
use systemrdl_toolkit.Elab.Addr.{validate_instance_addresses}
use systemrdl_toolkit.Elab.Table.{find_entry}
use systemrdl_toolkit.Elab.Tree.{
  ComponentType, primary, signal, Inst, Body, end, elem, BodyElem, anon_def, named_def,
  explicit_inst, local_property, dynamic_property, enum_def, struct_def, other_elem, ParamAssign,
}
use systemrdl_toolkit.Elab.Definitions.{
  ComponentDefinition, TypeTables, Definitions, get_component_type, parse_parameter_assignments,
  collect_enum_and_struct_definitions, collect_component_definitions,
}
use systemrdl_toolkit.Elab.State.{
  ElaboratorState, Outcome, Elaborator, ◌>>=◌, return, evaluating, on_option, report, report_error,
  set_parameters, clear_parameter_context, give_up,
}
use systemrdl_toolkit.Elab.Assign.{
  new_info, create_elaborated_node, elaborate_field_bit_range, elaborate_local_property_assignment,
}

-- how a body is elaborated into a node
abbrev pub Filler : Type 0
Filler = Body → Node → Elaborator Node

-- the children of a node, with one more
unfoldable pub with_child : Node → Node → Node
unfolding add_child
with_child (node info kind children) child = node info kind (add_child children child)

-- `calculate_node_size`, with its errors reported
unfoldable pub size_node : Node → Elaborator Node
unfolding calculate_node_size
size_node n = do
  sized ← evaluating (λ ps. calculate_node_size ps n)
  _ ← report sized.1
  return sized.0

-- the bits of a field, where the instance is of an anonymous definition
unfoldable pub range_node : Bool → Inst → NodeInfo → NodeKind → Elaborator Node
unfolding elaborate_field_bit_range
range_node true inst info (field f) = do
  ranged ← elaborate_field_bit_range inst info f
  return (node ranged.0 (field ranged.1) nil)
range_node ranged inst info kind = return (node info kind nil)

-- the bits, the body and the size of a new node
unfoldable pub fill_node : Filler → Bool → Inst → Body → NodeInfo → NodeKind → Elaborator Node
unfolding range_node size_node
fill_node fill ranged inst body info kind = do
  placed ← range_node ranged inst info kind
  filled ← fill body placed
  size_node filled

-- an address behind `@`, or the one that is reached
unfoldable pub base_address : Inst → ℕ → Elaborator ℕ
unfolding evaluate_address_expression
base_address inst current_address =
    on_option inst.addr_fixed (return current_address)
      λ e. evaluating (λ ps. evaluate_address_expression ps e)

-- an address behind `+=`, or four bytes
unfoldable pub stride_of : Inst → Elaborator ℕ
unfolding evaluate_address_expression
stride_of inst =
    on_option inst.addr_stride (return 4) λ e. evaluating (λ ps. evaluate_address_expression ps e)

-- the number behind the first bracket, and four in place of zero
unfoldable pub dimension_of : Expr → Elaborator ℕ
unfolding evaluate_integer_expression_enhanced
dimension_of e = do
  dim ← evaluating (λ ps. evaluate_integer_expression_enhanced ps e)
  return (if ltb 0 dim then dim else 4)

-- an instance that is no array
unfoldable pub single_instance :
    Filler → Bool → Bytes → Body → Inst → Node → ℕ → Elaborator (Node × ℕ)
unfolding create_elaborated_node base_address fill_node with_child
single_instance fill ranged type body inst parent current_address = do
  created ← create_elaborated_node type
  on_option created (return (parent, current_address)) λ kind. do
    instance_address ← base_address inst current_address
    filled ←
        fill_node fill ranged inst body
          (record new_info {
            inst_name = inst.name;
            type_name = type;
            source_ctx = some inst.position;
            absolute_address = add64 (info_of parent).absolute_address instance_address;
          })
          kind
    return (with_child parent filled, add64 instance_address (info_of filled).size)

-- an element of an array, before its body
abbrev pub element_info : Bytes → Inst → ℕ → ℕ → ℕ → ℕ → ℕ → NodeInfo
element_info type inst parent_address base stride dimension i = record new_info {
  inst_name = inst.name ++ (codes "[" ++ (to_string i ++ codes "]"));
  type_name = type;
  source_ctx = some inst.position;
  absolute_address = add64 (add64 parent_address base) (mul64 i stride);
  array_dimensions = dimension ∷ [];
  array_indices = i ∷ [];
}

-- the loop over the elements, from the element `i` on with those that are left
unfoldable pub array_elements :
    Filler → Bool → Bytes → Body → Inst → ℕ → ℕ → ℕ → ℕ → ℕ → Node → Elaborator Node
unfolding create_elaborated_node fill_node with_child
array_elements fill ranged type body inst base stride dimension zero i parent = return parent
array_elements fill ranged type body inst base stride dimension (suc left) i parent = do
  created ← create_elaborated_node type
  added ← on_option created (return parent) λ kind. do
    filled ←
        fill_node fill ranged inst body
          (element_info type inst (info_of parent).absolute_address base stride dimension i) kind
    return (with_child parent filled)
  array_elements fill ranged type body inst base stride dimension left (suc i) added

unfoldable pub array_instance :
    Filler → Bool → Bytes → Body → Inst → Expr → Node → ℕ → Elaborator (Node × ℕ)
unfolding dimension_of base_address stride_of array_elements
array_instance fill ranged type body inst suffix parent current_address = do
  dimension ← dimension_of suffix
  base ← base_address inst current_address
  stride ← stride_of inst
  filled ← array_elements fill ranged type body inst base stride dimension dimension 0 parent
  return (filled, add64 base (mul64 dimension stride))

abbrev pub first_of : List Expr → Option Expr
first_of [] = none
first_of (e ∷ more) = some e

-- `elaborate_component_instance` and, where the bits are not looked at,
-- `elaborate_named_component_instance` of a definition that is found
unfoldable pub component_instance :
    Filler → Bool → Bytes → Body → Inst → Node → ℕ → Elaborator (Node × ℕ)
unfolding single_instance array_instance
component_instance fill ranged type body inst parent current_address =
    on_option (first_of inst.array_suffix)
      (single_instance fill ranged type body inst parent current_address)
      λ suffix. array_instance fill ranged type body inst suffix parent current_address

unfoldable pub component_instances :
    Filler → Bool → Bytes → Body → List Inst → Node → ℕ → Elaborator (Node × ℕ)
unfolding component_instance
component_instances fill ranged type body [] parent current_address =
    return (parent, current_address)
component_instances fill ranged type body (inst ∷ insts) parent current_address = do
  next ← component_instance fill ranged type body inst parent current_address
  component_instances fill ranged type body insts next.0 next.1

-- the parameters of a component for its instances
unfoldable pub assign_parameters : ComponentDefinition → List ParamAssign → Elaborator (Unit {0})
unfolding parse_parameter_assignments apply_parameter_assignments
assign_parameters def assigns = do
  assignments ← evaluating (λ ps. parse_parameter_assignments ps assigns)
  let applied = apply_parameter_assignments def.parameters assignments
  _ ← set_parameters applied.0
  report applied.1

unfoldable pub undefined_component : Bytes → Option Position → Node → ℕ → Elaborator (Node × ℕ)
undefined_component type_name position parent current_address = do
  _ ← report_error (codes "Undefined component type: " ++ type_name) position
  return (parent, current_address)

module _ (definitions : Definitions) (types : TypeTables) where
  unfoldable pub elaborate_explicit_component_inst :
      Filler
      → Bytes
      → List ParamAssign
      → List Inst
      → Option Position
      → Node
      → ℕ
      → Elaborator (Node × ℕ)
  unfolding find_entry undefined_component assign_parameters component_instances
      clear_parameter_context
  elaborate_explicit_component_inst fill type_name assigns insts position parent current_address =
      on_option (find_entry type_name definitions)
        (undefined_component type_name position parent current_address)
        λ def. do
          _ ← assign_parameters def assigns
          next ← component_instances fill false def.type def.def_ctx insts parent current_address
          _ ← clear_parameter_context
          return next

  -- a branch of the loop over the elements of a body; a named definition and a dynamic
  -- assignment of a property are passed over
  unfoldable pub elaborate_elem : Filler → BodyElem → Node → ℕ → Elaborator (Node × ℕ)
  unfolding get_component_type component_instances elaborate_explicit_component_inst
      elaborate_local_property_assignment
  elaborate_elem fill (anon_def type body insts) parent current_address =
      component_instances fill true (get_component_type type) body insts parent current_address
  elaborate_elem fill (explicit_inst name assigns insts position) parent current_address =
      elaborate_explicit_component_inst fill name assigns insts (some position) parent
        current_address
  elaborate_elem fill (local_property prop) parent current_address = do
    assigned ← elaborate_local_property_assignment types prop parent
    return (assigned, current_address)
  elaborate_elem fill _ parent current_address = return (parent, current_address)

  unfoldable pub elaborate_elems : Filler → Body → Node → ℕ → Elaborator Node
  unfolding elaborate_elem
  elaborate_elems fill end parent current_address = return parent
  elaborate_elems fill (elem e rest) parent current_address = do
    next ← elaborate_elem fill e parent current_address
    elaborate_elems fill rest next.0 next.1

  -- with the number of nested bodies that is left
  unfoldable pub elaborate_component_body : ℕ → Filler
  unfolding elaborate_elems
  elaborate_component_body zero body parent = give_up
  elaborate_component_body (suc depth) body parent =
      elaborate_elems (elaborate_component_body depth) body parent 0

-- the first named definition of an address map
unfoldable pub top_addrmap : Body → Option (Bytes × Body)
unfolding eq_bytes
top_addrmap end = none
top_addrmap (elem (named_def (primary type) name ps body insts) rest) =
    let later = top_addrmap rest in
    if eq_bytes type (codes "addrmap") then some (name, body) else later
top_addrmap (elem _ rest) = top_addrmap rest

unfoldable pub no_addrmap : Elaborator (Option Node)
no_addrmap = do _ ← report_error (codes "No top-level addrmap found") none; return none

-- the third pass
unfoldable pub elaborate_top : ℕ → Definitions → TypeTables → Body → Elaborator (Option Node)
unfolding top_addrmap elaborate_component_body validate_instance_addresses no_addrmap
elaborate_top depth definitions types root = on_option (top_addrmap root) no_addrmap λ top. do
  elaborated ←
      elaborate_component_body definitions types depth top.1
        (node (record new_info { inst_name = top.0; type_name = codes "addrmap" }) addrmap nil)
  _ ← report (validate_instance_addresses elaborated)
  return (some elaborated)

-- the three passes over the root
unfoldable pub elaborate_root : ℕ → Body → Elaborator (Option Node)
unfolding collect_enum_and_struct_definitions collect_component_definitions elaborate_top
elaborate_root depth root = do
  types ←
      evaluating
        (λ ps. collect_enum_and_struct_definitions ps root (record { enums = []; structs = [] }))
  definitions ← evaluating (λ ps. collect_component_definitions ps root [])
  elaborate_top depth definitions types root

unfoldable pub no_root : Elaborator (Option Node)
no_root = do _ ← report_error (codes "AST root is null") none; return none

-- `elaborate`, with the values of parameters that an earlier call has left
unfoldable pub elaborate : ℕ → Option Body → Properties → Outcome (Option Node)
unfolding elaborate_root no_root
elaborate depth ast_root left_values =
    on_option ast_root no_root (elaborate_root depth)
      (record { current_parameter_values = left_values; errors = [] })
