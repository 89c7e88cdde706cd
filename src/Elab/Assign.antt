-- ===== src/Elab/Assign.antt =====
-- What SystemRDLElaborator in elaborator.cpp writes into a node: `create_elaborated_node`,
-- `elaborate_field_bit_range` and `elaborate_local_property_assignment`. A method that changes the
-- node that it is given returns the node as it leaves it.
use systemrdl_toolkit.Base.{
  ℕ, ◌-◌, ◌%◌, ◌^◌, true, List, [], ◌∷◌, ◌++◌, Bytes, codes, eq_bytes, Option, none, some, ltb, leb,
  if◌then◌else◌, to_string,
}
use systemrdl_toolkit.Elab.Model.{
  NodeInfo, NodeKind, Node, node, addrmap, regfile, reg, field, mem, FieldInfo, read_write,
  PropertyValue, text, integer, boolean, Properties, get_property, set_property, add64, size_max,
  auto_position_key,
}
use systemrdl_toolkit.Elab.Int64.{signed_string}
use systemrdl_toolkit.Elab.ExprTree.{Expr}
use systemrdl_toolkit.Elab.Numbers.{stoull_any}
use systemrdl_toolkit.Elab.Expr.{
  evaluate_expression, evaluate_integer_expression_enhanced, evaluate_property_value, or_zero,
}
use systemrdl_toolkit.Elab.Tree.{Inst, LocalProperty, normal_prop, encode_prop, prop_mod}
use systemrdl_toolkit.Elab.Definitions.{EnumEntry, TypeTables, find_enum_definition}
use systemrdl_toolkit.Elab.State.{
  Elaborator, ◌>>=◌, return, evaluating, on_option, report_error, report_if,
}

-- the members of `ElaboratedNode` before anything is known
abbrev pub new_info : NodeInfo
new_info = record {
  inst_name = [];
  type_name = [];
  absolute_address = 0;
  size = 0;
  source_ctx = none;
  array_dimensions = [];
  array_indices = [];
  properties = [];
}

-- the subclass that is made for a type
unfoldable pub node_kind_of : Bytes → Option NodeKind
unfolding eq_bytes
node_kind_of type =
    if eq_bytes type (codes "addrmap")
    then some addrmap
    else (if eq_bytes type (codes "regfile")
        then some (regfile 4)
        else (if eq_bytes type (codes "reg")
            then some (reg (record { register_width = 32; register_reset_hex = [] }))
            else (if eq_bytes type (codes "field")
                then some (
                    field (record {
                      msb = 0;
                      lsb = 0;
                      width = 0;
                      reset_value = 0;
                      sw_access = read_write;
                      hw_access = read_write;
                    }))
                else (if eq_bytes type (codes "mem")
                    then some (
                        mem (record {
                          memory_size = 0;
                          data_width = 32;
                          address_width = 32;
                          memory_type = codes "ram";
                        }))
                    else none))))

unfoldable pub unknown_type : Bytes → Elaborator (Option NodeKind)
unknown_type type = do _ ← report_error (codes "Unknown component type: " ++ type) none; return none

unfoldable pub create_elaborated_node : Bytes → Elaborator (Option NodeKind)
unfolding node_kind_of unknown_type
create_elaborated_node type =
    on_option (node_kind_of type) (unknown_type type) (λ kind. return (some kind))

-- the properties of a field whose bits are known
unfoldable pub set_range : ℕ → ℕ → ℕ → Properties → Properties
unfolding set_property
set_range msb lsb width props =
    set_property (codes "width") (integer width)
      (set_property (codes "lsb") (integer lsb) (set_property (codes "msb") (integer msb) props))

-- `fieldwidth`, or one bit
unfoldable pub requested_width : Properties → ℕ
unfolding get_property
requested_width props = elim (get_property (codes "fieldwidth") props) [
  | none ↦ 1
  | some value ↦ elim value [ integer n ↦ n | text s ↦ 1 | boolean b ↦ 1 ]
]

-- the number that a reset value stands for
abbrev pub reset_of : ℕ → PropertyValue → ℕ
reset_of old (integer n) = n
reset_of old (text s) = or_zero (stoull_any s)
reset_of old (boolean b) = old

-- a field with the bits `[msb:lsb]`
unfoldable pub given_range :
    Inst → NodeInfo → FieldInfo → Expr × Expr → Elaborator (NodeInfo × FieldInfo)
unfolding evaluate_integer_expression_enhanced set_range
given_range inst info f exprs = do
  msb ← evaluating (λ ps. evaluate_integer_expression_enhanced ps exprs.0)
  lsb ← evaluating (λ ps. evaluate_integer_expression_enhanced ps exprs.1)
  let width = if leb lsb msb then add64 (msb - lsb) 1 else 0
  _ ←
      report_if (ltb msb lsb)
        (codes "Invalid bit range: MSB ("
          ++ (to_string msb ++ (codes ") is less than LSB (" ++ (to_string lsb ++ codes ")"))))
        (some inst.position)
  return (
    record info { properties = set_range msb lsb width info.properties },
    record f { msb = msb; lsb = lsb; width = width },
  )

-- a field whose bits are to be found later
unfoldable pub automatic_range : NodeInfo → FieldInfo → NodeInfo × FieldInfo
unfolding set_range requested_width set_property
automatic_range info f =
    let width = requested_width info.properties in
    (
      record info {
        properties =
            set_property auto_position_key (boolean true)
              (set_range size_max size_max width info.properties);
      },
      record f { msb = size_max; lsb = size_max; width = width },
    )

unfoldable pub elaborate_range : Inst → NodeInfo → FieldInfo → Elaborator (NodeInfo × FieldInfo)
unfolding automatic_range given_range
elaborate_range inst info f =
    on_option inst.range_suffix (return (automatic_range info f)) (given_range inst info f)

unfoldable pub set_reset : NodeInfo → FieldInfo → PropertyValue → NodeInfo × FieldInfo
unfolding set_property stoull_any
set_reset info f value = (
  record info { properties = set_property (codes "reset") value info.properties },
  record f { reset_value = reset_of f.reset_value value },
)

-- the reset value of a field, where the instance has one
unfoldable pub elaborate_reset : Inst → NodeInfo → FieldInfo → Elaborator (NodeInfo × FieldInfo)
unfolding evaluate_expression set_reset
elaborate_reset inst info f =
    on_option inst.inst_reset (return (info, f))
      λ e. do value ← evaluating (λ ps. evaluate_expression ps e); return (set_reset info f value)

unfoldable pub elaborate_field_bit_range :
    Inst → NodeInfo → FieldInfo → Elaborator (NodeInfo × FieldInfo)
unfolding elaborate_range elaborate_reset
elaborate_field_bit_range inst info f = do
  ranged ← elaborate_range inst info f
  elaborate_reset inst ranged.0 ranged.1

-- the entries of an enumeration, as "NAME=value" between commas
unfoldable pub encode_values : List EnumEntry → Bytes
unfolding signed_string
encode_values [] = []
encode_values (e ∷ []) = e.name ++ (codes "=" ++ signed_string e.value)
encode_values (e ∷ entries) =
    e.name ++ (codes "=" ++ (signed_string e.value ++ (codes "," ++ encode_values entries)))

-- what is kept of the enumeration of an `encode`
unfoldable pub set_encoding : TypeTables → Bytes → Properties → Properties
unfolding find_enum_definition set_property encode_values
set_encoding types name props = elim (find_enum_definition name types) [
  | none ↦ props
  | some def ↦ set_property (codes "encode_values") (text (encode_values def.entries)) (
      set_property (codes "encode_name") (text name)
        (set_property (codes "encode_type") (text (codes "enum")) props))
]

-- a value of `regwidth` is the width of a register too, in 32 bits
abbrev pub with_regwidth : Bytes → PropertyValue → NodeKind → NodeKind
with_regwidth name (integer n) (reg r) =
    if eq_bytes name (codes "regwidth")
    then reg (record r { register_width = n % 2 ^ 32 })
    else reg r
with_regwidth name value kind = kind

abbrev pub with_encoding : TypeTables → Bytes → PropertyValue → Properties → Properties
with_encoding types name (text s) props =
    if eq_bytes name (codes "encode") then set_encoding types s props else props
with_encoding types name value props = props

unfoldable pub assign_property : TypeTables → Bytes → PropertyValue → Node → Node
unfolding eq_bytes set_property set_encoding
assign_property types name value (node info kind children) =
    node
      (record info {
        properties = with_encoding types name value (set_property name value info.properties);
      })
      (with_regwidth name value kind) children

unfoldable pub assign_encode : TypeTables → Bytes → Node → Node
unfolding set_property set_encoding
assign_encode types name (node info kind children) =
    node
      (record info {
        properties =
            set_encoding types name (set_property (codes "encode") (text name) info.properties);
      })
      kind children

-- a property without a value is set to true
unfoldable pub elaborate_local_property_assignment :
    TypeTables → LocalProperty → Node → Elaborator Node
unfolding evaluate_property_value assign_property assign_encode set_property
elaborate_local_property_assignment types (normal_prop name (some rhs)) parent = do
  value ← evaluating (λ ps. evaluate_property_value ps rhs)
  return (assign_property types name value parent)
elaborate_local_property_assignment types (normal_prop name none) (node info kind children) =
    return (
      node (record info { properties = set_property name (boolean true) info.properties }) kind
        children)
elaborate_local_property_assignment types (encode_prop name) parent =
    return (assign_encode types name parent)
elaborate_local_property_assignment types prop_mod parent = return parent
