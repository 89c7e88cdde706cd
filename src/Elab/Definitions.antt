-- ===== src/Elab/Definitions.antt =====
-- The passes of elaborator.cpp that collect definitions: enumerations, structures and named
-- components with their parameters. `none` is the exception of a number literal that does not fit.
-- The parameters that have a value while definitions are collected are an argument.
pub mod Last
use systemrdl_toolkit.Base.{
  ℕ, ◌+◌, ◌-◌, Bool, true, false, List, [], ◌∷◌, ◌++◌, Bytes, codes, eq_bytes, Option, none, some,
  if◌then◌else◌,
}
use systemrdl_toolkit.Base.Options.{◌>>=◌}
use systemrdl_toolkit.Elab.Model.{PropertyValue, text, integer, boolean, Properties, add64}
use systemrdl_toolkit.Elab.ExprTree.{Expr, expr_text}
use systemrdl_toolkit.Elab.Expr.{evaluate_expression, evaluate_integer_expression_enhanced}
use systemrdl_toolkit.Elab.Params.{ParameterDefinition, ParameterAssignment, is_text}
use systemrdl_toolkit.Elab.Table.{Table, find_entry, set_entry}
use systemrdl_toolkit.Elab.Tree.{
  ComponentType, primary, signal, Inst, EntryTree, EnumTree, MemberTree, StructTree, ParamElem,
  ParamAssign, Body, end, elem, BodyElem, anon_def, named_def, explicit_inst, local_property,
  dynamic_property, enum_def, struct_def, other_elem,
}

pub record EnumEntry : Type 0 where
  pub name : Bytes
  pub value : ℕ

pub record EnumDefinition : Type 0 where
  pub name : Bytes
  pub entries : List EnumEntry

pub record StructMember : Type 0 where
  pub name : Bytes
  pub type : Bytes

pub record StructDefinition : Type 0 where
  pub name : Bytes
  pub members : List StructMember

pub record ComponentDefinition : Type 0 where
  pub name : Bytes
  pub type : Bytes
  pub def_ctx : Body
  pub parameters : List ParameterDefinition

-- the tables of enumerations and structures
pub record TypeTables : Type 0 where
  pub enums : Table EnumDefinition
  pub structs : Table StructDefinition

-- `get_component_type`
unfoldable pub get_component_type : ComponentType → Bytes
get_component_type (primary name) = name
get_component_type signal = codes "unknown"

-- an entry without a value has the one after the value before it
unfoldable pub enum_entries : Properties → ℕ → List EntryTree → Option (List EnumEntry)
unfolding evaluate_integer_expression_enhanced
enum_entries parameters current_value [] = some []
enum_entries parameters current_value (entry ∷ entries) = do
  value ← elim entry.value [
    | none ↦ some current_value
    | some e ↦ evaluate_integer_expression_enhanced parameters e
  ]
  rest ← enum_entries parameters (add64 value 1) entries
  some (record { name = entry.name; value = value } ∷ rest)

unfoldable pub register_enum_definition : Properties → EnumTree → TypeTables → Option TypeTables
unfolding enum_entries set_entry
register_enum_definition parameters tree tables = do
  entries ← enum_entries parameters 0 tree.entries
  some (record tables {
    enums = set_entry tree.name (record { name = tree.name; entries = entries }) tables.enums;
  })

unfoldable pub struct_members : List MemberTree → List StructMember
struct_members [] = []
struct_members (m ∷ members) = record { name = m.name; type = m.type_text } ∷ struct_members members

unfoldable pub register_struct_definition : StructTree → TypeTables → TypeTables
unfolding struct_members set_entry
register_struct_definition tree tables = elim tree.ids [
  | [] ↦ tables
  | name ∷ base ↦ record tables {
    structs =
        set_entry name (record { name = name; members = struct_members tree.members })
          tables.structs;
  }
]

-- `collect_enum_and_struct_definitions`, of the root and of a body
unfoldable pub collect_enum_and_struct_definitions :
    Properties → Body → TypeTables → Option TypeTables
unfolding register_enum_definition register_struct_definition
collect_enum_and_struct_definitions parameters end tables = some tables
collect_enum_and_struct_definitions parameters (elem (enum_def tree) rest) tables = do
  registered ← register_enum_definition parameters tree tables
  collect_enum_and_struct_definitions parameters rest registered
collect_enum_and_struct_definitions parameters (elem (struct_def tree) rest) tables =
    collect_enum_and_struct_definitions parameters rest (register_struct_definition tree tables)
collect_enum_and_struct_definitions parameters (elem (named_def t n ps body is) rest) tables = do
  collected ← collect_enum_and_struct_definitions parameters body tables
  collect_enum_and_struct_definitions parameters rest collected
collect_enum_and_struct_definitions parameters (elem _ rest) tables =
    collect_enum_and_struct_definitions parameters rest tables

unfoldable pub find_enum_definition : Bytes → TypeTables → Option EnumDefinition
unfolding find_entry
find_enum_definition name tables = find_entry name tables.enums

unfoldable pub find_struct_definition : Bytes → TypeTables → Option StructDefinition
unfolding find_entry
find_struct_definition name tables = find_entry name tables.structs

-- a default that has no value yet is kept as the text of its expression
unfoldable pub parse_default : Properties → Option Expr → Option (PropertyValue × Bool)
unfolding evaluate_expression expr_text is_text
parse_default parameters none = some (text [], false)
parse_default parameters (some e) = do
  value ← evaluate_expression parameters e
  some (if is_text (expr_text e) value then text (expr_text e) else value, true)

unfoldable pub parse_parameter_definitions :
    Properties → List ParamElem → Option (List ParameterDefinition)
unfolding parse_default
parse_parameter_definitions parameters [] = some []
parse_parameter_definitions parameters (p ∷ elems) = do
  default ← parse_default parameters p.default
  rest ← parse_parameter_definitions parameters elems
  some (
      record {
        name = p.name;
        data_type = p.type_text;
        default_value = default.0;
        has_default = default.1;
        is_array = p.is_array;
      }
      ∷ rest)

unfoldable pub parse_parameter_assignments :
    Properties → List ParamAssign → Option (List ParameterAssignment)
unfolding evaluate_expression
parse_parameter_assignments parameters [] = some []
parse_parameter_assignments parameters (p ∷ assigns) = do
  value ← evaluate_expression parameters p.value
  rest ← parse_parameter_assignments parameters assigns
  some (record { name = p.name; value = value } ∷ rest)

abbrev pub Definitions : Type 0
Definitions = Table ComponentDefinition

unfoldable pub register_component_definition :
    Properties → ComponentType → Bytes → List ParamElem → Body → Definitions → Option Definitions
unfolding get_component_type parse_parameter_definitions set_entry
register_component_definition parameters type name elems body definitions = do
  parsed ← parse_parameter_definitions parameters elems
  some (
      set_entry name
        (record {
          name = name;
          type = get_component_type type;
          def_ctx = body;
          parameters = parsed;
        })
        definitions)

-- `collect_component_definitions`, of the root and of a body
unfoldable pub collect_component_definitions : Properties → Body → Definitions → Option Definitions
unfolding register_component_definition
collect_component_definitions parameters end definitions = some definitions
collect_component_definitions parameters (elem (named_def t n ps body is) rest) definitions = do
  registered ← register_component_definition parameters t n ps body definitions
  collected ← collect_component_definitions parameters body registered
  collect_component_definitions parameters rest collected
collect_component_definitions parameters (elem _ rest) definitions =
    collect_component_definitions parameters rest definitions
