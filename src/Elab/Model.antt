-- ===== src/Elab/Model.antt =====
-- The elaborated nodes of elaborator.h. Numbers of 64 bits are natural numbers below 2 ^ 64; an
-- `int64_t` is its bit pattern, so that the casts between it and `size_t` change nothing. The
-- pointer to the parent is not stored: whoever walks the tree knows the parent. The strides of
-- an array are a member that nothing writes, and `ENUM` a property type that nothing builds.
use systemrdl_toolkit.Base.{
  ℕ, ◌+◌, ◌-◌, ◌^◌, ◌%◌, Bool, false, List, [], ◌∷◌, Option, none, some, Bytes, eq_bytes, codes,
  if◌then◌else◌, ◌≡◌, refl, arith, eq_bytes_iff,
}

abbrev pub word : ℕ
word = 2 ^ 64

-- SIZE_MAX, the position of a field that has none yet
abbrev pub size_max : ℕ
size_max = 2 ^ 64 - 1

-- the sum, difference and product of `size_t`
abbrev pub add64 : ℕ → ℕ → ℕ
add64 a b = (a + b) % word

abbrev pub sub64 : ℕ → ℕ → ℕ
sub64 a b = (a + word - b) % word

pub data PropertyValue : Type 0 where
  text : Bytes → PropertyValue
  integer : ℕ → PropertyValue
  boolean : Bool → PropertyValue

abbrev pub Properties : Type 0
Properties = List (Bytes × PropertyValue)

-- where a parse tree begins
pub record Position : Type 0 where
  pub line : ℕ
  pub column : ℕ

pub record NodeInfo : Type 0 where
  pub inst_name : Bytes
  pub type_name : Bytes
  pub absolute_address : ℕ
  pub size : ℕ
  pub source_ctx : Option Position
  pub array_dimensions : List ℕ
  pub array_indices : List ℕ
  pub properties : Properties

pub data AccessType : Type 0 where
  read_write read_only write_only w1c w1s w1t w0c w0s w0t no_access : AccessType

pub record FieldInfo : Type 0 where
  pub msb : ℕ
  pub lsb : ℕ
  pub width : ℕ
  pub reset_value : ℕ
  pub sw_access : AccessType
  pub hw_access : AccessType

pub record RegInfo : Type 0 where
  pub register_width : ℕ
  pub register_reset_hex : Bytes

pub record MemInfo : Type 0 where
  pub memory_size : ℕ
  pub data_width : ℕ
  pub address_width : ℕ
  pub memory_type : Bytes

-- the subclass of a node, with its own members
pub data NodeKind : Type 0 where
  addrmap : NodeKind
  regfile : ℕ → NodeKind
  reg : RegInfo → NodeKind
  field : FieldInfo → NodeKind
  mem : MemInfo → NodeKind

mutual
  pub data Node : Type 0 where
    node : NodeInfo → NodeKind → Nodes → Node

  pub data Nodes : Type 0 where
    nil : Nodes
    cons : Node → Nodes → Nodes

-- a field node without its children
pub record Field : Type 0 where
  pub info : NodeInfo
  pub field : FieldInfo

-- `properties.find(name)`
unfoldable pub get_property : Bytes → Properties → Option PropertyValue
get_property name [] = none
get_property name ((key, value) ∷ props) =
    if eq_bytes key name then some value else get_property name props

-- `properties[name] = value`
unfoldable pub set_property : Bytes → PropertyValue → Properties → Properties
set_property name value [] = (name, value) ∷ []
set_property name value ((key, old) ∷ props) =
    if eq_bytes key name then (name, value) ∷ props else (key, old) ∷ set_property name value props

-- A property that was set is read back, and every other is as it was.
pub get_property-set_property :
    (name other : Bytes) (value : PropertyValue) (props : Properties)
    → get_property other (set_property name value props)
      ≡ (if eq_bytes name other then some value else get_property other props)
unfolding get_property set_property
get_property-set_property name other value [] = refl
get_property-set_property name other value ((key, old) ∷ props) = ground (
  arith,
  eq_bytes_iff name other,
  eq_bytes_iff key name,
  eq_bytes_iff key other,
  get_property-set_property name other value props,
)

-- a property that is given, a truth value, and true
unfoldable pub is_flagged : Bytes → Properties → Bool
unfolding get_property
is_flagged name props = elim (get_property name props) [
  | none ↦ false
  | some value ↦ elim value [ boolean b ↦ b | text s ↦ false | integer n ↦ false ]
]

-- the name that `RESERVED` and `auto_position` go by
abbrev pub reserved_key : Bytes
reserved_key = codes "reserved"

abbrev pub auto_position_key : Bytes
auto_position_key = codes "auto_position"

pub record ElaborationError : Type 0 where
  pub message : Bytes
  pub line : ℕ
  pub column : ℕ

-- `report_error`
unfoldable pub elaboration_error : Bytes → Option Position → ElaborationError
elaboration_error message none = record { message = message; line = 0; column = 0 }
elaboration_error message (some p) = record { message = message; line = p.line; column = p.column }

-- the children that are fields, in order
unfoldable pub fields_of : Nodes → List Field
fields_of nil = []
fields_of (cons (node info (field f) _) children) =
    record { info = info; field = f } ∷ fields_of children
fields_of (cons _ children) = fields_of children

-- `push_back` of `add_child`
unfoldable pub add_child : Nodes → Node → Nodes
add_child nil child = cons child nil
add_child (cons n children) child = cons n (add_child children child)
