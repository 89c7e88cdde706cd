-- ===== src/Elab/Tree.antt =====
-- The parse tree of a description as the rules of SystemRDL.g4 build it, as far as
-- elaborator.cpp looks at it. A pointer to a part of the tree is that part; of a place in the
-- source, line and column are kept. The root and the body of a component are lists of the same
-- elements.
use systemrdl_toolkit.Base.{Bool, List, Bytes, Option}
use systemrdl_toolkit.Elab.Model.{Position}
use systemrdl_toolkit.Elab.ExprTree.{Expr}
use systemrdl_toolkit.Elab.Expr.{PropertyRhs}

-- one of the five types by its name, or a signal
pub data ComponentType : Type 0 where
  primary : Bytes → ComponentType
  signal : ComponentType

pub record Inst : Type 0 where
  pub name : Bytes
  pub array_suffix : List Expr
  pub range_suffix : Option (Expr × Expr)
  pub inst_reset : Option Expr
  pub addr_fixed : Option Expr
  pub addr_stride : Option Expr
  pub position : Position

-- `normal_prop_assign`, `encode_prop_assign` and `prop_mod_assign`
pub data LocalProperty : Type 0 where
  normal_prop : Bytes → Option PropertyRhs → LocalProperty
  encode_prop : Bytes → LocalProperty
  prop_mod : LocalProperty

pub record EntryTree : Type 0 where
  pub name : Bytes
  pub value : Option Expr

pub record EnumTree : Type 0 where
  pub name : Bytes
  pub entries : List EntryTree

-- the name and, where there is one, the base; the members with the texts of their types
pub record MemberTree : Type 0 where
  pub name : Bytes
  pub type_text : Bytes

pub record StructTree : Type 0 where
  pub ids : List Bytes
  pub members : List MemberTree

pub record ParamElem : Type 0 where
  pub name : Bytes
  pub type_text : Bytes
  pub is_array : Bool
  pub default : Option Expr

pub record ParamAssign : Type 0 where
  pub name : Bytes
  pub value : Expr

-- The instances of a named definition are those that are written behind its body.
mutual
  pub data Body : Type 0 where
    end : Body
    elem : BodyElem → Body → Body

  pub data BodyElem : Type 0 where
    anon_def : ComponentType → Body → List Inst → BodyElem
    named_def : ComponentType → Bytes → List ParamElem → Body → List Inst → BodyElem
    explicit_inst : Bytes → List ParamAssign → List Inst → Position → BodyElem
    local_property : LocalProperty → BodyElem
    dynamic_property : BodyElem
    enum_def : EnumTree → BodyElem
    struct_def : StructTree → BodyElem
    other_elem : BodyElem
