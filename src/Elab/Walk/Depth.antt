-- ===== src/Elab/Walk/Depth.antt =====
-- The nesting that a description needs: components that do not instantiate themselves, not even
-- through others, are elaborated in time.
use native.Mathlib.Nat.{mul-le-mul_right}
use systemrdl_toolkit.Base.{
  ℕ, zero, suc, ◌+◌, ◌*◌, ◌<◌, ◌≤◌, max, Bool, true, false, List, [], ◌∷◌, Bytes, Option, none,
  some, ◌≡◌, subst, arith,
}
use systemrdl_toolkit.Elab.Model.{
  NodeInfo, NodeKind, Node, node, field, Properties, Position, FieldInfo,
}
use systemrdl_toolkit.Elab.ExprTree.{Expr}
use systemrdl_toolkit.Elab.Table.{find_entry}
use systemrdl_toolkit.Elab.Tree.{
  Inst, LocalProperty, normal_prop, encode_prop, prop_mod, Body, end, elem, anon_def, explicit_inst,
  local_property, ParamAssign,
}
use systemrdl_toolkit.Elab.Definitions.{
  ComponentDefinition, TypeTables, Definitions, collect_component_definitions, get_component_type,
}
use systemrdl_toolkit.Elab.State.{on_option}
use systemrdl_toolkit.Elab.State.InTime.{
  Timely, Timely-bind, Timely-found, timely, InTime, evaluating-InTime,
}
use systemrdl_toolkit.Elab.Assign.{
  create_elaborated_node, unknown_type, given_range, elaborate_field_bit_range, elaborate_range,
  elaborate_reset, elaborate_local_property_assignment,
}
use systemrdl_toolkit.Elab.Walk.{
  Filler, size_node, range_node, undefined_component, elaborate_root, no_addrmap, fill_node,
  base_address, stride_of, dimension_of, single_instance, array_elements, array_instance,
  component_instance, component_instances, assign_parameters, elaborate_explicit_component_inst,
  elaborate_elem, elaborate_elems, elaborate_component_body, top_addrmap, elaborate_top, elaborate,
}

range-Timely :
    (inst : Inst) (info : NodeInfo) (f : FieldInfo) → Timely (elaborate_field_bit_range inst info f)
unfolding elaborate_field_bit_range elaborate_range elaborate_reset given_range
range-Timely inst info f = search timely depth 12

range_node-Timely :
    (ranged : Bool) (inst : Inst) (info : NodeInfo) (kind : NodeKind)
    → Timely (range_node ranged inst info kind)
unfolding range_node
range_node-Timely true inst info (field f) = search (timely, range-Timely)
range_node-Timely _ inst info _ = search timely

size_node-Timely : (n : Node) → Timely (size_node n)
unfolding size_node
size_node-Timely n = search timely

create-Timely : (type : Bytes) → Timely (create_elaborated_node type)
unfolding create_elaborated_node unknown_type
create-Timely type = search timely

local_property-Timely :
    (types : TypeTables) (prop : LocalProperty) (parent : Node)
    → Timely (elaborate_local_property_assignment types prop parent)
unfolding elaborate_local_property_assignment
local_property-Timely types (normal_prop name none) (node info kind children) = search timely
local_property-Timely types (normal_prop name (some rhs)) parent = search timely
local_property-Timely types (encode_prop name) parent = search timely
local_property-Timely types prop_mod parent = search timely

ruleset parts = (timely, range_node-Timely, size_node-Timely, create-Timely, local_property-Timely)

-- instances whose body needs no more nesting than is left
module _ (fill : Filler) (body : Body) (inner : (n : Node) → Timely (fill body n)) where
  fill_node-Timely :
      (ranged : Bool) (inst : Inst) (info : NodeInfo) (kind : NodeKind)
      → Timely (fill_node fill ranged inst body info kind)
  unfolding fill_node
  fill_node-Timely ranged inst info kind = search (parts, inner)

  single-Timely :
      (ranged : Bool) (type : Bytes) (inst : Inst) (parent : Node) (current : ℕ)
      → Timely (single_instance fill ranged type body inst parent current)
  unfolding single_instance base_address
  single-Timely ranged type inst parent current = search (parts, fill_node-Timely)

  elements-Timely :
      (ranged : Bool) (type : Bytes) (inst : Inst) (base stride dimension left i : ℕ)
      (parent : Node)
      → Timely (array_elements fill ranged type body inst base stride dimension left i parent)
  unfolding array_elements
  elements-Timely ranged type inst base stride dimension zero i parent = search timely
  elements-Timely ranged type inst base stride dimension (suc left) i parent =
      Timely-bind (create-Timely type) λ created.
        Timely-bind (search (parts, fill_node-Timely))
          (elements-Timely ranged type inst base stride dimension left (suc i))

  array-Timely :
      (ranged : Bool) (type : Bytes) (inst : Inst) (suffix : Expr) (parent : Node) (current : ℕ)
      → Timely (array_instance fill ranged type body inst suffix parent current)
  unfolding array_instance dimension_of base_address stride_of
  array-Timely ranged type inst suffix parent current = search (parts, elements-Timely)

  instances-Timely :
      (ranged : Bool) (type : Bytes) (insts : List Inst) (parent : Node) (current : ℕ)
      → Timely (component_instances fill ranged type body insts parent current)
  unfolding component_instances component_instance
  instances-Timely ranged type [] parent current = search timely
  instances-Timely ranged type (inst ∷ insts) parent current =
      Timely-bind (search (timely, array-Timely, single-Timely))
        λ next. instances-Timely ranged type insts next.0 next.1

-- how deep the anonymous definitions of a body are nested
unfoldable pub nesting : Body → ℕ
nesting end = 0
nesting (elem (anon_def type body insts) rest) = max (suc (nesting body)) (nesting rest)
nesting (elem _ rest) = nesting rest

-- Whatever component a body instantiates, in its anonymous definitions too, has a lower rank.
unfoldable pub Below : (Bytes → ℕ) → Definitions → ℕ → Body → Type 0
unfolding find_entry
Below rank definitions r end = Unit
Below rank definitions r (elem (anon_def type body insts) rest) =
    Below rank definitions r body × Below rank definitions r rest
Below rank definitions r (elem (explicit_inst name assigns insts position) rest) =
    ((def : ComponentDefinition) → find_entry name definitions ≡ some def → rank name < r)
    × Below rank definitions r rest
Below rank definitions r (elem _ rest) = Below rank definitions r rest

-- Components instantiate components of lower ranks only, and nest at most `k` anonymous
-- definitions.
abbrev pub IsRanked : (Bytes → ℕ) → Definitions → ℕ → Type 0
IsRanked rank definitions k =
    (name : Bytes) (def : ComponentDefinition)
    → find_entry name definitions ≡ some def
    → Below rank definitions (rank name) def.def_ctx × (nesting def.def_ctx ≤ k)

rank-step : (a r k n depth : ℕ) → a < r → n ≤ k → r * suc k < suc depth → n + a * suc k < depth
rank-step a r k n depth h l e =
    let m : suc a * suc k ≤ r * suc k = mul-le-mul_right (suc k) h in
    let s : suc a * suc k ≡ a * suc k + suc k = grind arith in omega (arith, m, s)

module _ (rank : Bytes → ℕ) (definitions : Definitions) (types : TypeTables) (k : ℕ)
    (ranked : IsRanked rank definitions k) where
  -- the loop over a body, where `depth` is enough for what is nested in it
  module _ (depth r : ℕ)
      (inner : (r' : ℕ) (body : Body)
        → Below rank definitions r' body
        → nesting body + r' * suc k < depth
        → (n : Node) → Timely (elaborate_component_body definitions types depth body n)) where
    explicit-Timely :
        (name : Bytes) (assigns : List ParamAssign) (insts : List Inst) (position : Option Position)
        (parent : Node) (current : ℕ)
        → ((def : ComponentDefinition) → find_entry name definitions ≡ some def → rank name < r)
        → r * suc k < suc depth
        → Timely (
            elaborate_explicit_component_inst definitions types
              (elaborate_component_body definitions types depth)
              name
              assigns
              insts
              position
              parent
              current)
    unfolding elaborate_explicit_component_inst undefined_component assign_parameters
    explicit-Timely name assigns insts position parent current lower enough =
        Timely-found (find_entry name definitions) (search timely) λ def found.
          Timely-bind (search timely) λ _.
            Timely-bind
              (instances-Timely (elaborate_component_body definitions types depth) def.def_ctx
                (λ n.
                  inner (rank name) def.def_ctx (ranked name def found).0
                    (rank-step (rank name) r k (nesting def.def_ctx) depth (lower def found)
                      (ranked name def found).1 enough)
                    n)
                false def.type insts parent current)
              (search timely)

    elems-Timely :
        (body : Body) (n : Node) (current : ℕ)
        → Below rank definitions r body
        → nesting body + r * suc k < suc depth
        → Timely (
            elaborate_elems definitions types
              (elaborate_component_body definitions types depth)
              body
              n
              current)
    unfolding elaborate_elems elaborate_elem Below nesting
    elems-Timely end n current below enough = search timely
    elems-Timely (elem (anon_def type body insts) rest) n current below enough =
        Timely-bind
          (instances-Timely (elaborate_component_body definitions types depth) body
            (inner r body below.0 (omega arith)) true (get_component_type type) insts n current)
          λ next. elems-Timely rest next.0 next.1 below.1 (omega arith)
    elems-Timely (elem (explicit_inst name assigns insts position) rest) n current below enough =
        Timely-bind
          (explicit-Timely name assigns insts (some position) n current below.0 (omega arith))
          λ next. elems-Timely rest next.0 next.1 below.1 enough
    elems-Timely (elem (local_property prop) rest) n current below enough =
        Timely-bind (search parts) λ next. elems-Timely rest next.0 next.1 below enough
    elems-Timely (elem _ rest) n current below enough =
        Timely-bind (search timely) λ next. elems-Timely rest next.0 next.1 below enough

  body-Timely :
      (depth r : ℕ) (body : Body)
      → Below rank definitions r body
      → nesting body + r * suc k < depth
      → (n : Node) → Timely (elaborate_component_body definitions types depth body n)
  unfolding elaborate_component_body
  body-Timely zero r body below enough n = absurd (omega arith)
  body-Timely (suc depth) r body below enough n =
      elems-Timely depth r (body-Timely depth) body n 0 below enough

  -- the third pass
  top-Timely :
      (depth r : ℕ) (root : Body) (name : Bytes) (body : Body)
      → top_addrmap root ≡ some (name, body)
      → Below rank definitions r body
      → nesting body + r * suc k < depth
      → Timely (elaborate_top depth definitions types root)
  unfolding elaborate_top no_addrmap
  top-Timely depth r root name body found below enough =
      Timely-found (top_addrmap root) (search timely) λ top e.
        let same : body ≡ top.1 = ground (arith, e, found) in
        Timely-bind
          (body-Timely depth r top.1 (subst (Below rank definitions r) same below)
            (subst (λ b. nesting b + r * suc k < depth) same enough) _)
          (search timely)

-- Where the components of a description instantiate one another in a well-founded way, the
-- elaboration of its address map ends: it returns, or throws, within the nesting of bodies that it
-- is given. The hypotheses give every component a rank, components instantiate only components of
-- lower ranks and the address map only such of a rank below `r`; a component nests at most `k`
-- anonymous definitions, and the nesting that is given is more than that of the address map and
-- `k + 1` for each rank.
pub elaborate-InTime :
    (rank : Bytes → ℕ) (k r depth : ℕ) (root : Body) (left_values : Properties)
    (definitions : Definitions) (name : Bytes) (body : Body)
    → collect_component_definitions left_values root [] ≡ some definitions
    → IsRanked rank definitions k
    → top_addrmap root ≡ some (name, body)
    → Below rank definitions r body
    → nesting body + r * suc k < depth
    → InTime (elaborate depth (some root) left_values)
unfolding elaborate elaborate_root on_option
elaborate-InTime rank k r depth root left_values definitions name body collected ranked top below
      enough =
    evaluating-InTime _ _ _ λ types et. evaluating-InTime _ _ _ λ defs ed.
      let same : definitions ≡ defs = ground (arith, ed, collected) in
      (top-Timely rank defs types k (subst (λ d. IsRanked rank d k) same ranked) depth r root name
          body top (subst (λ d. Below rank d r body) same below) enough).in_time
        _
