-- ===== src/Elab/Walk/Keeps.antt =====
-- What the elaboration of a body leaves of the node that it fills.
use systemrdl_toolkit.Base.{
  ℕ, zero, suc, Bool, true, false, List, [], ◌∷◌, Bytes, none, some, ◌≡◌, refl, ap, ◌∙◌, sym,
  eq_bytes, Bool-cases, inl, inr, codes,
}
use systemrdl_toolkit.Elab.Model.{
  NodeInfo, NodeKind, Node, Nodes, node, nil, cons, reg, add_child, PropertyValue, text, integer,
  Properties,
}
use systemrdl_toolkit.Elab.Lookup.{info_of}
use systemrdl_toolkit.Elab.AddressMap.{get_node_type}
use systemrdl_toolkit.Elab.Addr.{kind_of}
use systemrdl_toolkit.Elab.ExprTree.{Expr}
use systemrdl_toolkit.Elab.Tree.{
  Inst, LocalProperty, normal_prop, encode_prop, prop_mod, Body, end, elem, BodyElem, anon_def,
  explicit_inst, local_property,
}
use systemrdl_toolkit.Elab.Definitions.{TypeTables, Definitions, get_component_type}
use systemrdl_toolkit.Elab.State.{ElaboratorState}
use systemrdl_toolkit.Elab.State.Returns.{
  Ensures, Returns, Returns-bind, Returns-after, Returns-on_option, Returns-return, Returns-give_up,
}
use systemrdl_toolkit.Elab.Assign.{elaborate_local_property_assignment, with_regwidth}
use systemrdl_toolkit.Elab.Walk.{
  Filler, with_child, single_instance, array_elements, array_instance, component_instance,
  component_instances, elaborate_explicit_component_inst, undefined_component, elaborate_elem,
  elaborate_elems, elaborate_component_body,
}

abbrev pub children_of : Node → Nodes
children_of (node info kind children) = children

abbrev pub append_nodes : Nodes → Nodes → Nodes
append_nodes nil ms = ms
append_nodes (cons n ns) ms = cons n (append_nodes ns ms)

pub append_nodes_assoc :
    (ns ms ls : Nodes) → append_nodes (append_nodes ns ms) ls ≡ append_nodes ns (append_nodes ms ls)
append_nodes_assoc nil ms ls = refl
append_nodes_assoc (cons n ns) ms ls = ap (cons n) (append_nodes_assoc ns ms ls)

pub append_nodes-nil : (ns : Nodes) → append_nodes ns nil ≡ ns
append_nodes-nil nil = refl
append_nodes-nil (cons n ns) = ap (cons n) (append_nodes-nil ns)

pub add_child-append : (ns : Nodes) (n : Node) → add_child ns n ≡ append_nodes ns (cons n nil)
unfolding add_child
add_child-append nil n = refl
add_child-append (cons m ns) n = ap (cons m) (add_child-append ns n)

-- All members of `m` but the properties are those of `n`, the class is the same, and children were
-- only added behind those that were there.
pub record Grows (n m : Node) : Type 0 where
  pub info_kept : info_of m ≡ record (info_of n) { properties = (info_of m).properties }
  pub class_kept : get_node_type (kind_of m) ≡ get_node_type (kind_of n)
  pub added : Nodes
  pub children_kept : children_of m ≡ append_nodes (children_of n) added

pub Grows-refl : (n : Node) → Grows n n
Grows-refl (node info kind children) = record {
  info_kept = refl;
  class_kept = refl;
  added = nil;
  children_kept = sym (append_nodes-nil children);
}

pub Grows-with_child : (n m child : Node) → Grows n m → Grows n (with_child m child)
unfolding with_child
Grows-with_child n (node info kind children) child g = record {
  info_kept = g.info_kept;
  class_kept = g.class_kept;
  added = append_nodes g.added (cons child nil);
  children_kept =
      add_child-append children child
      ∙ (ap (λ ns. append_nodes ns (cons child nil)) g.children_kept
          ∙ append_nodes_assoc (children_of n) g.added (cons child nil));
}

regwidth-class :
    (name : Bytes) (value : PropertyValue) (kind : NodeKind)
    → get_node_type (with_regwidth name value kind) ≡ get_node_type kind
regwidth-class name (integer n) (reg r) = elim (Bool-cases (eq_bytes name (codes "regwidth"))) [
  | inl h ↦ rw h refl
  | inr h ↦ rw h refl
]
regwidth-class name (text s) kind = refl
regwidth-class name _ _ = refl

-- a change of the properties, and within the class
Grows-properties :
    (n : Node) (info : NodeInfo) (kind kind' : NodeKind) (children : Nodes) (ps : Properties)
    → get_node_type kind' ≡ get_node_type kind
    → Grows n (node info kind children)
    → Grows n (node (record info { properties = ps }) kind' children)
Grows-properties n info kind kind' children ps same g = record {
  info_kept = ap (λ (i : NodeInfo). record i { properties = ps }) g.info_kept;
  class_kept = same ∙ g.class_kept;
  added = g.added;
  children_kept = g.children_kept;
}

local_property-Grows :
    (types : TypeTables) (prop : LocalProperty) (n m : Node)
    → Grows n m
    → Returns (Grows n) (elaborate_local_property_assignment types prop m)
unfolding elaborate_local_property_assignment
local_property-Grows types (normal_prop name (some rhs)) n (node info kind children) g =
    Returns-after _ λ value. Returns-return _ (
      Grows-properties n info kind (with_regwidth name value kind) children _
        (regwidth-class name value kind) g)
local_property-Grows types (normal_prop name none) n (node info kind children) g =
    Returns-return _ (Grows-properties n info kind kind children _ refl g)
local_property-Grows types (encode_prop name) n (node info kind children) g =
    Returns-return _ (Grows-properties n info kind kind children _ refl g)
local_property-Grows types prop_mod n m g = Returns-return _ g

-- the node of a pair
abbrev pub GrowsTo : Node → Node × ℕ → Type 0
GrowsTo n r = Grows n r.0

module _ (fill : Filler) (ranged : Bool) (type : Bytes) (body : Body) (n : Node) where
  single-Grows :
      (inst : Inst) (m : Node) (current : ℕ)
      → Grows n m
      → Returns (GrowsTo n) (single_instance fill ranged type body inst m current)
  unfolding single_instance
  single-Grows inst m current g = Returns-after _ λ created.
      Returns-on_option created (Returns-return _ g) λ kind.
        Returns-after _
          λ address. Returns-after _ λ filled. Returns-return _ (Grows-with_child n m filled g)

  elements-Grows :
      (inst : Inst) (base stride dimension left i : ℕ) (m : Node)
      → Grows n m
      → Returns (Grows n) (array_elements fill ranged type body inst base stride dimension left i m)
  unfolding array_elements
  elements-Grows inst base stride dimension zero i m g = Returns-return _ g
  elements-Grows inst base stride dimension (suc left) i m g = Returns-after _ λ created.
      Returns-bind {P = Grows n}
        (Returns-on_option created (Returns-return _ g)
          λ kind. Returns-after _ λ filled. Returns-return _ (Grows-with_child n m filled g))
        (elements-Grows inst base stride dimension left (suc i))

  array-Grows :
      (inst : Inst) (suffix : Expr) (m : Node) (current : ℕ)
      → Grows n m
      → Returns (GrowsTo n) (array_instance fill ranged type body inst suffix m current)
  unfolding array_instance
  array-Grows inst suffix m current g = Returns-after _ λ dimension. Returns-after _ λ base.
      Returns-after _ λ stride.
        Returns-bind {P = Grows n} (elements-Grows inst base stride dimension dimension 0 m g)
          λ filled h. Returns-return _ h

  instances-Grows :
      (insts : List Inst) (m : Node) (current : ℕ)
      → Grows n m
      → Returns (GrowsTo n) (component_instances fill ranged type body insts m current)
  unfolding component_instances component_instance
  instances-Grows [] m current g = Returns-return _ g
  instances-Grows (inst ∷ insts) m current g =
      Returns-bind {P = GrowsTo n}
        (Returns-on_option _ (single-Grows inst m current g)
          λ suffix. array-Grows inst suffix m current g)
        λ next h. instances-Grows insts next.0 next.1 h

module _ (definitions : Definitions) (types : TypeTables) (fill : Filler) (n : Node) where
  elem-Grows :
      (e : BodyElem) (m : Node) (current : ℕ)
      → Grows n m
      → Returns (GrowsTo n) (elaborate_elem definitions types fill e m current)
  unfolding elaborate_elem elaborate_explicit_component_inst undefined_component
  elem-Grows (anon_def type body insts) m current g =
      instances-Grows fill true (get_component_type type) body n insts m current g
  elem-Grows (explicit_inst name assigns insts position) m current g =
      Returns-on_option _ (Returns-after _ λ _. Returns-return _ g) λ def. Returns-after _ λ _.
        Returns-bind {P = GrowsTo n}
          (instances-Grows fill false def.type def.def_ctx n insts m current g)
          λ next h. Returns-after _ λ _. Returns-return _ h
  elem-Grows (local_property prop) m current g =
      Returns-bind {P = Grows n} (local_property-Grows types prop n m g)
        λ assigned h. Returns-return _ h
  elem-Grows _ m current g = Returns-return _ g

  elems-Grows :
      (body : Body) (m : Node) (current : ℕ)
      → Grows n m
      → Returns (Grows n) (elaborate_elems definitions types fill body m current)
  unfolding elaborate_elems
  elems-Grows end m current g = Returns-return _ g
  elems-Grows (elem e rest) m current g =
      Returns-bind {P = GrowsTo n} (elem-Grows e m current g)
        λ next h. elems-Grows rest next.0 next.1 h

pub body-Grows :
    (definitions : Definitions) (types : TypeTables) (depth : ℕ) (body : Body) (n : Node)
    → Returns (Grows n) (elaborate_component_body definitions types depth body n)
unfolding elaborate_component_body
body-Grows definitions types zero body n = Returns-give_up
body-Grows definitions types (suc depth) body n =
    elems-Grows definitions types (elaborate_component_body definitions types depth) n body n 0
      (Grows-refl n)

-- A body that is elaborated into a node, where that returns, leaves the node's name, type,
-- address, size, place in the source and array indices and its class as they were, and adds
-- children only behind those that the node has; it changes properties and the members of the
-- class.
pub elaborate_component_body-Grows :
    (definitions : Definitions) (types : TypeTables) (depth : ℕ) (body : Body) (n : Node)
    (st : ElaboratorState)
    → Ensures (Grows n) (elaborate_component_body definitions types depth body n st)
elaborate_component_body-Grows definitions types depth body n st =
    (body-Grows definitions types depth body n).ensures st
