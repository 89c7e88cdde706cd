-- ===== src/Elab/Walk/Arrays.antt =====
-- The elements of an array of instances.
use systemrdl_toolkit.Base.{
  ℕ, zero, suc, Bool, true, List, Bytes, Option, none, some, ◌≡◌, refl, ap, ◌∙◌, sym, Option-cases,
  inl, inr, subst,
}
use systemrdl_toolkit.Elab.Model.{
  NodeInfo, NodeKind, Node, Nodes, node, nil, cons, reg, field, mem, FieldInfo, Properties,
  ElaborationError, add64,
}
use systemrdl_toolkit.Elab.Lookup.{info_of}
use systemrdl_toolkit.Elab.NodeSize.{calculate_node_size}
use systemrdl_toolkit.Elab.Reg.Size.{calculate_register_size}
use systemrdl_toolkit.Elab.ExprText.{mul64}
use systemrdl_toolkit.Elab.ExprTree.{Expr}
use systemrdl_toolkit.Elab.Tree.{Inst, Body}
use systemrdl_toolkit.Elab.Definitions.{TypeTables, Definitions}
use systemrdl_toolkit.Elab.State.{
  ElaboratorState, done, Elaborator, ◌>>=◌, return, on_option, evaluating,
}
use systemrdl_toolkit.Elab.State.Returns.{
  Ensures, Returns, Returns-bind, Returns-after, Returns-on_option, Returns-return, Returns-known,
  Returns-weaken,
}
use systemrdl_toolkit.Elab.Assign.{
  create_elaborated_node, node_kind_of, elaborate_field_bit_range, elaborate_range, elaborate_reset,
  given_range, automatic_range, set_reset,
}
use systemrdl_toolkit.Elab.Walk.{
  Filler, with_child, size_node, range_node, fill_node, element_info, array_elements,
  array_instance, dimension_of, base_address, stride_of, elaborate_component_body,
}
use systemrdl_toolkit.Elab.Walk.Keeps.{
  Grows, body-Grows, append_nodes, append_nodes_assoc, append_nodes-nil, add_child-append,
}

-- all members but the size and the properties
abbrev pub IsPlaced : NodeInfo → NodeInfo → Type 0
IsPlaced info j = j ≡ record info { size = j.size; properties = j.properties }

IsPlaced-properties :
    (info j : NodeInfo) (ps : Properties)
    → IsPlaced info j
    → IsPlaced info (record j { properties = ps })
IsPlaced-properties info j ps h = ap (λ (i : NodeInfo). record i { properties = ps }) h

IsPlaced-size :
    (info j : NodeInfo) (size : ℕ) → IsPlaced info j → IsPlaced info (record j { size = size })
IsPlaced-size info j size h = ap (λ (i : NodeInfo). record i { size = size }) h

abbrev IsPlacedField : NodeInfo → NodeInfo × FieldInfo → Type 0
IsPlacedField info r = IsPlaced info r.0

bit_range-IsPlaced :
    (inst : Inst) (info : NodeInfo) (f : FieldInfo)
    → Returns (IsPlacedField info) (elaborate_field_bit_range inst info f)
unfolding elaborate_field_bit_range elaborate_range elaborate_reset given_range automatic_range
    set_reset
bit_range-IsPlaced inst info f =
    Returns-bind {P = IsPlacedField info}
      (Returns-on_option _ (Returns-return _ refl) λ exprs.
        Returns-after _ λ msb. Returns-after _ λ lsb. Returns-after _ λ _. Returns-return _ refl)
      λ ranged h.
        Returns-on_option _ (Returns-return _ h)
          λ e. Returns-after _ λ value. Returns-return _ (IsPlaced-properties info ranged.0 _ h)

range_node-IsPlaced :
    (ranged : Bool) (inst : Inst) (info : NodeInfo) (kind : NodeKind)
    → Returns (λ n. IsPlaced info (info_of n)) (range_node ranged inst info kind)
unfolding range_node
range_node-IsPlaced true inst info (field f) =
    Returns-bind (bit_range-IsPlaced inst info f) λ ranged h. Returns-return _ h
range_node-IsPlaced _ inst info _ = Returns-return _ refl

abbrev IfPlaced : NodeInfo → Option (Node × List ElaborationError) → Type 0
IfPlaced info none = Unit
IfPlaced info (some sized) = IsPlaced info (info_of sized.0)

resized :
    (info j : NodeInfo) (size : ℕ) (ps : Properties)
    → IsPlaced info j
    → IsPlaced info (record j { size = size; properties = ps })
resized info j size ps h = ap (λ (i : NodeInfo). record i { size = size; properties = ps }) h

sized-IsPlaced :
    (info : NodeInfo) (ps : Properties) (n : Node)
    → IsPlaced info (info_of n)
    → IfPlaced info (calculate_node_size ps n)
unfolding calculate_node_size
sized-IsPlaced info ps (node j (reg r) children) h =
    elim (Option-cases (calculate_register_size r j children)) [
      | inl e ↦ rw (e, IfPlaced, calculate_node_size) tt
      | inr (s, e) ↦ rw (e, IfPlaced, calculate_node_size) (resized info j _ _ h)
    ]
sized-IsPlaced info ps (node j (mem m) children) h = resized info j _ _ h
sized-IsPlaced info ps (node j _ children) h = resized info j _ _ h

evaluating-Placed :
    (info : NodeInfo) (f : Properties → Option (Node × List ElaborationError))
    → ((ps : Properties) → IfPlaced info (f ps))
    → Returns (λ sized. IsPlaced info (info_of sized.0)) (evaluating f)
unfolding evaluating
evaluating-Placed info f h = record {
  ensures = λ st. elim (Option-cases (f st.current_parameter_values)) [
    | inl e ↦ rw e tt
    | inr (s, e) ↦ rw e (subst (IfPlaced info) e (h st.current_parameter_values))
  ];
}

size_node-IsPlaced :
    (info : NodeInfo) (n : Node)
    → IsPlaced info (info_of n)
    → Returns (λ m. IsPlaced info (info_of m)) (size_node n)
unfolding size_node
size_node-IsPlaced info n h =
    Returns-bind (evaluating-Placed info _ λ ps. sized-IsPlaced info ps n h)
      λ sized k. Returns-after _ λ _. Returns-return _ k

Grows-IsPlaced :
    (info : NodeInfo) (n m : Node)
    → IsPlaced info (info_of n)
    → Grows n m
    → IsPlaced info (info_of m)
Grows-IsPlaced info n m h g =
    g.info_kept
    ∙ (IsPlaced-properties info (info_of n) (info_of m).properties h
        ∙ ap (λ (size : ℕ). record info { size = size; properties = (info_of m).properties })
            (sym (ap (λ (i : NodeInfo). i.size) g.info_kept)))

module _ (fill : Filler) (grows : (body : Body) (n : Node) → Returns (Grows n) (fill body n)) where
  fill_node-IsPlaced :
      (ranged : Bool) (inst : Inst) (body : Body) (info : NodeInfo) (kind : NodeKind)
      → Returns (λ n. IsPlaced info (info_of n)) (fill_node fill ranged inst body info kind)
  unfolding fill_node
  fill_node-IsPlaced ranged inst body info kind =
      Returns-bind (range_node-IsPlaced ranged inst info kind) λ placed h.
        Returns-bind (grows body placed)
          λ filled g. size_node-IsPlaced info filled (Grows-IsPlaced info placed filled h g)

-- the children with more behind them
abbrev pub append_children : Node → Nodes → Node
append_children (node info kind children) added = node info kind (append_nodes children added)

abbrev pub count : Nodes → ℕ
count nil = 0
count (cons n ns) = suc (count ns)

-- from the element `i` on, every child is the element of its index
abbrev pub AreElements : (ℕ → NodeInfo) → ℕ → Nodes → Type 0
AreElements element i nil = Unit
AreElements element i (cons n ns) =
    IsPlaced (element i) (info_of n) × AreElements element (suc i) ns

with_child-append : (m child : Node) → with_child m child ≡ append_children m (cons child nil)
unfolding with_child
with_child-append (node info kind children) child =
    ap (node info kind) (add_child-append children child)

append_children-nil : (m : Node) → m ≡ append_children m nil
append_children-nil (node info kind children) =
    ap (node info kind) (sym (append_nodes-nil children))

append_children-cons :
    (m child : Node) (ns : Nodes)
    → append_children (append_children m (cons child nil)) ns ≡ append_children m (cons child ns)
append_children-cons (node info kind children) child ns =
    ap (node info kind) (append_nodes_assoc children (cons child nil) ns)

create-known :
    (type : Bytes) (kind : NodeKind)
    → node_kind_of type ≡ some kind
    → create_elaborated_node type ≡ return (some kind)
unfolding create_elaborated_node on_option
create-known type kind h = rw h refl

create-Returns :
    (type : Bytes) (kind : NodeKind)
    → node_kind_of type ≡ some kind
    → Returns (λ c. c ≡ some kind) (create_elaborated_node type)
create-Returns type kind h =
    subst (Returns (λ c. c ≡ some kind)) (sym (create-known type kind h)) (Returns-return _ refl)

info_of-with_child : (m child : Node) → info_of (with_child m child) ≡ info_of m
unfolding with_child
info_of-with_child (node info kind children) child = refl

module _ (fill : Filler) (grows : (body : Body) (n : Node) → Returns (Grows n) (fill body n))
    (ranged : Bool) (type : Bytes) (kind : NodeKind) (known : node_kind_of type ≡ some kind)
    (body : Body) (inst : Inst) (address base stride dimension : ℕ) where
  -- `m` with elements added, from the element `i` on
  abbrev HasElements : ℕ → ℕ → Node → Node → Type 0
  HasElements left i m r =
      (children : Nodes) × (r ≡ append_children m children)
      × (count children ≡ left)
      × AreElements (element_info type inst address base stride dimension) i children

  grown :
      (left i : ℕ) (m child r : Node)
      → IsPlaced (element_info type inst address base stride dimension i) (info_of child)
      → HasElements left (suc i) (with_child m child) r
      → HasElements (suc left) i m r
  grown left i m child r h (children, e, c, a) = (
    cons child children,
    e
        ∙ (ap (λ n. append_children n children) (with_child-append m child)
            ∙ append_children-cons m child children),
    ap suc c,
    (h, a),
  )

  weaken-added :
      (left i : ℕ) (m child added : Node) {method : Elaborator Node}
      → added ≡ with_child m child
      → IsPlaced (element_info type inst address base stride dimension i) (info_of child)
      → Returns (HasElements left (suc i) added) method
      → Returns (HasElements (suc left) i m) method
  weaken-added left i m child added same h k =
      Returns-weaken k
        λ r s. grown left i m child r h (subst (λ n. HasElements left (suc i) n r) same s)

  -- `m` with the element `i`
  abbrev HasElement : ℕ → Node → Node → Type 0
  HasElement i m r =
      (child : Node) × (r ≡ with_child m child)
      × IsPlaced (element_info type inst address base stride dimension i) (info_of child)

  element-HasElement :
      (i : ℕ) (m : Node)
      → (info_of m).absolute_address ≡ address
      → Returns (HasElement i m) (
          fill_node fill ranged inst body
            (element_info type inst (info_of m).absolute_address base stride dimension i)
            kind
          >>= λ filled. return (with_child m filled))
  element-HasElement i m at =
      Returns-bind (fill_node-IsPlaced fill grows ranged inst body _ kind) λ filled h.
        Returns-return _ (
          filled,
          refl,
          subst (λ a. IsPlaced (element_info type inst a base stride dimension i) (info_of filled))
              at h,
        )

  elements-HasElements :
      (left i : ℕ) (m : Node)
      → (info_of m).absolute_address ≡ address
      → Returns
          (HasElements left i m)
          (array_elements fill ranged type body inst base stride dimension left i m)
  unfolding array_elements
  elements-HasElements zero i m at = Returns-return m (nil, append_children-nil m, refl, tt)
  elements-HasElements (suc left) i m at =
      Returns-bind {P = λ c. c ≡ some kind} (create-Returns type kind known) λ created e.
        Returns-bind {P = HasElement i m}
          (Returns-known kind created _ _ e (element-HasElement i m at))
          λ added (child, same, h). weaken-added left i m child added same h (
            elements-HasElements left (suc i) added (
              ap (λ n. (info_of n).absolute_address) same
              ∙ (ap (λ (j : NodeInfo). j.absolute_address) (info_of-with_child m child) ∙ at)))

  -- what an array leaves of its parent, and the address behind it
  abbrev pub IsArray : Node → Node × ℕ → Type 0
  IsArray parent r =
      (children : Nodes) × (r.0 ≡ append_children parent children)
      × (count children ≡ dimension)
      × AreElements (element_info type inst address base stride dimension) 0 children
      × (r.1 ≡ add64 base (mul64 dimension stride))

  instance-IsArray :
      (suffix : Expr) (parent : Node) (current : ℕ) (st : ElaboratorState)
      → (info_of parent).absolute_address ≡ address
      → dimension_of suffix st ≡ done dimension st
      → base_address inst current st ≡ done base st
      → stride_of inst st ≡ done stride st
      → Ensures
          (IsArray parent)
          (array_instance fill ranged type body inst suffix parent current st)
  unfolding array_instance ◌>>=◌
  instance-IsArray suffix parent current st at hd hb hs = rw hd (
      rw hb (
        rw hs (
          (Returns-bind (elements-HasElements dimension 0 parent at) λ filled (children, e, c, a).
              Returns-return {P = IsArray parent} _ (children, e, c, a, refl)).ensures
            st)))

-- An array of instances of a known type, where its elaboration returns, adds as many children as
-- its dimension says behind those of the parent. The child with the index `i` is named
-- `name[i]`, has the type and the place in the source of the instance, the dimension and the index
-- `i`, and lies at the parent's address plus the base address plus `i` strides, modulo 2 ^ 64;
-- only its size and properties depend on the body. The address that is reached is the base
-- address plus a stride for each element. The hypotheses name the dimension, the base address and
-- the stride that are read from the instance.
pub array_instance-elements :
    (definitions : Definitions) (types : TypeTables) (depth : ℕ) (ranged : Bool) (type : Bytes)
    (kind : NodeKind) (body : Body) (inst : Inst) (suffix : Expr) (parent : Node)
    (current dimension base stride : ℕ) (st : ElaboratorState)
    → node_kind_of type ≡ some kind
    → dimension_of suffix st ≡ done dimension st
    → base_address inst current st ≡ done base st
    → stride_of inst st ≡ done stride st
    → Ensures
        (λ r.
          (children : Nodes) × (r.0 ≡ append_children parent children)
          × (count children ≡ dimension)
          × AreElements
              (element_info type inst (info_of parent).absolute_address base stride dimension)
              0
              children
          × (r.1 ≡ add64 base (mul64 dimension stride)))
        (array_instance
          (elaborate_component_body definitions types depth)
          ranged
          type
          body
          inst
          suffix
          parent
          current
          st)
array_instance-elements definitions types depth ranged type kind body inst suffix parent current
      dimension base stride st known hd hb hs =
    instance-IsArray (elaborate_component_body definitions types depth)
      (body-Grows definitions types depth) ranged type kind known body inst
      (info_of parent).absolute_address base stride dimension suffix parent current st refl hd hb hs
