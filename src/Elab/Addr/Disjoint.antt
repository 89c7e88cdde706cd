-- ===== src/Elab/Addr/Disjoint.antt =====
-- A tree of instances that passes is one whose instances share no address.
use systemrdl_toolkit.Base.{
  ℕ, ◌+◌, ◌≤◌, ◌<◌, ◌≡◌, refl, max, Bool, true, false, ◌&&◌, [], ◌↔◌, ltb, leb, if◌then◌else◌, All,
  arith, Bool-cases, inl, inr,
}
use systemrdl_toolkit.Elab.Model.{NodeInfo, NodeKind, Node, Nodes, node, nil, cons, word}
use systemrdl_toolkit.Elab.Ranges.{append_empty_iff, count_if, each_pair_iff}
use systemrdl_toolkit.Elab.Addr.{
  addressable_children, instances_overlap, report_instances, end_address, is_container, kind_of,
  check_instance_address_overlaps, validate_instance_addresses, validate_containers,
}

-- the instance does not reach the end of the address space
abbrev pub Fits : NodeInfo → Type 0
Fits info = info.absolute_address + info.size ≤ word

-- address `a` belongs to the instance
abbrev pub occupies : ℕ → NodeInfo → Bool
occupies a info = leb info.absolute_address a && ltb a (info.absolute_address + info.size)

end_address_lem :
    (info : NodeInfo)
    → Fits info
    → 0 < info.size
    → end_address info + 1 ≡ info.absolute_address + info.size
end_address_lem info fits h = omega arith

reports_exact :
    (x y : NodeInfo)
    → Fits x
    → Fits y
    → (report_instances x y ≡ []) ↔ ((a : ℕ) → (occupies a x && occupies a y) ≡ false)
unfolding report_instances instances_overlap
reports_exact x y fx fy = (
  λ h a. ground (arith, end_address_lem x fx, end_address_lem y fy),
  λ h. ground (
    arith,
    end_address_lem x fx,
    end_address_lem y fy,
    h (max x.absolute_address y.absolute_address),
  ),
)

-- no address of a container belongs to two of its instances
abbrev pub IsDisjoint : Nodes → Type 0
IsDisjoint children = (a : ℕ) → count_if (occupies a) (addressable_children children) ≤ 1

pub check_instances_iff :
    (children : Nodes)
    → All Fits (addressable_children children)
    → (check_instance_address_overlaps children ≡ []) ↔ IsDisjoint children
unfolding check_instance_address_overlaps
check_instances_iff children fits =
    each_pair_iff report_instances occupies Fits reports_exact (addressable_children children) fits

-- A predicate on the children of every container of a tree that is walked.
unfoldable mutual
  pub Everywhere : (Nodes → Type 0) → Node → Type 0
  Everywhere P (node info kind children) = P children × EveryContainer P children

  pub EveryContainer : (Nodes → Type 0) → Nodes → Type 0
  EveryContainer P nil = Unit {0}
  EveryContainer P (cons child children) =
      (is_container (kind_of child) ≡ true → Everywhere P child) × EveryContainer P children

-- every instance with an address ends within the address space
abbrev pub AllFit : Nodes → Type 0
AllFit children = All Fits (addressable_children children)

-- the test of one child, from the test of what is below it
child_iff :
    (info : NodeInfo) (kind : NodeKind) (children : Nodes)
    → (is_container kind ≡ true → Everywhere AllFit (node info kind children))
    → (Everywhere AllFit (node info kind children)
        → (validate_instance_addresses (node info kind children) ≡ [])
          ↔ Everywhere IsDisjoint (node info kind children))
    → ((if is_container kind then validate_instance_addresses (node info kind children) else [])
        ≡ [])
      ↔ (is_container kind ≡ true → Everywhere IsDisjoint (node info kind children))
child_iff info kind children fits inner = elim (Bool-cases (is_container kind)) [
  | inl walked ↦ rw walked (λ h e. (inner (fits walked)).0 h, λ h. (inner (fits walked)).1 (h refl))
  | inr other ↦ rw other (λ h e. absurd (cc e), λ h. refl)
]

node_iff :
    (info : NodeInfo) (kind : NodeKind) (children : Nodes)
    → (EveryContainer AllFit children
        → (validate_containers children ≡ []) ↔ EveryContainer IsDisjoint children)
    → Everywhere AllFit (node info kind children)
    → (validate_instance_addresses (node info kind children) ≡ [])
      ↔ Everywhere IsDisjoint (node info kind children)
unfolding validate_instance_addresses Everywhere
node_iff info kind children inner fits =
    let both =
      append_empty_iff (check_instance_address_overlaps children) (validate_containers children) in
    let here = check_instances_iff children fits.0 in
    (
      λ h. (here.0 (both.0 h).0, (inner fits.1).0 (both.0 h).1),
      λ h. both.1 (here.1 h.0, (inner fits.1).1 h.1),
    )

validate_containers_iff :
    (children : Nodes)
    → EveryContainer AllFit children
    → (validate_containers children ≡ []) ↔ EveryContainer IsDisjoint children
unfolding validate_instance_addresses Everywhere
validate_containers_iff nil fits = (λ h. tt, λ h. refl)
validate_containers_iff (cons (node info kind inner) children) fits =
    let first =
      child_iff info kind inner fits.0 (node_iff info kind inner (validate_containers_iff inner)) in
    let later = validate_containers_iff children fits.1 in
    let both = append_empty_iff _ (validate_containers children) in
    (λ h. (first.0 (both.0 h).0, later.0 (both.0 h).1), λ h. both.1 (first.1 h.0, later.1 h.1))

-- In a tree whose instances end within the address space, no overlap is reported if and only if
-- in each container that is walked, the root, an address map or a register file, every address
-- belongs to at most one register, register file or memory.
pub validate_instance_addresses_iff :
    (root : Node)
    → Everywhere AllFit root
    → (validate_instance_addresses root ≡ []) ↔ Everywhere IsDisjoint root
validate_instance_addresses_iff (node info kind children) fits =
    node_iff info kind children (validate_containers_iff children) fits
