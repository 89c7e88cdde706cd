-- ===== src/Elab/Lookup/Unique.antt =====
-- An address leads to the one instance that it belongs to.
use systemrdl_toolkit.Base.{
  ℕ, zero, suc, ◌+◌, ◌<◌, ◌≤◌, ◌≡◌, sym, ap, ◌∙◌, Bool, true, false, [], Option, none, some,
  if◌then◌else◌, ◌↔◌, arith, inl, inr, Bool-cases, All,
}
use systemrdl_toolkit.Elab.Model.{NodeInfo, Node, Nodes, node, nil, cons, word}
use systemrdl_toolkit.Elab.Ranges.{count_if}
use systemrdl_toolkit.Elab.Addr.{
  is_addressable, kind_of, addressable_children, check_instance_address_overlaps,
}
use systemrdl_toolkit.Elab.Addr.Disjoint.{Fits, occupies, check_instances_iff}
use systemrdl_toolkit.Elab.Lookup.{info_of, holds_address, find_child_by_address}

abbrev pub get_child? : Nodes → ℕ → Option Node
get_child? nil i = none
get_child? (cons child children) zero = some child
get_child? (cons child children) (suc i) = get_child? children i

-- The child at place `i` exists, is the given one, and the address belongs to it.
abbrev pub IsAt : ℕ → Nodes → Node → ℕ → Type 0
IsAt addr children n i = (get_child? children i ≡ some n) × (occupies addr (info_of n) ≡ true)

-- every child is a register, a register file or a memory, and ends before the last address
abbrev pub AreInstances : Nodes → Type 0
AreInstances nil = Unit {0}
AreInstances (cons child children) =
    (is_addressable (kind_of child) ≡ true)
    × ((info_of child).absolute_address + (info_of child).size < word)
    × AreInstances children

AreInstances-fit :
    (children : Nodes) → AreInstances children → All Fits (addressable_children children)
unfolding addressable_children
AreInstances-fit nil h = tt
AreInstances-fit (cons (node info kind inner) children) h =
    rw h.0 (omega (arith, h.1), AreInstances-fit children h.2)

holds_address-occupies :
    (addr : ℕ) (info : NodeInfo)
    → info.absolute_address + info.size < word
    → holds_address addr info ≡ occupies addr info
holds_address-occupies addr info fits = ground arith

-- the address belongs to the node, if there is one
abbrev occupied : ℕ → Option Node → Bool
occupied addr none = false
occupied addr (some n) = occupies addr (info_of n)

count_at :
    (addr : ℕ) (children : Nodes) (n : Node) (i : ℕ)
    → AreInstances children
    → IsAt addr children n i
    → 1 ≤ count_if (occupies addr) (addressable_children children)
unfolding addressable_children count_if
count_at addr nil n i h at = absurd (cc (at.0))
count_at addr (cons (node info kind inner) children) n zero h at =
    let same : occupies addr info ≡ true = ap (occupied addr) at.0 ∙ at.1 in
    rw (h.0, count_if, same) (omega arith)
count_at addr (cons (node info kind inner) children) n (suc i) h at =
    rw h.0 (omega (arith, count_at addr children n i h.2 at))

find-IsAt :
    (addr : ℕ) (children : Nodes) (n : Node) (i : ℕ)
    → AreInstances children
    → count_if (occupies addr) (addressable_children children) ≤ 1
    → IsAt addr children n i
    → find_child_by_address addr children ≡ some n
unfolding addressable_children count_if find_child_by_address
find-IsAt addr nil n i h once at = absurd (cc (at.0))
find-IsAt addr (cons (node info kind inner) children) n zero h once at =
    let same : occupies addr info ≡ true = ap (occupied addr) at.0 ∙ at.1 in
    rw (holds_address-occupies addr info h.1, same) at.0
find-IsAt addr (cons (node info kind inner) children) n (suc i) h once at =
    let counted : (if occupies addr info then 1 else 0)
          + count_if (occupies addr) (addressable_children children)
        ≤ 1 =
      rw (h.0, addressable_children) at once in
    let later : 1 ≤ count_if (occupies addr) (addressable_children children) =
      count_at addr children n i h.2 at in
    let other : occupies addr info ≡ false = ground arith in
    rw (holds_address-occupies addr info h.1, other)
      (find-IsAt addr children n i h.2 (omega arith) at)

IsAt-find :
    (addr : ℕ) (children : Nodes) (n : Node)
    → AreInstances children
    → find_child_by_address addr children ≡ some n
    → (i : ℕ) × IsAt addr children n i
unfolding find_child_by_address
IsAt-find addr nil n h found = absurd (cc found)
IsAt-find addr (cons (node info kind inner) children) n h found =
    let fits = holds_address-occupies addr info h.1 in
    elim (Bool-cases (holds_address addr info)) [
      | inl held ↦
          let first : some (node info kind inner) ≡ some n =
            rw (held, find_child_by_address) at found in
          (0, (first, sym (ap (occupied addr) first) ∙ sym fits ∙ held))
      | inr other ↦
          let later : find_child_by_address addr children ≡ some n =
            rw (other, find_child_by_address) at found in
          let (i, at) = IsAt-find addr children n h.2 later in (suc i, at)
    ]

-- Let all children of a container be registers, register files and memories that end before the last
-- address, and let the check report no overlap. Then the search for an address finds a
-- child if and only if the child is one of the container's and the address belongs to it.
pub find_child_by_address_iff :
    (addr : ℕ) (children : Nodes) (n : Node)
    → AreInstances children
    → check_instance_address_overlaps children ≡ []
    → (find_child_by_address addr children ≡ some n) ↔ ((i : ℕ) × IsAt addr children n i)
find_child_by_address_iff addr children n instances passes =
    let once = (check_instances_iff children (AreInstances-fit children instances)).0 passes addr in
    (IsAt-find addr children n instances, λ (i, at). find-IsAt addr children n i instances once at)
