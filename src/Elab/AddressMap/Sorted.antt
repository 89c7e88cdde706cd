-- ===== src/Elab/AddressMap/Sorted.antt =====
-- The address map is the tree's instances in the order of their addresses.
use systemrdl_toolkit.Base.{
  ℕ, ◌+◌, ◌≤◌, ◌≡◌, refl, ap, ◌∙◌, Bool, List, [], ◌∷◌, Bytes, Option, some, ltb, if◌then◌else◌,
  arith, inl, inr, Bool-cases, All, ltb→lt, ltb→le,
}
use systemrdl_toolkit.Elab.Model.{
  NodeInfo, NodeKind, Node, Nodes, node, nil, cons, addrmap, regfile, reg, field, mem,
}
use systemrdl_toolkit.Elab.Ranges.{count_if}
use systemrdl_toolkit.Elab.Reg.ArrayOrder.Permutes.{count_if-append}
use systemrdl_toolkit.Elab.Addr.{is_addressable}
use systemrdl_toolkit.Elab.AddressMap.{
  AddressEntry, get_hierarchical_path, address_entry, push_entry, is_walked, traverse_children,
  traverse, insert_entry, sort_entries, generate_address_map,
}

-- no entry has a lower address than one in front of it
abbrev pub Ascending : List AddressEntry → Type 0
Ascending [] = Unit {0}
Ascending (e ∷ entries) = All (λ f. e.address ≤ f.address) entries × Ascending entries

All-insert_entry :
    (P : AddressEntry → Type 0) (e : AddressEntry) (entries : List AddressEntry)
    → P e
    → All P entries
    → All P (insert_entry e entries)
unfolding insert_entry
All-insert_entry P e [] h hs = (h, tt)
All-insert_entry P e (f ∷ entries) h hs = elim (Bool-cases (ltb f.address e.address)) [
  | inl less ↦ rw (less, insert_entry) (hs.0, All-insert_entry P e entries h hs.1)
  | inr more ↦ rw (more, insert_entry) (h, hs)
]

All-le :
    (lo hi : ℕ) (entries : List AddressEntry)
    → lo ≤ hi
    → All (λ f. hi ≤ f.address) entries
    → All (λ f. lo ≤ f.address) entries
All-le lo hi [] h hs = tt
All-le lo hi (f ∷ entries) h hs = (omega arith, All-le lo hi entries h hs.1)

insert_entry-Ascending :
    (e : AddressEntry) (entries : List AddressEntry)
    → Ascending entries
    → Ascending (insert_entry e entries)
unfolding insert_entry
insert_entry-Ascending e [] h = (tt, tt)
insert_entry-Ascending e (f ∷ entries) h = elim (Bool-cases (ltb f.address e.address)) [
  | inl less ↦
      rw (less, insert_entry)
        (
          All-insert_entry (λ g. f.address ≤ g.address) e entries
              (omega (arith, ltb→lt f.address e.address less)) h.0,
          insert_entry-Ascending e entries h.1,
        )
  | inr more ↦
      let below = ltb→le f.address e.address more in
      rw (more, insert_entry) ((below, All-le e.address f.address entries below h.0), h)
]

sort_entries-Ascending : (entries : List AddressEntry) → Ascending (sort_entries entries)
unfolding sort_entries
sort_entries-Ascending [] = tt
sort_entries-Ascending (e ∷ entries) =
    insert_entry-Ascending e (sort_entries entries) (sort_entries-Ascending entries)

module _ (p : AddressEntry → Bool) where
  count_if-insert_entry :
      (e : AddressEntry) (entries : List AddressEntry)
      → count_if p (insert_entry e entries) ≡ count_if p (e ∷ entries)
  unfolding insert_entry count_if
  count_if-insert_entry e [] = refl
  count_if-insert_entry e (f ∷ entries) = ground (arith, count_if-insert_entry e entries)

  count_if-sort_entries :
      (entries : List AddressEntry) → count_if p (sort_entries entries) ≡ count_if p entries
  unfolding sort_entries count_if
  count_if-sort_entries [] = refl
  count_if-sort_entries (e ∷ entries) =
      count_if-insert_entry e (sort_entries entries)
      ∙ ap (λ n. (if p e then 1 else 0) + n) (count_if-sort_entries entries)

  -- how many registers, register files and memories of a tree have an entry that passes
  pub count_instances : Option Bytes → Nodes → ℕ
  count_instances parent nil = 0
  count_instances parent (cons (node info kind inner) children) =
      let path = get_hierarchical_path parent info in
      let below = count_instances (some path) inner in
      (if is_addressable kind then (if p (address_entry path info kind) then 1 else 0) else 0)
      + (if is_walked kind then below else 0)
      + count_instances parent children

  count_if-push_entry :
      (path : Bytes) (info : NodeInfo) (kind : NodeKind) (entries : List AddressEntry)
      → count_if p (push_entry path info kind entries)
        ≡ count_if p entries
          + (if is_addressable kind then (if p (address_entry path info kind) then 1 else 0) else 0)
  unfolding count_if
  count_if-push_entry path info addrmap entries = omega arith
  count_if-push_entry path info (field f) entries = omega arith
  count_if-push_entry path info (regfile stride) entries =
      omega (arith, count_if-append p entries (address_entry path info (regfile stride) ∷ []))
  count_if-push_entry path info (reg r) entries =
      omega (arith, count_if-append p entries (address_entry path info (reg r) ∷ []))
  count_if-push_entry path info (mem m) entries =
      omega (arith, count_if-append p entries (address_entry path info (mem m) ∷ []))

  count_if-traverse_children :
      (parent : Option Bytes) (children : Nodes) (entries : List AddressEntry)
      → count_if p (traverse_children parent children entries)
        ≡ count_if p entries + count_instances parent children
  unfolding traverse_children count_instances
  count_if-traverse_children parent nil entries = omega arith
  count_if-traverse_children parent (cons (node info kind inner) children) entries =
      let path = get_hierarchical_path parent info in
      let pushed = push_entry path info kind entries in
      let below = traverse_children (some path) inner pushed in
      elim (Bool-cases (is_walked kind)) [
        | inl walked ↦ rw walked (
            omega (
              arith,
              count_if-traverse_children parent children below,
              count_if-traverse_children (some path) inner pushed,
              count_if-push_entry path info kind entries,
            ))
        | inr other ↦ rw other (
            omega (
              arith,
              count_if-traverse_children parent children pushed,
              count_if-push_entry path info kind entries,
            ))
      ]

-- The address map of a tree holds exactly the registers, register files and memories that are
-- reached from the root without passing below a field, each as often as it stands in the tree, and
-- its addresses ascend.
pub generate_address_map-Ascending :
    (parent : Option Bytes) (root : Node)
    → Ascending (generate_address_map parent root)
      × ((p : AddressEntry → Bool)
          → count_if p (generate_address_map parent root)
            ≡ count_instances p parent (cons root nil))
unfolding generate_address_map traverse count_if
generate_address_map-Ascending parent root = (
  sort_entries-Ascending (traverse_children parent (cons root nil) []),
  λ p.
      count_if-sort_entries p (traverse_children parent (cons root nil) [])
      ∙ count_if-traverse_children p parent (cons root nil) []
      ∙ omega arith,
)
