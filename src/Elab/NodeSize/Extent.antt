-- ===== src/Elab/NodeSize/Extent.antt =====
-- A register file reaches as far as its children, and no farther.
use systemrdl_toolkit.Base.{
  ℕ, suc, ◌+◌, ◌-◌, ◌<◌, ◌≤◌, ◌≡◌, ◌⊎◌, inl, inr, refl, sym, ◌∙◌, subst, some, ltb, ◌==◌,
  if◌then◌else◌, arith, Bool-cases,
}
use systemrdl_toolkit.Elab.Model.{NodeInfo, Node, Nodes, nil, cons, word, add64, sub64}
use systemrdl_toolkit.Elab.Lookup.{info_of}
use systemrdl_toolkit.Elab.Lookup.Unique.{get_child?}
use systemrdl_toolkit.Elab.NodeSize.{max_address, calculate_regfile_size}

abbrev pub end_of : Node → ℕ
end_of n = (info_of n).absolute_address + (info_of n).size

-- every child begins at the address or behind it, and ends before the last one
abbrev pub LieFrom : ℕ → Nodes → Type 0
LieFrom address nil = Unit {0}
LieFrom address (cons child children) =
    (address ≤ (info_of child).absolute_address) × (end_of child < word) × LieFrom address children

-- the end of no child is beyond the bound
abbrev pub EndBy : ℕ → Nodes → Type 0
EndBy bound nil = Unit {0}
EndBy bound (cons child children) = (end_of child ≤ bound) × EndBy bound children

-- the bound is the end of some child
abbrev pub IsReached : ℕ → Nodes → Type 0
IsReached bound children =
    (i : ℕ) × (n : Node) × (get_child? children i ≡ some n) × (end_of n ≡ bound)

EndBy-le : (a b : ℕ) (children : Nodes) → a ≤ b → EndBy a children → EndBy b children
EndBy-le a b nil le h = tt
EndBy-le a b (cons child children) le h = (omega arith, EndBy-le a b children le h.1)

IsReached-from :
    (top : ℕ) (child : Node) (children : Nodes) (child_end : ℕ)
    → child_end ≡ end_of child
    → (bound : ℕ)
    → (bound ≡ (if ltb top child_end then child_end else top)) ⊎ IsReached bound children
    → (bound ≡ top) ⊎ IsReached bound (cons child children)
IsReached-from top child children child_end exact bound (inl same) =
    elim (Bool-cases (ltb top child_end)) [
      | inl up ↦ inr (0, child, refl, sym exact ∙ sym (rw up at same))
      | inr stays ↦ inl (rw stays at same)
    ]
IsReached-from top child children child_end exact bound (inr (i, n, at, e)) = inr (suc i, n, at, e)

max_address_lem :
    (address top : ℕ) (children : Nodes)
    → LieFrom address children
    → top < word
    → (top ≤ max_address top children)
      × (max_address top children < word)
      × EndBy (max_address top children) children
      × ((max_address top children ≡ top) ⊎ IsReached (max_address top children) children)
unfolding max_address
max_address_lem address top nil lie small = (omega arith, small, tt, inl refl)
max_address_lem address top (cons child children) lie small =
    let child_end = add64 (info_of child).absolute_address (info_of child).size in
    let exact : child_end ≡ end_of child = omega arith in
    let next : ℕ = if ltb top child_end then child_end else top in
    let next_small : next < word = ground arith in
    let next_up : (top ≤ next) × (end_of child ≤ next) = ground arith in
    let (up, below, ends, reached) = max_address_lem address next children lie.2 next_small in
    (
      omega arith,
      below,
      (omega arith, ends),
      IsReached-from top child children child_end exact (max_address next children) reached,
    )

-- Let the children of a register file, which has one at least, begin at its address or behind and
-- end before the last address of all. Then no child ends beyond the register file, and some child
-- ends where it does, or its size is four.
pub calculate_regfile_size_least :
    (info : NodeInfo) (first : Node) (rest : Nodes)
    → LieFrom info.absolute_address (cons first rest)
    → let size = calculate_regfile_size info (cons first rest) in
      EndBy (info.absolute_address + size) (cons first rest)
      × ((size ≡ 4) ⊎ IsReached (info.absolute_address + size) (cons first rest))
unfolding calculate_regfile_size
calculate_regfile_size_least info first rest lie =
    let children = cons first rest in
    let top = max_address 0 children in
    let (up, small, ends, reached) =
      max_address_lem info.absolute_address 0 children lie (omega arith) in
    let exact : sub64 top info.absolute_address ≡ top - info.absolute_address = omega arith in
    let Least : ℕ → Type 0 = λ size.
      EndBy (info.absolute_address + size) children
      × ((size ≡ 4) ⊎ IsReached (info.absolute_address + size) children) in
    let above : info.absolute_address ≤ top = omega arith in
    elim (Bool-cases (sub64 top info.absolute_address == 0)) [
      | inl empty ↦
          let size : calculate_regfile_size info children ≡ 4 =
            rw (empty, calculate_regfile_size) refl in
          subst Least (sym size)
            (EndBy-le top (info.absolute_address + 4) children (ground arith) ends, inl refl)
      | inr some_room ↦
          let size : calculate_regfile_size info children ≡ sub64 top info.absolute_address =
            rw (some_room, calculate_regfile_size) refl in
          let whole : top ≡ info.absolute_address + sub64 top info.absolute_address = omega arith in
          subst Least (sym size) (
            subst (λ n. EndBy n children) whole ends,
            inr (
                subst (λ n. IsReached n children) whole
                  (elim reached [ inl none_up ↦ absurd (ground arith) | inr r ↦ r ])),
          )
    ]
