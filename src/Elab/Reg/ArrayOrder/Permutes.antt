-- ===== src/Elab/Reg/ArrayOrder/Permutes.antt =====
-- Grouping and sorting keep every field that needs a position, once.
use systemrdl_toolkit.Base.{
  ◌+◌, ◌≡◌, refl, ap, ◌∙◌, Bool, List, [], ◌∷◌, ◌++◌, Bytes, eq_bytes, if◌then◌else◌, arith, inl,
  inr, Bool-cases,
}
use systemrdl_toolkit.Elab.Ranges.{count_if}
use systemrdl_toolkit.Elab.Reg.ArrayOrder.{
  Ref, Groups, push_group, field_groups, insert, sort, base_name, less_bytes,
}

pub count_if-append {ℓ} :
    {A : Type ℓ} (p : A → Bool) (xs ys : List A)
    → count_if p (xs ++ ys) ≡ count_if p xs + count_if p ys
unfolding count_if
count_if-append p [] ys = omega arith
count_if-append p (x ∷ xs) ys = omega (arith, count_if-append p xs ys)

-- the fields of all groups, in the order in which they are placed
abbrev pub in_order : Groups → List Ref
in_order [] = []
in_order ((name, refs) ∷ groups) = sort refs ++ in_order groups

module _ (p : Ref → Bool) where
  count_if-insert : (r : Ref) (refs : List Ref) → count_if p (insert r refs) ≡ count_if p (r ∷ refs)
  unfolding insert count_if
  count_if-insert r [] = refl
  count_if-insert r (q ∷ refs) = ground (arith, count_if-insert r refs)

  count_if-sort : (refs : List Ref) → count_if p (sort refs) ≡ count_if p refs
  unfolding sort count_if
  count_if-sort [] = refl
  count_if-sort (r ∷ refs) =
      count_if-insert r (sort refs) ∙ ap (λ n. (if p r then 1 else 0) + n) (count_if-sort refs)

  count_if-none : count_if p [] ≡ 0
  unfolding count_if
  count_if-none = refl

  count_if-one : (r : Ref) → count_if p (r ∷ []) ≡ (if p r then 1 else 0)
  unfolding count_if
  count_if-one r = omega arith

  count_if-group :
      (refs : List Ref) (groups : Groups)
      → count_if p (sort refs ++ in_order groups) ≡ count_if p refs + count_if p (in_order groups)
  count_if-group refs groups =
      count_if-append p (sort refs) (in_order groups)
      ∙ ap (λ n. n + count_if p (in_order groups)) (count_if-sort refs)

  count_if-push_group :
      (name : Bytes) (r : Ref) (groups : Groups)
      → count_if p (in_order (push_group name r groups))
        ≡ (if p r then 1 else 0) + count_if p (in_order groups)
  unfolding push_group
  count_if-push_group name r [] = omega (
    arith,
    count_if-append p (sort (r ∷ [])) [],
    count_if-sort (r ∷ []),
    count_if-one r,
    count_if-none,
  )
  count_if-push_group name r ((key, refs) ∷ groups) = elim (Bool-cases (eq_bytes key name)) [
    | inl same ↦ rw same (
        omega (
          arith,
          count_if-group (refs ++ r ∷ []) groups,
          count_if-append p refs (r ∷ []),
          count_if-one r,
          count_if-group refs groups,
        ))
    | inr other ↦ rw other (elim (Bool-cases (less_bytes name key)) [
      | inl less ↦ rw less (
          omega (
            arith,
            count_if-append p (sort (r ∷ [])) (in_order ((key, refs) ∷ groups)),
            count_if-sort (r ∷ []),
            count_if-one r,
          ))
      | inr more ↦ rw more (
          omega (
            arith,
            count_if-append p (sort refs) (in_order (push_group name r groups)),
            count_if-append p (sort refs) (in_order groups),
            count_if-push_group name r groups,
          ))
    ])
  ]

  pub count_if-field_groups :
      (refs : List Ref) (groups : Groups)
      → count_if p (in_order (field_groups refs groups))
        ≡ count_if p refs + count_if p (in_order groups)
  unfolding field_groups count_if
  count_if-field_groups [] groups = omega arith
  count_if-field_groups (r ∷ refs) groups = omega (
    arith,
    count_if-field_groups refs (push_group (base_name r.1.info.inst_name) r groups),
    count_if-push_group (base_name r.1.info.inst_name) r groups,
  )
