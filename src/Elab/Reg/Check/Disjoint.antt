-- ===== src/Elab/Reg/Check/Disjoint.antt =====
-- A register whose fields pass is one whose fields lie within it and share no bit.
use systemrdl_toolkit.Base.{
  ℕ, ◌+◌, ◌≤◌, ◌<◌, ◌≡◌, refl, sym, ap, ◌∙◌, subst, max, false, ◌&&◌, List, [], ◌∷◌, ◌↔◌,
  if◌then◌else◌, All, arith,
}
use systemrdl_toolkit.Elab.Model.{Field, NodeInfo, RegInfo, Nodes, fields_of}
use systemrdl_toolkit.Elab.Ranges.{append_empty_iff, count_if, each_pair_iff}
use systemrdl_toolkit.Elab.Reg.Check.{
  check_field_boundary, check_boundaries_from, check_field_boundaries, check_field_overlaps,
  fields_overlap, not_reserved, report_overlap, validate_register_fields,
}
use systemrdl_toolkit.Elab.Reg.Gaps.{detect_and_fill_register_gaps}
use systemrdl_toolkit.Elab.Reg.Gaps.Coverage.{covers, covering}
use systemrdl_toolkit.Elab.Reg.Gaps.Fill.{detect_and_fill_register_gaps_full}

-- every bit that the field names is a bit of the register
abbrev pub IsWithin : ℕ → Field → Type 0
IsWithin width f = (f.field.msb < width) × (f.field.lsb < width)

check_field_boundary_iff :
    (width : ℕ) (f : Field) → (check_field_boundary width f ≡ []) ↔ IsWithin width f
unfolding check_field_boundary
check_field_boundary_iff width f = ground arith

check_boundaries_iff :
    (width : ℕ) (fields : List Field)
    → (check_boundaries_from width fields ≡ []) ↔ All (IsWithin width) fields
unfolding check_boundaries_from
check_boundaries_iff width [] = (λ h. tt, λ h. refl)
check_boundaries_iff width (f ∷ fields) =
    let both =
      append_empty_iff (check_field_boundary width f) (check_boundaries_from width fields) in
    let here = check_field_boundary_iff width f in
    let later = check_boundaries_iff width fields in
    (λ h. (here.0 (both.0 h).0, later.0 (both.0 h).1), λ h. both.1 (here.1 h.0, later.1 h.1))

-- the first bit of the intersection is held by both
overlap_exact :
    (f g : Field)
    → Unit {0}
    → Unit {0}
    → (report_overlap f g ≡ []) ↔ ((b : ℕ) → (covers b f && covers b g) ≡ false)
unfolding report_overlap fields_overlap
overlap_exact f g u v = (λ h b. ground arith, λ h. ground (arith, h (max f.field.lsb g.field.lsb)))

All-trivial : (fields : List Field) → All (λ f. Unit {0}) fields
All-trivial [] = tt
All-trivial (f ∷ fields) = (tt, All-trivial fields)

count_if-covering : (b : ℕ) (fields : List Field) → count_if (covers b) fields ≡ covering b fields
unfolding count_if covering
count_if-covering b [] = refl
count_if-covering b (f ∷ fields) =
    ap (λ n. (if covers b f then 1 else 0) + n) (count_if-covering b fields)

check_field_overlaps_iff :
    (children : Nodes)
    → (check_field_overlaps children ≡ [])
      ↔ ((b : ℕ) → covering b (not_reserved (fields_of children)) ≤ 1)
unfolding check_field_overlaps
check_field_overlaps_iff children =
    let fields = not_reserved (fields_of children) in
    let pairs =
      each_pair_iff report_overlap covers (λ f. Unit {0}) overlap_exact fields
        (All-trivial fields) in
    (
      λ h b. subst (λ n. n ≤ 1) (count_if-covering b fields) (pairs.0 h b),
      λ h. pairs.1 (λ b. subst (λ n. n ≤ 1) (sym (count_if-covering b fields)) (h b)),
    )

-- No error is reported on the fields of a register if and only if every field that is not
-- reserved lies within the register and no bit is held by two of them.
pub validate_register_fields_iff :
    (r : RegInfo) (children : Nodes)
    → (validate_register_fields r children ≡ []) ↔ (
        All (IsWithin r.register_width) (not_reserved (fields_of children))
        × ((b : ℕ) → covering b (not_reserved (fields_of children)) ≤ 1))
unfolding validate_register_fields check_field_boundaries
validate_register_fields_iff r children =
    let fields = not_reserved (fields_of children) in
    let both =
      append_empty_iff (check_boundaries_from r.register_width fields)
        (check_field_overlaps children) in
    let bounds = check_boundaries_iff r.register_width fields in
    let pairs = check_field_overlaps_iff children in
    (λ h. (bounds.0 (both.0 h).0, pairs.0 (both.0 h).1), λ h. both.1 (bounds.1 h.0, pairs.1 h.1))

-- When no field of a register is reserved and the checks report no error, the fields of the
-- register after the gaps are filled hold every bit of it exactly once.
pub fields-partition :
    (r : RegInfo) (info : NodeInfo) (children : Nodes)
    → not_reserved (fields_of children) ≡ fields_of children
    → validate_register_fields r children ≡ []
    → (b : ℕ) → b < r.register_width
    → covering b (fields_of (detect_and_fill_register_gaps r info children)) ≡ 1
fields-partition r info children plain passes b below =
    let at_most : covering b (fields_of children) ≤ 1 =
      subst (λ fs. covering b fs ≤ 1) plain
        (((validate_register_fields_iff r children).0 passes).1 b) in
    (detect_and_fill_register_gaps_full r info children).1 b below ∙ ground arith
