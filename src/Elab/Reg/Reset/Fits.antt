-- ===== src/Elab/Reg/Reset/Fits.antt =====
-- The check on reset values finds every value that has no room in its field.
use systemrdl_toolkit.Base.{
  ◌^◌, ◌<◌, ◌≤◌, ◌≡◌, refl, List, [], ◌∷◌, ltb, arith, ◌↔◌, inl, inr, Bool-cases, ltb→le, All,
}
use native.Mathlib.Nat.{one-le-pow, pow-le-pow_right}
use systemrdl_toolkit.Elab.Model.{Field, Nodes, fields_of, is_flagged, reserved_key}
use systemrdl_toolkit.Elab.Ranges.{append_empty_iff}
use systemrdl_toolkit.Elab.Reg.Check.{not_reserved}
use systemrdl_toolkit.Elab.Reg.Reset.{
  field_width, check_reset_value, check_reset_values, validate_register_reset_value,
}

-- the value is one of 64 bits
abbrev pub IsWord : Field → Type 0
IsWord f = f.field.reset_value < 2 ^ 64

-- the value has room in the field
abbrev pub HasRoom : Field → Type 0
HasRoom f = f.field.reset_value < 2 ^ field_width f

check_reset_value_iff : (f : Field) → IsWord f → (check_reset_value f ≡ []) ↔ HasRoom f
unfolding check_reset_value
check_reset_value_iff f small = elim (Bool-cases (ltb (field_width f) 64)) [
  | inl narrow ↦ rw narrow (ground (arith, one-le-pow (field_width f) 2))
  | inr wide ↦
      let room : 2 ^ 64 ≤ 2 ^ field_width f = pow-le-pow_right (omega arith) (ltb→le _ _ wide) in
      rw wide (λ h. omega arith, λ h. refl)
]

check_reset_values_iff :
    (fields : List Field)
    → All IsWord (not_reserved fields)
    → (check_reset_values fields ≡ []) ↔ All HasRoom (not_reserved fields)
unfolding check_reset_values not_reserved
check_reset_values_iff [] small = (λ h. tt, λ h. refl)
check_reset_values_iff (f ∷ fields) small =
    elim (Bool-cases (is_flagged reserved_key f.info.properties)) [
      | inl flagged ↦ rw flagged (check_reset_values_iff fields (rw flagged at small))
      | inr plain ↦
          let kept : All IsWord (f ∷ not_reserved fields) = rw plain at small in
          let both = append_empty_iff (check_reset_value f) (check_reset_values fields) in
          let here = check_reset_value_iff f kept.0 in
          let later = check_reset_values_iff fields kept.1 in
          rw plain (
            λ h. (here.0 (both.0 h).0, later.0 (both.0 h).1),
            λ h. both.1 (here.1 h.0, later.1 h.1),
          )
    ]

-- For fields with reset values of 64 bits, no error is reported on them if and only if the value
-- of every field that is not reserved fits the number of bits that its positions span.
pub validate_register_reset_value_iff :
    (children : Nodes)
    → All IsWord (not_reserved (fields_of children))
    → (validate_register_reset_value children ≡ [])
      ↔ All HasRoom (not_reserved (fields_of children))
unfolding validate_register_reset_value
validate_register_reset_value_iff children small = check_reset_values_iff (fields_of children) small
