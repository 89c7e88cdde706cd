-- ===== src/Elab/Reg/Reset/Throws.antt =====
-- When the reset value of a register is not computed.
use systemrdl_toolkit.Base.{
  ℕ, ◌+◌, ◌^◌, ◌<◌, ◌≤◌, ◌≡◌, refl, Bool, true, false, ◌&&◌, ◌||◌, List, [], ◌∷◌, Bytes, none, some,
  ltb, leb, arith, ◌↔◌, inl, inr, Bool-cases, replicate, codes, ◌++◌,
}
use systemrdl_toolkit.Elab.Model.{Field, RegInfo, Nodes, fields_of}
use systemrdl_toolkit.Elab.Reg.Reset.{
  field_width, copy_bits, uint64_to_binary_string, set_field_bits, set_fields_bits, max_string,
  binary_string_to_hex, calculate_register_reset_value,
}

-- both positions lie in the register, and the low one is above the high one by more than one
abbrev pub is_backward : ℕ → Field → Bool
is_backward width f =
    (ltb f.field.lsb width && ltb f.field.msb width) && ltb (f.field.msb + 1) f.field.lsb

abbrev pub any_backward : ℕ → List Field → Bool
any_backward width [] = false
any_backward width (f ∷ fields) = is_backward width f || any_backward width fields

set_field_bits-none :
    (width : ℕ) (f : Field) (bits : Bytes)
    → width ≤ max_string
    → is_backward width f ≡ true
    → set_field_bits width f bits ≡ none
unfolding set_field_bits
set_field_bits-none width f bits fits back =
    let inside : (leb width f.field.lsb || leb width f.field.msb) ≡ false = ground arith in
    let long : ltb max_string (field_width f) ≡ true = ground arith in
    rw (inside, long, set_field_bits) refl

set_field_bits-some :
    (width : ℕ) (f : Field) (bits : Bytes)
    → width ≤ max_string
    → is_backward width f ≡ false
    → (next : Bytes) × (set_field_bits width f bits ≡ some next)
unfolding set_field_bits
set_field_bits-some width f bits fits forward =
    elim (Bool-cases (leb width f.field.lsb || leb width f.field.msb)) [
      | inl outside ↦ (bits, rw (outside, set_field_bits) refl)
      | inr inside ↦
          let short : ltb max_string (field_width f) ≡ false = ground arith in
          (
            copy_bits (field_width f) 0 (field_width f) f.field.lsb width
                (uint64_to_binary_string f.field.reset_value (field_width f)) bits,
            rw (inside, short, set_field_bits) refl,
          )
    ]

set_fields_bits-throws :
    (width : ℕ) (fields : List Field) (bits : Bytes)
    → width ≤ max_string
    → any_backward width fields ≡ true
    → set_fields_bits width fields bits ≡ none
unfolding set_fields_bits
set_fields_bits-throws width [] bits fits some_back = absurd (cc some_back)
set_fields_bits-throws width (f ∷ fields) bits fits some_back =
    elim (Bool-cases (is_backward width f)) [
      | inl back ↦ rw (set_field_bits-none width f bits fits back, set_fields_bits) refl
      | inr forward ↦
          let (next, e) = set_field_bits-some width f bits fits forward in
          rw (e, set_fields_bits) (set_fields_bits-throws width fields next fits (ground arith))
    ]

set_fields_bits-returns :
    (width : ℕ) (fields : List Field) (bits : Bytes)
    → width ≤ max_string
    → any_backward width fields ≡ false
    → (final : Bytes) × (set_fields_bits width fields bits ≡ some final)
unfolding set_fields_bits
set_fields_bits-returns width [] bits fits none_back = (bits, refl)
set_fields_bits-returns width (f ∷ fields) bits fits none_back =
    let (next, e) = set_field_bits-some width f bits fits (ground arith) in
    let (final, later) = set_fields_bits-returns width fields next fits (ground arith) in
    (final, rw (e, set_fields_bits) later)

-- The computation of the reset value of a register, whose width has 32 bits, throws for a string
-- that is too long if and only if some field has both positions in the register and its low
-- position above its high one by more than one.
pub calculate_register_reset_value-none :
    (r : RegInfo) (children : Nodes)
    → r.register_width < 2 ^ 32
    → (calculate_register_reset_value r children ≡ none)
      ↔ (any_backward r.register_width (fields_of children) ≡ true)
unfolding calculate_register_reset_value
calculate_register_reset_value-none r children small =
    let width = r.register_width in
    let fields = fields_of children in
    let zeros : Bytes = replicate width b'0' in
    let fits : width ≤ max_string = omega arith in
    elim (Bool-cases (any_backward width fields)) [
      | inl back ↦ (
        λ h. back,
        λ h.
            rw (set_fields_bits-throws width fields zeros fits back, calculate_register_reset_value)
              refl,
      )
      | inr forward ↦
          let (final, e) = set_fields_bits-returns width fields zeros fits forward in
          let returned : calculate_register_reset_value r children
              ≡ some (codes "0x" ++ binary_string_to_hex final) =
            rw (e, calculate_register_reset_value) refl in
          (λ h. absurd (cc (returned, h)), λ h. absurd (cc (forward, h)))
    ]
