-- ===== src/Elab/Reg/Size/Whole.antt =====
-- A register after all its steps.
use systemrdl_toolkit.Base.{
  ℕ, ◌+◌, ◌/◌, ◌%◌, ◌^◌, ◌<◌, ◌≤◌, ◌≡◌, ◌≢◌, ◌⊎◌, inl, inr, refl, sym, subst, List, [], ◌∷◌, ◌++◌,
  map, Bytes, codes, some, arith, All, All-append,
}
use systemrdl_toolkit.Elab.Model.{Field, NodeInfo, RegInfo, Nodes, fields_of}
use systemrdl_toolkit.Elab.Ranges.{append_empty_iff}
use systemrdl_toolkit.Elab.Reg.Positions.{assign_automatic_field_positions}
use systemrdl_toolkit.Elab.Reg.Check.{not_reserved, validate_register_fields}
use systemrdl_toolkit.Elab.Reg.Check.Disjoint.{fields-partition}
use systemrdl_toolkit.Elab.Reg.Gaps.{
  Gap, create_reserved_field, find_register_gaps, detect_and_fill_register_gaps,
}
use systemrdl_toolkit.Elab.Reg.Gaps.Coverage.{covering}
use systemrdl_toolkit.Elab.Reg.Gaps.Runs.{Separate, find_register_gaps_exact}
use systemrdl_toolkit.Elab.Reg.Gaps.Fill.{reserved, detect_and_fill_register_gaps_full}
use systemrdl_toolkit.Elab.Reg.Reset.{validate_register_reset_value}
use systemrdl_toolkit.Elab.Reg.Reset.Digits.{hex_value, sum_of_bits}
use systemrdl_toolkit.Elab.Reg.Reset.Value.{reset_bit, calculate_register_reset_value_exact}
use systemrdl_toolkit.Elab.Reg.Size.{
  SizedRegister, placed_children, filled_children, calculate_register_size,
}

-- the low position is not above the high one by more than one
abbrev pub IsOrdered : Field → Type 0
IsOrdered f = f.field.lsb ≤ f.field.msb + 1

reserved-IsOrdered :
    (address lo width : ℕ) (gaps : List Gap)
    → Separate lo width gaps
    → All IsOrdered (map (reserved address) gaps)
unfolding create_reserved_field
reserved-IsOrdered address lo width [] h = tt
reserved-IsOrdered address lo width (g ∷ gaps) h =
    (omega arith, reserved-IsOrdered address (g.msb + 2) width gaps h.3)

filled-IsOrdered :
    (r : RegInfo) (info : NodeInfo) (children : Nodes)
    → All IsOrdered (fields_of children)
    → All IsOrdered (fields_of (detect_and_fill_register_gaps r info children))
filled-IsOrdered r info children ordered =
    let gaps = find_register_gaps r.register_width (fields_of children) in
    subst (All IsOrdered) (sym (detect_and_fill_register_gaps_full r info children).0) (
      All-append IsOrdered (fields_of children) (map (reserved info.absolute_address) gaps) ordered
        (reserved-IsOrdered info.absolute_address 0 r.register_width gaps
          (find_register_gaps_exact r.register_width (fields_of children)).1))

empty_or {ℓ} : {A : Type ℓ} (xs : List A) → (xs ≢ []) ⊎ (xs ≡ [])
empty_or [] = inr refl
empty_or (x ∷ xs) = inl (λ e. absurd (cc e))

-- What a register is after its steps: an error was reported, or every bit is held by exactly one
-- field; and the reset value is made of the bits of the fields' reset values.
pub record IsWhole (r : RegInfo) (result : SizedRegister) : Type 0 where
  pub partition :
      (result.errors ≢ [])
      ⊎ ((b : ℕ) → b < r.register_width → covering b (fields_of result.children) ≡ 1)
  pub digits : Bytes
  pub reset_hex : result.register_reset_hex ≡ codes "0x" ++ digits
  pub reset_value :
      hex_value 0 digits
      ≡ sum_of_bits
          (λ b. reset_bit r.register_width (fields_of result.children) b 0)
          r.register_width

-- Let a register's width, of 32 bits, be a multiple of four, and let none of its fields, once
-- they have their positions, be marked as reserved or have its low position above its high one by
-- more than one. Then the steps end without an exception, and either an error was reported or
-- every bit of the register is held by exactly one field, those that fill the gaps included; the
-- reset value is the number whose every bit is that of the last field which holds it.
pub calculate_register_size-IsWhole :
    (r : RegInfo) (info : NodeInfo) (children : Nodes)
    → r.register_width < 2 ^ 32
    → r.register_width % 4 ≡ 0
    → All IsOrdered (fields_of (placed_children r children))
    → not_reserved (fields_of (placed_children r children)) ≡ fields_of (placed_children r children)
    → (result : SizedRegister) × (calculate_register_size r info children ≡ some result)
      × IsWhole r result
unfolding calculate_register_size
calculate_register_size-IsWhole r info children narrow whole ordered plain =
    let placed = assign_automatic_field_positions r children in
    let filled = filled_children r info children in
    let checks = validate_register_fields r placed.children in
    let resets = validate_register_reset_value filled in
    let (digits, computed, value) =
      calculate_register_reset_value_exact r filled narrow whole
        (filled-IsOrdered r info placed.children ordered) in
    (
      record {
        children = filled;
        size = ((r.register_width + 7) % 2 ^ 32) / 8;
        register_reset_hex = codes "0x" ++ digits;
        errors = placed.errors ++ (checks ++ resets);
      },
      rw (computed, calculate_register_size) refl,
      record {
        partition = elim (empty_or (placed.errors ++ (checks ++ resets))) [
          | inl reported ↦ inl reported
          | inr none_reported ↦
              let later = ((append_empty_iff placed.errors (checks ++ resets)).0 none_reported).1 in
              inr (
                fields-partition r info placed.children plain
                  ((append_empty_iff checks resets).0 later).0)
        ];
        digits = digits;
        reset_hex = refl;
        reset_value = value;
      },
    )
