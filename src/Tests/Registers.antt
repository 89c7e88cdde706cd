-- ===== src/Tests/Registers.antt =====
-- Registers of the elaborator.
use systemrdl_toolkit.Base.{
  ℕ, ◌+◌, ◌<◌, ◌≤◌, ◌≡◌, refl, ◌↔◌, max, [], ◌∷◌, ◌++◌, map, Bytes, codes, none, some, true, ltb,
  if◌then◌else◌, arith, All, eq_bytes,
}
use systemrdl_toolkit.Elab.Model.{
  FieldInfo, NodeInfo, RegInfo, Node, Nodes, node, nil, cons, field, fields_of, boolean, size_max,
  auto_position_key, read_write, get_property, is_flagged,
}
use systemrdl_toolkit.Elab.Reg.ArrayOrder.{stoi}
use systemrdl_toolkit.Elab.Reg.Positions.{
  auto_width, assign_automatic_field_positions, calculate_next_available_bit,
}
use systemrdl_toolkit.Elab.Reg.Positions.Disjoint.{
  IsPlaceable, assign_automatic_field_positions-disjoint,
}
use systemrdl_toolkit.Elab.Reg.Positions.Complete.{
  is_waiting, assign_automatic_field_positions_complete,
}
use systemrdl_toolkit.Base.{◌≢◌, ◌⊎◌, false}
use systemrdl_toolkit.Elab.Reg.Check.{not_reserved, validate_register_fields}
use systemrdl_toolkit.Elab.Reg.Check.Disjoint.{
  IsWithin, validate_register_fields_iff, fields-partition,
}
use systemrdl_toolkit.Elab.Reg.Gaps.{find_register_gaps, detect_and_fill_register_gaps}
use systemrdl_toolkit.Elab.Reg.Gaps.Coverage.{covering}
use systemrdl_toolkit.Elab.Reg.Gaps.Runs.{gap_count, Separate, find_register_gaps_exact}
use systemrdl_toolkit.Elab.Reg.Gaps.Fill.{reserved, detect_and_fill_register_gaps_full}
use systemrdl_toolkit.Elab.Reg.Reset.{
  calculate_register_reset_value, validate_register_reset_value, binary_string_to_hex,
}
use systemrdl_toolkit.Elab.Reg.Reset.Digits.{hex_value, sum_of_bits}
use systemrdl_toolkit.Elab.Reg.Reset.Value.{reset_bit, calculate_register_reset_value_exact}
use systemrdl_toolkit.Elab.Reg.Reset.Throws.{any_backward, calculate_register_reset_value-none}
use systemrdl_toolkit.Elab.Reg.Reset.Fits.{IsWord, HasRoom, validate_register_reset_value_iff}
use systemrdl_toolkit.Elab.Reg.Size.{SizedRegister, placed_children, calculate_register_size}
use systemrdl_toolkit.Elab.Reg.Size.Whole.{IsOrdered, IsWhole, calculate_register_size-IsWhole}

abbrev plain_info : Bytes → NodeInfo
plain_info name = record {
  inst_name = name;
  type_name = codes "field";
  absolute_address = 16;
  size = 0;
  source_ctx = none;
  array_dimensions = [];
  array_indices = [];
  properties = [];
}

abbrev bits : ℕ → ℕ → ℕ → FieldInfo
bits high low value = record {
  msb = high;
  lsb = low;
  width = high + 1;
  reset_value = value;
  sw_access = read_write;
  hw_access = read_write;
}

abbrev mode : Node
mode = node (plain_info (codes "mode")) (field (bits 3 2 3)) nil

abbrev auto_bit : Bytes → Node
auto_bit name =
    node (record (plain_info name) { properties = (auto_position_key, boolean true) ∷ [] })
      (field (bits size_max size_max 1)) nil

abbrev byte : RegInfo
byte = record { register_width = 8; register_reset_hex = codes "0x0" }

-- one field with a position and two elements of an array, in the wrong order
abbrev control : Nodes
control = cons mode (cons (auto_bit (codes "en[1]")) (cons (auto_bit (codes "en[0]")) nil))

abbrev only_mode : Nodes
only_mode = cons mode nil

stoi_negative : stoi (codes " -12]") ≡ some 2147483636
unfolding stoi
stoi_negative = refl

-- `en[0]` comes first, at bit 4
placed_positions :
    map (λ f. f.field.lsb) (fields_of (placed_children byte control)) ≡ 2 ∷ 5 ∷ 4 ∷ []
unfolding assign_automatic_field_positions fields_of
placed_positions = refl

-- a width that is no multiple of four: the last nibble is filled up on the wrong side
short_nibble : binary_string_to_hex (codes "110101") ≡ codes "d1"
unfolding binary_string_to_hex
short_nibble = refl

control_places : All IsPlaceable (fields_of control)
unfolding fields_of is_flagged eq_bytes auto_width get_property
control_places = (
  (λ h. absurd (cc h), λ h. omega arith),
  (
    (λ h. (refl, omega arith), λ h. absurd (cc h)),
    ((λ h. (refl, omega arith), λ h. absurd (cc h)), tt),
  ),
)

assign_automatic_field_positions-disjoint_example :
    ((b : ℕ)
      → b < 8
      → b < 4
      → covering b (fields_of (placed_children byte control)) ≡ covering b (fields_of control))
    × ((b : ℕ) → b < 8 → 4 ≤ b → covering b (fields_of (placed_children byte control)) ≤ 1)
unfolding calculate_next_available_bit eq_bytes
assign_automatic_field_positions-disjoint_example =
    assign_automatic_field_positions-disjoint byte control (omega arith) control_places

validate_register_fields_iff_example : (validate_register_fields byte only_mode ≡ []) ↔ (
    All (IsWithin 8) (not_reserved (fields_of only_mode))
    × ((b : ℕ) → covering b (not_reserved (fields_of only_mode)) ≤ 1))
validate_register_fields_iff_example = validate_register_fields_iff byte only_mode

only_mode_passes : validate_register_fields byte only_mode ≡ []
unfolding validate_register_fields
only_mode_passes = refl

only_mode_plain : not_reserved (fields_of only_mode) ≡ fields_of only_mode
unfolding not_reserved fields_of
only_mode_plain = refl

fields-partition_example :
    covering 7
      (fields_of (detect_and_fill_register_gaps byte (plain_info (codes "ctrl")) only_mode))
    ≡ 1
fields-partition_example =
    fields-partition byte (plain_info (codes "ctrl")) only_mode only_mode_plain only_mode_passes 7
      (omega arith)

find_register_gaps_exact_example :
    ((b : ℕ)
      → b < 8
      → gap_count b (find_register_gaps 8 (fields_of only_mode))
        ≡ (if ltb 0 (covering b (fields_of only_mode)) then 0 else 1))
    × Separate 0 8 (find_register_gaps 8 (fields_of only_mode))
find_register_gaps_exact_example = find_register_gaps_exact 8 (fields_of only_mode)

-- two gaps, on both sides of the field
mode_gaps :
    find_register_gaps 8 (fields_of only_mode)
    ≡ record { msb = 1; lsb = 0 } ∷ (record { msb = 7; lsb = 4 } ∷ [])
unfolding find_register_gaps fields_of
mode_gaps = refl

detect_and_fill_register_gaps_full_example :
    let filled =
      fields_of (detect_and_fill_register_gaps byte (plain_info (codes "ctrl")) only_mode) in
    (filled ≡ fields_of only_mode ++ map (reserved 16) (find_register_gaps 8 (fields_of only_mode)))
    × ((b : ℕ) → b < 8 → covering b filled ≡ max 1 (covering b (fields_of only_mode)))
detect_and_fill_register_gaps_full_example =
    detect_and_fill_register_gaps_full byte (plain_info (codes "ctrl")) only_mode

only_mode-IsOrdered : All IsOrdered (fields_of only_mode)
unfolding fields_of
only_mode-IsOrdered = (omega arith, tt)

calculate_register_reset_value_exact_example :
    (digits : Bytes) × (calculate_register_reset_value byte only_mode ≡ some (codes "0x" ++ digits))
    × (hex_value 0 digits ≡ sum_of_bits (λ b. reset_bit 8 (fields_of only_mode) b 0) 8)
calculate_register_reset_value_exact_example =
    calculate_register_reset_value_exact byte only_mode (omega arith) refl only_mode-IsOrdered

-- bits 2 and 3 of the register
mode_reset : calculate_register_reset_value byte only_mode ≡ some (codes "0x0c")
unfolding calculate_register_reset_value
mode_reset = refl

-- the field `f[0:7]`, which is reported as invalid and still reaches the reset value
abbrev reversed : Nodes
reversed = cons (node (plain_info (codes "f")) (field (bits 0 7 0)) nil) nil

calculate_register_reset_value-none_example :
    (calculate_register_reset_value byte reversed ≡ none)
    ↔ (any_backward 8 (fields_of reversed) ≡ true)
calculate_register_reset_value-none_example =
    calculate_register_reset_value-none byte reversed (omega arith)

reversed_throws : calculate_register_reset_value byte reversed ≡ none
unfolding calculate_register_reset_value
reversed_throws = refl

only_mode_words : All IsWord (not_reserved (fields_of only_mode))
unfolding not_reserved fields_of
only_mode_words = (omega arith, tt)

validate_register_reset_value_iff_example :
    (validate_register_reset_value only_mode ≡ [])
    ↔ All HasRoom (not_reserved (fields_of only_mode))
validate_register_reset_value_iff_example =
    validate_register_reset_value_iff only_mode only_mode_words

control-IsOrdered : All IsOrdered (fields_of (placed_children byte control))
unfolding assign_automatic_field_positions fields_of
control-IsOrdered = (omega arith, (omega arith, (omega arith, tt)))

control_plain :
    not_reserved (fields_of (placed_children byte control))
    ≡ fields_of (placed_children byte control)
unfolding assign_automatic_field_positions fields_of not_reserved
control_plain = refl

calculate_register_size-IsWhole_example :
    (result : SizedRegister) × (calculate_register_size byte (plain_info (codes "ctrl")) control
      ≡ some result)
    × IsWhole byte result
calculate_register_size-IsWhole_example =
    calculate_register_size-IsWhole byte (plain_info (codes "ctrl")) control (omega arith) refl
      control-IsOrdered control_plain

assign_automatic_field_positions_complete_example :
    ((assign_automatic_field_positions byte control).errors ≢ [])
    ⊎ All (λ f. is_waiting f ≡ false) (fields_of (placed_children byte control))
assign_automatic_field_positions_complete_example =
    assign_automatic_field_positions_complete byte control
