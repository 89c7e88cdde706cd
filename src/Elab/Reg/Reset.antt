-- ===== src/Elab/Reg/Reset.antt =====
-- The reset value of a register in elaborator.cpp: `uint64_to_binary_string`,
-- `binary_string_to_hex`, `calculate_register_reset_value` and `validate_register_reset_value`.
-- A string longer than `max_size()` is what `std::string` refuses with an exception: `none`.
pub mod Digits
pub mod Loops
pub mod Throws
pub mod Fits
pub mod Value
use systemrdl_toolkit.Base.{
  ℕ, zero, suc, ◌+◌, ◌-◌, ◌*◌, ◌/◌, ◌%◌, ◌^◌, Bool, true, false, ◌||◌, List, [], ◌∷◌, ◌++◌, Bytes,
  codes, Option, none, some, ltb, leb, ◌==◌, if◌then◌else◌, set, get_or, replicate, take, drop,
  length, to_string,
}
use systemrdl_toolkit.Elab.Model.{
  Field, FieldInfo, NodeInfo, Nodes, RegInfo, ElaborationError, elaboration_error, is_flagged,
  reserved_key, fields_of, add64, sub64,
}

-- `value & (1ULL << i)`
unfoldable pub has_bit : ℕ → ℕ → Bool
has_bit value i = (value / 2 ^ i) % 2 == 1

-- The loop from `i` on; the test on 64 is the rounds that are left.
unfoldable pub binary_bits : ℕ → ℕ → ℕ → ℕ → Bytes → Bytes
unfolding has_bit
binary_bits zero i value width binary = binary
binary_bits (suc rounds) i value width binary =
    let more =
      binary_bits rounds (suc i) value width
        (if has_bit value i then set binary (width - 1 - i) b'1' else binary) in
    if ltb i width then more else binary

unfoldable pub uint64_to_binary_string : ℕ → ℕ → Bytes
unfolding binary_bits
uint64_to_binary_string value width = binary_bits 64 0 value width (replicate width b'0')

-- the digits of a nibble are '0' and '1'
unfoldable pub nibble_value : ℕ → Bytes → ℕ
nibble_value val [] = val
nibble_value val (c ∷ nibble) = nibble_value (val * 2 + (c - b'0')) nibble

unfoldable pub hex_char : ℕ → ℕ
hex_char val = if ltb val 10 then b'0' + val else b'a' + val - 10

-- the loop over the nibbles, with the rounds that are left
unfoldable pub hex_nibbles : ℕ → Bytes → Bytes
unfolding hex_char nibble_value
hex_nibbles zero binary = []
hex_nibbles (suc rounds) [] = []
hex_nibbles (suc rounds) (c ∷ binary) =
    let nibble = take 4 (c ∷ binary) in
    hex_char (nibble_value 0 (replicate (4 - length nibble) b'0' ++ nibble))
    ∷ hex_nibbles rounds (drop 4 (c ∷ binary))

-- Each round takes a character at least, so as many rounds as characters are enough.
unfoldable pub binary_string_to_hex : Bytes → Bytes
unfolding hex_nibbles
binary_string_to_hex binary = hex_nibbles (length binary) binary

-- `max_size()` of `std::string`
abbrev pub max_string : ℕ
max_string = 2 ^ 63 - 1

-- the loop that copies the digits of a field, from bit `i` of it on
unfoldable pub copy_bits : ℕ → ℕ → ℕ → ℕ → ℕ → Bytes → Bytes → Bytes
copy_bits zero i field_width lsb register_width field_binary bits = bits
copy_bits (suc rounds) i field_width lsb register_width field_binary bits =
    let more = copy_bits rounds (suc i) field_width lsb register_width field_binary (
      set bits (register_width - 1 - (lsb + i)) (get_or field_binary (field_width - 1 - i) b'0')) in
    if ltb (lsb + i) register_width then more else bits

abbrev pub field_width : Field → ℕ
field_width f = add64 (sub64 f.field.msb f.field.lsb) 1

-- one field, skipped when a position of it is no bit of the register
unfoldable pub set_field_bits : ℕ → Field → Bytes → Option Bytes
unfolding copy_bits uint64_to_binary_string
set_field_bits register_width f bits =
    elim (leb register_width f.field.lsb || leb register_width f.field.msb) [
      | true ↦ some bits
      | false ↦ elim (ltb max_string (field_width f)) [
        | true ↦ none
        | false ↦ some (
            copy_bits (field_width f) 0 (field_width f) f.field.lsb register_width
              (uint64_to_binary_string f.field.reset_value (field_width f)) bits)
      ]
    ]

unfoldable pub set_fields_bits : ℕ → List Field → Bytes → Option Bytes
unfolding set_field_bits
set_fields_bits register_width [] bits = some bits
set_fields_bits register_width (f ∷ fields) bits = elim (set_field_bits register_width f bits) [
  | none ↦ none
  | some next ↦ set_fields_bits register_width fields next
]

unfoldable pub calculate_register_reset_value : RegInfo → Nodes → Option Bytes
unfolding set_fields_bits binary_string_to_hex fields_of
calculate_register_reset_value r children =
    elim (set_fields_bits r.register_width (fields_of children) (replicate r.register_width b'0')) [
      | none ↦ none
      | some bits ↦ some (codes "0x" ++ binary_string_to_hex bits)
    ]

-- the test of one field
unfoldable pub check_reset_value : Field → List ElaborationError
unfolding elaboration_error
check_reset_value f =
    let max_field_value = 2 ^ field_width f - 1 in
    if ltb (field_width f) 64
    then (if ltb max_field_value f.field.reset_value
        then elaboration_error
            (codes "Field '"
              ++ (f.info.inst_name
                  ++ (codes "' reset value "
                      ++ (to_string f.field.reset_value
                          ++ (codes " exceeds maximum value "
                              ++ (to_string max_field_value
                                  ++ (codes " for "
                                      ++ (to_string (field_width f) ++ codes "-bit field"))))))))
            f.info.source_ctx
          ∷ []
        else [])
    else []

unfoldable pub check_reset_values : List Field → List ElaborationError
unfolding check_reset_value is_flagged
check_reset_values [] = []
check_reset_values (f ∷ fields) =
    let rest = check_reset_values fields in
    if is_flagged reserved_key f.info.properties then rest else check_reset_value f ++ rest

unfoldable pub validate_register_reset_value : Nodes → List ElaborationError
unfolding check_reset_values fields_of
validate_register_reset_value children = check_reset_values (fields_of children)
