-- ===== src/Elab/Reg/Reset/Value.antt =====
-- The reset value of a register, bit by bit.
use systemrdl_toolkit.Base.{
  ℕ, suc, ◌+◌, ◌-◌, ◌/◌, ◌%◌, ◌^◌, ◌<◌, ◌≤◌, ◌≡◌, refl, sym, ap, ◌∙◌, Bool, true, false, ◌&&◌, ◌||◌,
  List, [], ◌∷◌, ◌++◌, Bytes, codes, some, ltb, leb, ◌==◌, if◌then◌else◌, length, length-replicate,
  All, replicate, get_or, get_or-replicate, arith, inl, inr, subst, Bool-cases, le→leb,
}
use systemrdl_toolkit.Elab.Model.{Field, RegInfo, Nodes, fields_of}
use systemrdl_toolkit.Elab.Reg.Gaps.Coverage.{covers}
use systemrdl_toolkit.Elab.Reg.Reset.{
  has_bit, uint64_to_binary_string, copy_bits, field_width, set_field_bits, set_fields_bits,
  max_string, binary_string_to_hex, calculate_register_reset_value,
}
use systemrdl_toolkit.Elab.Reg.Reset.Digits.{
  IsBinary, hex_value, sum_of_bits, sum_of_bits_cong, digit_at, binary_string_to_hex-value,
}
use systemrdl_toolkit.Elab.Reg.Reset.Loops.{
  length-binary_bits, binary_bits_lem, length-copy_bits, copy_bits_lem,
}

-- bit `i` of a number of 64 bits
abbrev pub value_bit : ℕ → ℕ → ℕ
value_bit value i = if ltb i 64 then (value / 2 ^ i) % 2 else 0

-- the field has a say in bit `b`
abbrev pub sets : ℕ → ℕ → Field → Bool
sets width b f = (ltb f.field.lsb width && ltb f.field.msb width) && covers b f

-- Bit `b` of a register of that width: that of the last field which holds it, and `old` if there
-- is none. A field that leaves the register does not count.
abbrev pub reset_bit : ℕ → List Field → ℕ → ℕ → ℕ
reset_bit width [] b old = old
reset_bit width (f ∷ fields) b old =
    reset_bit width fields b
      (if sets width b f then value_bit f.field.reset_value (b - f.field.lsb) else old)

-- the text is a binary number of `width` digits, and `digit` says which
record Shows (width : ℕ) (digit : ℕ → ℕ) (bits : Bytes) : Type 0 where
  len : length bits ≡ width
  shown : (b : ℕ) → b < width → get_or bits (width - 1 - b) b'0' ≡ b'0' + digit b

bit_char :
    (t : Bool) (x : ℕ)
    → (if t && (x % 2 == 1) then b'1' else b'0') ≡ b'0' + (if t then x % 2 else 0)
bit_char t x = ground arith

uint64_to_binary_string-Shows :
    (value width : ℕ) → Shows width (value_bit value) (uint64_to_binary_string value width)
unfolding uint64_to_binary_string has_bit
uint64_to_binary_string-Shows value width = record {
  len = length-binary_bits 64 0 value width (replicate width b'0') ∙ length-replicate width b'0';
  shown = λ b below.
      binary_bits_lem 64 0 value width b (replicate width b'0') below (length-replicate width b'0')
      ∙ ap (λ c. if (leb 0 b && ltb b (0 + 64)) && has_bit value b then b'1' else c)
          (get_or-replicate width (width - 1 - b) b'0' b'0' (omega arith))
      ∙ ap (λ t. if (t && ltb b 64) && has_bit value b then b'1' else b'0')
          (le→leb 0 b (omega arith))
      ∙ bit_char (ltb b 64) (value / 2 ^ b);
}

-- the digits after the loop over the bits of a field that lies in the register
copied :
    (width : ℕ) (f : Field) (digit : ℕ → ℕ) (bits : Bytes)
    → f.field.lsb ≤ f.field.msb + 1
    → f.field.lsb < width
    → f.field.msb < width
    → field_width f ≡ f.field.msb + 1 - f.field.lsb
    → Shows width digit bits
    → Shows width
        (λ b. if sets width b f then value_bit f.field.reset_value (b - f.field.lsb) else digit b)
        (copy_bits
          (field_width f)
          0
          (field_width f)
          f.field.lsb
          width
          (uint64_to_binary_string f.field.reset_value (field_width f))
          bits)
copied width f digit bits ordered lsb_in msb_in wide shows =
    let fw = field_width f in
    let binary = uint64_to_binary_string f.field.reset_value fw in
    let own = uint64_to_binary_string-Shows f.field.reset_value fw in
    record {
      len = length-copy_bits fw 0 fw f.field.lsb width binary bits ∙ shows.len;
      shown = λ b below.
          copy_bits_lem fw 0 fw f.field.lsb width b binary bits (omega arith) below shows.len
          ∙ elim (Bool-cases (covers b f)) [
            | inl held ↦
                let guard : (leb (f.field.lsb + 0) b && ltb b (f.field.lsb + fw)) ≡ true =
                  ground arith in
                let says : sets width b f ≡ true = ground arith in
                rw (guard, says) (own.shown (b - f.field.lsb) (ground arith))
            | inr other ↦
                let guard : (leb (f.field.lsb + 0) b && ltb b (f.field.lsb + fw)) ≡ false =
                  ground arith in
                let says : sets width b f ≡ false = ground arith in
                rw (guard, says) (shows.shown b below)
          ];
    }

set_field_bits-Shows :
    (width : ℕ) (f : Field) (digit : ℕ → ℕ) (bits : Bytes)
    → width ≤ max_string
    → f.field.lsb ≤ f.field.msb + 1
    → Shows width digit bits
    → (next : Bytes) × (set_field_bits width f bits ≡ some next)
      × Shows width
          (λ b. if sets width b f then value_bit f.field.reset_value (b - f.field.lsb) else digit b)
          next
unfolding set_field_bits
set_field_bits-Shows width f digit bits fits ordered shows =
    elim (Bool-cases (leb width f.field.lsb || leb width f.field.msb)) [
      | inl outside ↦ (
        bits,
        rw (outside, set_field_bits) refl,
        record {
          len = shows.len;
          shown = λ b below.
              let silent : sets width b f ≡ false = ground arith in rw silent (shows.shown b below);
        },
      )
      | inr inside ↦
          let wide : field_width f ≡ f.field.msb + 1 - f.field.lsb = ground arith in
          let short : ltb max_string (field_width f) ≡ false = ground arith in
          (
            copy_bits (field_width f) 0 (field_width f) f.field.lsb width
                (uint64_to_binary_string f.field.reset_value (field_width f)) bits,
            rw (inside, short, set_field_bits) refl,
            copied width f digit bits ordered (ground arith) (ground arith) wide shows,
          )
    ]

abbrev IsOrdered : Field → Type 0
IsOrdered f = f.field.lsb ≤ f.field.msb + 1

set_fields_bits-Shows :
    (width : ℕ) (fields : List Field) (digit : ℕ → ℕ) (bits : Bytes)
    → width ≤ max_string
    → All IsOrdered fields
    → Shows width digit bits
    → (final : Bytes) × (set_fields_bits width fields bits ≡ some final)
      × Shows width (λ b. reset_bit width fields b (digit b)) final
unfolding set_fields_bits
set_fields_bits-Shows width [] digit bits fits ordered shows = (bits, refl, shows)
set_fields_bits-Shows width (f ∷ fields) digit bits fits ordered shows =
    let (next, first, then_shows) = set_field_bits-Shows width f digit bits fits ordered.0 shows in
    let (final, later, end_shows) =
      set_fields_bits-Shows width fields _ next fits ordered.1 then_shows in
    (final, rw (first, set_fields_bits) later, end_shows)

value_or_below : (t : Bool) (value i old : ℕ) → old < 2 → (if t then value_bit value i else old) < 2
value_or_below t value i old h = ground arith

reset_bit_below :
    (width : ℕ) (fields : List Field) (b old : ℕ) → old < 2 → reset_bit width fields b old < 2
reset_bit_below width [] b old h = h
reset_bit_below width (f ∷ fields) b old h =
    reset_bit_below width fields b _ (value_or_below (sets width b f) f.field.reset_value _ old h)

-- a text of digits, each below two, is binary
Shows-IsBinary :
    (bits : Bytes) (digit : ℕ → ℕ)
    → ((b : ℕ) → digit b < 2)
    → Shows (length bits) digit bits
    → All IsBinary bits
Shows-IsBinary [] digit small shows = tt
Shows-IsBinary (c ∷ bits) digit small shows =
    let n = length bits in
    let first : 0 ≡ suc n - 1 - n = omega arith in
    let head : c ≡ b'0' + digit n =
      ap (λ i. get_or (c ∷ bits) i b'0') first ∙ shows.shown n (omega arith) in
    let tail : Shows n digit bits = record {
      len = refl;
      shown = λ b below.
          let behind : suc (n - 1 - b) ≡ suc n - 1 - b = omega arith in
          ap (λ i. get_or (c ∷ bits) i b'0') behind ∙ shows.shown b (omega arith);
    } in
    let binary : IsBinary c = ground (arith, head, small n) in
    (binary, Shows-IsBinary bits digit small tail)

hex_of_shown :
    (width : ℕ) (digit : ℕ → ℕ) (bits : Bytes)
    → ((b : ℕ) → digit b < 2)
    → width % 4 ≡ 0
    → Shows width digit bits
    → hex_value 0 (binary_string_to_hex bits) ≡ sum_of_bits digit width
hex_of_shown width digit bits small whole shows =
    let own : Shows (length bits) digit bits =
      subst (λ n. Shows n digit bits) (sym shows.len) shows in
    binary_string_to_hex-value bits (Shows-IsBinary bits digit small own)
      (ap (λ n. n % 4) shows.len ∙ whole)
    ∙ sum_of_bits_cong (digit_at bits) digit (length bits)
        (λ b below. omega (arith, own.shown b below))
    ∙ ap (sum_of_bits digit) shows.len

-- Let the width of a register, of 32 bits, be a multiple of four, and no field have its low
-- position above its high one by more than one. Then the reset value is computed: the digits
-- behind `0x` stand for the number whose every bit is that of the last field which lies in the
-- register and holds the bit, and zero where there is none.
pub calculate_register_reset_value_exact :
    (r : RegInfo) (children : Nodes)
    → r.register_width < 2 ^ 32
    → r.register_width % 4 ≡ 0
    → All (λ f. f.field.lsb ≤ f.field.msb + 1) (fields_of children)
    → (digits : Bytes) × (calculate_register_reset_value r children ≡ some (codes "0x" ++ digits))
      × (hex_value 0 digits
          ≡ sum_of_bits (λ b. reset_bit r.register_width (fields_of children) b 0) r.register_width)
unfolding calculate_register_reset_value
calculate_register_reset_value_exact r children fits whole ordered =
    let width = r.register_width in
    let zeros : Shows width (λ b. 0) (replicate width b'0') = record {
      len = length-replicate width b'0';
      shown = λ b below. get_or-replicate width (width - 1 - b) b'0' b'0' (omega arith);
    } in
    let (bits, computed, shows) =
      set_fields_bits-Shows width (fields_of children) (λ b. 0) (replicate width b'0') (omega arith)
        ordered zeros in
    (
      binary_string_to_hex bits,
      rw (computed, calculate_register_reset_value) refl,
      hex_of_shown width _ bits (λ b. reset_bit_below width (fields_of children) b 0 (omega arith))
          whole shows,
    )
