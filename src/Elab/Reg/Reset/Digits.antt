-- ===== src/Elab/Reg/Reset/Digits.antt =====
-- Hexadecimal digits stand for the number that the binary digits stand for.
use systemrdl_toolkit.Base.{
  ℕ, zero, suc, ◌+◌, ◌-◌, ◌*◌, ◌%◌, ◌^◌, ◌<◌, ◌≤◌, ◌≡◌, refl, sym, ap, ap₂, ◌∙◌, [], ◌∷◌, Bytes,
  ltb, if◌then◌else◌, length, All, get_or, arith, ◌⊎◌,
}
use native.Mathlib.Nat.{pow-suc}
use systemrdl_toolkit.Elab.Reg.Reset.{nibble_value, hex_char, hex_nibbles, binary_string_to_hex}

-- the number that lower-case hexadecimal digits stand for, behind the digits of `n`
unfoldable pub hex_value : ℕ → Bytes → ℕ
hex_value n [] = n
hex_value n (c ∷ s) = hex_value (n * 16 + (if ltb c b'a' then c - b'0' else c - b'a' + 10)) s

abbrev pub IsBinary : ℕ → Type 0
IsBinary c = (c ≡ b'0') ⊎ (c ≡ b'1')

binary_digit : (c : ℕ) → IsBinary c → c - b'0' < 2
binary_digit c h = ground arith

hex_char_digit :
    (v : ℕ)
    → v < 16
    → (if ltb (hex_char v) b'a' then hex_char v - b'0' else hex_char v - b'a' + 10) ≡ v
unfolding hex_char
hex_char_digit v h = ground arith

hex_nibbles-value :
    (rounds n : ℕ) (binary : Bytes)
    → All IsBinary binary
    → length binary ≤ rounds
    → length binary % 4 ≡ 0
    → hex_value n (hex_nibbles rounds binary) ≡ nibble_value n binary
unfolding hex_value hex_nibbles nibble_value
hex_nibbles-value zero n [] h enough whole = refl
hex_nibbles-value (suc rounds) n [] h enough whole = refl
hex_nibbles-value (suc rounds) n (a ∷ b ∷ c ∷ d ∷ binary) h enough whole =
    let v = (((0 + (a - b'0')) * 2 + (b - b'0')) * 2 + (c - b'0')) * 2 + (d - b'0') in
    let small : v < 16 = omega (
      arith,
      binary_digit a h.0,
      binary_digit b h.1.0,
      binary_digit c h.1.1.0,
      binary_digit d h.1.1.1.0,
    ) in
    ap (λ m. hex_value (n * 16 + m) (hex_nibbles rounds binary)) (hex_char_digit v small)
    ∙ hex_nibbles-value rounds (n * 16 + v) binary h.1.1.1.1 (omega arith) (omega arith)
    ∙ ap (λ m. nibble_value m binary) (omega arith)
hex_nibbles-value rounds n binary h enough whole = ground arith

-- The sum of the digits, each weighed by its place, of a number of `n` binary digits.
unfoldable pub sum_of_bits : (ℕ → ℕ) → ℕ → ℕ
sum_of_bits digit zero = 0
sum_of_bits digit (suc n) = sum_of_bits digit n + digit n * 2 ^ n

pub sum_of_bits_cong :
    (p q : ℕ → ℕ) (n : ℕ) → ((b : ℕ) → b < n → p b ≡ q b) → sum_of_bits p n ≡ sum_of_bits q n
unfolding sum_of_bits
sum_of_bits_cong p q zero same = refl
sum_of_bits_cong p q (suc n) same =
    ap (λ s. s + p n * 2 ^ n) (sum_of_bits_cong p q n (λ b h. same b (omega arith)))
    ∙ ap (λ d. sum_of_bits q n + d * 2 ^ n) (same n (omega arith))

-- the digit at the place `b`, counted from the right
abbrev pub digit_at : Bytes → ℕ → ℕ
digit_at binary b = get_or binary (length binary - 1 - b) b'0' - b'0'

digit_at_tail : (c : ℕ) (s : Bytes) (b : ℕ) → b < length s → digit_at (c ∷ s) b ≡ digit_at s b
digit_at_tail c s b h = ap (λ i. get_or (c ∷ s) i b'0' - b'0') at
  where
    at : suc (length s) - 1 - b ≡ suc (length s - 1 - b)
    at = omega (arith, h)

digit_at_head : (c : ℕ) (s : Bytes) → digit_at (c ∷ s) (length s) ≡ c - b'0'
digit_at_head c s = ap (λ i. get_or (c ∷ s) i b'0' - b'0') at
  where
    at : suc (length s) - 1 - length s ≡ 0
    at = omega arith

place : (n d p t : ℕ) → (n * 2 + d) * p + t ≡ n * (p * 2) + (t + d * p)
place n d p t = omega arith

nibble_value-sum :
    (n : ℕ) (s : Bytes) → nibble_value n s ≡ n * 2 ^ length s + sum_of_bits (digit_at s) (length s)
unfolding nibble_value sum_of_bits
nibble_value-sum n [] = omega arith
nibble_value-sum n (c ∷ s) =
    nibble_value-sum (n * 2 + (c - b'0')) s
    ∙ place n (c - b'0') (2 ^ length s) _
    ∙ ap₂ (λ p q. n * p + q) (sym (pow-suc 2 (length s)))
        (ap₂ (λ t d. t + d * 2 ^ length s)
          (sym (sum_of_bits_cong (digit_at (c ∷ s)) (digit_at s) (length s) (digit_at_tail c s)))
          (sym (digit_at_head c s)))

-- The hexadecimal digits of a string of whole nibbles stand for the sum of its binary digits.
pub binary_string_to_hex-value :
    (binary : Bytes)
    → All IsBinary binary
    → length binary % 4 ≡ 0
    → hex_value 0 (binary_string_to_hex binary) ≡ sum_of_bits (digit_at binary) (length binary)
unfolding binary_string_to_hex
binary_string_to_hex-value binary h whole =
    hex_nibbles-value (length binary) 0 binary h (omega arith) whole
    ∙ nibble_value-sum 0 binary
    ∙ omega arith
