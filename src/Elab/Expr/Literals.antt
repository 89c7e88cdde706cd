-- ===== src/Elab/Expr/Literals.antt =====
-- The numbers that literals stand for, digit by digit, and that `std::stoll` reads them.
use native.Mathlib.Nat.{pow-suc}
use systemrdl_toolkit.Base.{
  ℕ, suc, ◌+◌, ◌-◌, ◌*◌, ◌^◌, ◌<◌, ◌≡◌, refl, Bool, true, false, ◌&&◌, ◌||◌, [], ◌∷◌, Bytes, codes,
  eq_bytes, Option, none, some, leb, ◌==◌, if◌then◌else◌, take, drop, length, arith, Bool-cases,
  inl, inr, ap, ◌∙◌,
}
use systemrdl_toolkit.Base.Options.{◌>>=◌, bind-some}
use systemrdl_toolkit.Elab.Reg.ArrayOrder.{leading_digits, is_space}
use systemrdl_toolkit.Elab.ExprText.{signed, stoll}
use systemrdl_toolkit.Elab.Numbers.{
  hex_digit, leading_hex_digits, hex_number, has_hex_prefix, parse_integer, stoll_prefixed,
}

abbrev pub decimal_value : ℕ → Option ℕ
decimal_value c = if leb b'0' c && leb c b'9' then some (c - b'0') else none

abbrev pub hexadecimal_value : ℕ → Option ℕ
hexadecimal_value c =
    if leb b'0' c && leb c b'9'
    then some (c - b'0')
    else if leb b'a' c && leb c b'f'
    then some (10 + (c - b'a'))
    else if leb b'A' c && leb c b'F'
    then some (10 + (c - b'A'))
    else none

-- the sum of the digits, each by the power of the base that its place is worth; all are digits
unfoldable pub place_value : ℕ → (ℕ → Option ℕ) → Bytes → Option ℕ
place_value base digit [] = some 0
place_value base digit (c ∷ s) = do
  d ← digit c
  v ← place_value base digit s
  some (d * base ^ length s + v)

-- digits, one at least
abbrev pub some_digits : ℕ → (ℕ → Option ℕ) → Bytes → Option ℕ
some_digits base digit [] = none
some_digits base digit (c ∷ s) = place_value base digit (c ∷ s)

abbrev pub is_hexadecimal : Bytes → Bool
is_hexadecimal s = eq_bytes (take 2 s) (codes "0x") || eq_bytes (take 2 s) (codes "0X")

-- a number literal of decimal digits, or of hexadecimal ones behind 0x
unfoldable pub numeral : Bytes → Option ℕ
unfolding place_value eq_bytes
numeral s =
    if is_hexadecimal s
    then some_digits 16 hexadecimal_value (drop 2 s)
    else some_digits 10 decimal_value s

-- one digit more in front of the others
more_digits :
    (base a d n w v : ℕ)
    → some (d * base ^ n + w) ≡ some v
    → (a * base + d) * base ^ n + w ≡ a * base ^ suc n + v
more_digits base a d n w v h =
    let value : d * base ^ n + w ≡ v = ground arith in
    let more : (a * base + d) * base ^ n + w ≡ a * (base ^ n * base) + (d * base ^ n + w) =
      grind arith in
    rw pow-suc (more ∙ ap (λ (t : ℕ). a * (base ^ n * base) + t) value)

decimal_value-digit :
    (c d : ℕ) → decimal_value c ≡ some d → ((leb b'0' c && leb c b'9') ≡ true) × (c - b'0' ≡ d)
decimal_value-digit c d h = (ground arith, ground arith)

leading_digits-value :
    (s : Bytes) (a v : ℕ)
    → place_value 10 decimal_value s ≡ some v
    → leading_digits (some a) s ≡ some (a * 10 ^ length s + v)
unfolding leading_digits place_value
leading_digits-value [] a v e = ground arith
leading_digits-value (c ∷ s) a v e =
    let (d, ed, e') = bind-some (decimal_value c) _ e in
    let (w, ew, ev) = bind-some (place_value 10 decimal_value s) _ e' in
    let (is_digit, value) = decimal_value-digit c d ed in
    rw (is_digit, value, leading_digits-value s (a * 10 + d) w ew)
      (ap (λ (t : ℕ). some t) (more_digits 10 a d (length s) w v ev))

hexadecimal_value-digit : (c : ℕ) → hex_digit c ≡ hexadecimal_value c
unfolding hex_digit
hexadecimal_value-digit c = ground arith

leading_hex_digits-value :
    (s : Bytes) (a v : ℕ)
    → place_value 16 hexadecimal_value s ≡ some v
    → leading_hex_digits (some a) s ≡ some (a * 16 ^ length s + v)
unfolding leading_hex_digits place_value
leading_hex_digits-value [] a v e = ground arith
leading_hex_digits-value (c ∷ s) a v e =
    let (d, ed, e') = bind-some (hexadecimal_value c) _ e in
    let (w, ew, ev) = bind-some (place_value 16 hexadecimal_value s) _ e' in
    rw
      (
        leading_hex_digits,
        hexadecimal_value-digit c,
        ed,
        leading_hex_digits-value s (a * 16 + d) w ew,
      )
      (ap (λ (t : ℕ). some t) (more_digits 16 a d (length s) w v ev))

first_digits :
    (base d n w v : ℕ) → some (d * base ^ n + w) ≡ some v → (0 * base + d) * base ^ n + w ≡ v
first_digits base d n w v h = more_digits base 0 d n w v h ∙ omega arith

leading_digits-front :
    (c : ℕ) (s : Bytes) (v : ℕ)
    → place_value 10 decimal_value (c ∷ s) ≡ some v
    → leading_digits none (c ∷ s) ≡ some v
unfolding leading_digits place_value
leading_digits-front c s v e =
    let (d, ed, e') = bind-some (decimal_value c) _ e in
    let (w, ew, ev) = bind-some (place_value 10 decimal_value s) _ e' in
    let (is_digit, value) = decimal_value-digit c d ed in
    rw (leading_digits, is_digit, value, leading_digits-value s (0 * 10 + d) w ew)
      (ap (λ (t : ℕ). some t) (first_digits 10 d (length s) w v ev))

leading_hex_digits-front :
    (c : ℕ) (s : Bytes) (v : ℕ)
    → place_value 16 hexadecimal_value (c ∷ s) ≡ some v
    → leading_hex_digits none (c ∷ s) ≡ some v
unfolding leading_hex_digits place_value
leading_hex_digits-front c s v e =
    let (d, ed, e') = bind-some (hexadecimal_value c) _ e in
    let (w, ew, ev) = bind-some (place_value 16 hexadecimal_value s) _ e' in
    rw
      (
        leading_hex_digits,
        hexadecimal_value-digit c,
        ed,
        leading_hex_digits-value s (0 * 16 + d) w ew,
      )
      (ap (λ (t : ℕ). some t) (first_digits 16 d (length s) w v ev))

first_digit :
    (c d : ℕ)
    → decimal_value c ≡ some d
    → (is_space c ≡ false) × ((c == b'-') ≡ false) × ((c == b'+') ≡ false)
first_digit c d h = (ground arith, ground arith, ground arith)

signed-small : (v : ℕ) → v < 2 ^ 63 → signed false (some v) ≡ some v
signed-small v h = ground arith

stoll-value :
    (c : ℕ) (s : Bytes) (v : ℕ)
    → place_value 10 decimal_value (c ∷ s) ≡ some v
    → v < 2 ^ 63
    → stoll (c ∷ s) ≡ some v
unfolding stoll place_value
stoll-value c s v e small =
    let (d, ed, e') = bind-some (decimal_value c) _ e in
    let (no_space, no_minus, no_plus) = first_digit c d ed in
    rw (stoll, no_space, no_minus, no_plus, leading_digits-front c s v e) (signed-small v small)

hex_number-value :
    (a b c : ℕ) (s : Bytes) (v : ℕ)
    → is_hexadecimal (a ∷ (b ∷ (c ∷ s))) ≡ true
    → place_value 16 hexadecimal_value (c ∷ s) ≡ some v
    → hex_number (a ∷ (b ∷ (c ∷ s))) ≡ some v
unfolding hex_number place_value eq_bytes
hex_number-value a b c s v prefix e =
    let (d, ed, e') = bind-some (hexadecimal_value c) _ e in
    let marked : (a == b'0' && (b == b'x' || b == b'X')) ≡ true = ground arith in
    rw (hex_number, hexadecimal_value-digit c, ed, marked, leading_hex_digits-front c s v e) refl

-- `std::stoll` with the prefix
hexadecimal-value :
    (s : Bytes) (v : ℕ)
    → is_hexadecimal s ≡ true
    → some_digits 16 hexadecimal_value (drop 2 s) ≡ some v
    → v < 2 ^ 63
    → parse_integer signed hex_number s ≡ some v
unfolding parse_integer eq_bytes
hexadecimal-value [] v prefix e small = absurd (ground arith)
hexadecimal-value (a ∷ []) v prefix e small = absurd (ground arith)
hexadecimal-value (a ∷ (b ∷ [])) v prefix e small = absurd (ground arith)
hexadecimal-value (a ∷ (b ∷ (c ∷ s))) v prefix e small =
    let zero_first : a ≡ b'0' = ground arith in
    let no_space : is_space a ≡ false = ground arith in
    let no_minus : (a == b'-') ≡ false = ground arith in
    let no_plus : (a == b'+') ≡ false = ground arith in
    rw (parse_integer, no_space, no_minus, no_plus, hex_number-value a b c s v prefix e)
      (signed-small v small)

decimal-value :
    (s : Bytes) (v : ℕ) → some_digits 10 decimal_value s ≡ some v → v < 2 ^ 63 → stoll s ≡ some v
decimal-value [] v e small = absurd (ground arith)
decimal-value (c ∷ s) v e small = stoll-value c s v e small

-- a literal is read as the number that its digits make up
pub stoll_prefixed-numeral :
    (s : Bytes) (v : ℕ) → numeral s ≡ some v → v < 2 ^ 63 → stoll_prefixed s ≡ some v
unfolding numeral stoll_prefixed has_hex_prefix
stoll_prefixed-numeral s v e small = elim (Bool-cases (is_hexadecimal s)) [
  | inl h ↦
      rw (stoll_prefixed, has_hex_prefix, h) (hexadecimal-value s v h (rw (numeral, h) at e) small)
  | inr d ↦ rw (stoll_prefixed, has_hex_prefix, d) (decimal-value s v (rw (numeral, d) at e) small)
]
