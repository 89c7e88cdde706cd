-- ===== src/Elab/Numbers.antt =====
-- `std::stoll` and `std::stoull` at the bases that elaborator.cpp asks for. `none` is an exception:
-- no digits, or a number that does not fit.
use systemrdl_toolkit.Base.{
  ℕ, ◌+◌, ◌-◌, ◌*◌, Bool, true, false, ◌&&◌, ◌||◌, [], ◌∷◌, Bytes, codes, eq_bytes, Option, none,
  some, ltb, leb, ◌==◌, if◌then◌else◌, take,
}
use systemrdl_toolkit.Elab.Model.{word, sub64}
use systemrdl_toolkit.Elab.ExprText.{signed, stoll}
use systemrdl_toolkit.Elab.Reg.ArrayOrder.{is_space, so_far, leading_digits}

-- the value of a hexadecimal digit
unfoldable pub hex_digit : ℕ → Option ℕ
hex_digit c =
    if leb b'0' c && leb c b'9'
    then some (c - b'0')
    else (if leb b'a' c && leb c b'f'
        then some (c - b'a' + 10)
        else (if leb b'A' c && leb c b'F' then some (c - b'A' + 10) else none))

-- the number that the digits in front make up, once a digit was seen
unfoldable pub leading_hex_digits : Option ℕ → Bytes → Option ℕ
unfolding hex_digit
leading_hex_digits seen [] = seen
leading_hex_digits seen (c ∷ s) = elim (hex_digit c) [
  | none ↦ seen
  | some d ↦ leading_hex_digits (some (so_far seen * 16 + d)) s
]

-- The prefix is skipped where a digit follows it.
unfoldable pub hex_number : Bytes → Option ℕ
unfolding leading_hex_digits hex_digit
hex_number (a ∷ (b ∷ (c ∷ s))) = elim (hex_digit c) [
  | none ↦ leading_hex_digits none (a ∷ (b ∷ (c ∷ s)))
  | some d ↦
      if a == b'0' && (b == b'x' || b == b'X')
      then leading_hex_digits none (c ∷ s)
      else leading_hex_digits none (a ∷ (b ∷ (c ∷ s)))
]
hex_number s = leading_hex_digits none s

unfoldable pub leading_octal_digits : Option ℕ → Bytes → Option ℕ
leading_octal_digits seen [] = seen
leading_octal_digits seen (c ∷ s) =
    let more = leading_octal_digits (some (so_far seen * 8 + (c - b'0'))) s in
    if leb b'0' c && leb c b'7' then more else seen

-- `text.substr(0, 2) == "0x" || text.substr(0, 2) == "0X"`
unfoldable pub has_hex_prefix : Bytes → Bool
unfolding eq_bytes
has_hex_prefix s = eq_bytes (take 2 s) (codes "0x") || eq_bytes (take 2 s) (codes "0X")

-- base 0: the prefix of the text tells the base
unfoldable pub any_number : Bytes → Option ℕ
unfolding has_hex_prefix hex_number leading_octal_digits leading_digits
any_number [] = none
any_number (c ∷ s) =
    if has_hex_prefix (c ∷ s)
    then hex_number (c ∷ s)
    else (if c == b'0' then leading_octal_digits none (c ∷ s) else leading_digits none (c ∷ s))

-- white space, a sign and a number
unfoldable pub parse_integer : (Bool → Option ℕ → Option ℕ) → (Bytes → Option ℕ) → Bytes → Option ℕ
parse_integer in_range digits [] = none
parse_integer in_range digits (c ∷ s) =
    let later = parse_integer in_range digits s in
    if is_space c
    then later
    else (if c == b'-'
        then in_range true (digits s)
        else (if c == b'+' then in_range false (digits s) else in_range false (digits (c ∷ s))))

-- an unsigned number, which a sign negates
abbrev pub unsigned : Bool → Option ℕ → Option ℕ
unsigned minus none = none
unsigned true (some n) = if ltb n word then some (sub64 0 n) else none
unsigned false (some n) = if ltb n word then some n else none

-- `std::stoll` to the base of 16 where the text has the prefix, and of 10 otherwise
unfoldable pub stoll_prefixed : Bytes → Option ℕ
unfolding has_hex_prefix parse_integer hex_number stoll
stoll_prefixed s = if has_hex_prefix s then parse_integer signed hex_number s else stoll s

-- `std::stoull`, likewise
unfoldable pub stoull_prefixed : Bytes → Option ℕ
unfolding has_hex_prefix parse_integer hex_number leading_digits
stoull_prefixed s =
    if has_hex_prefix s
    then parse_integer unsigned hex_number s
    else parse_integer unsigned (leading_digits none) s

-- `std::stoull` to the base of 0
unfoldable pub stoull_any : Bytes → Option ℕ
unfolding parse_integer any_number
stoull_any s = parse_integer unsigned any_number s
