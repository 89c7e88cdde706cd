-- ===== src/Elab/ExprText.antt =====
-- `evaluate_expression_from_string` in elaborator.cpp: the value of an expression that is known
-- only as a text, from the parameters that have a value. A number of type `int64_t` is its bit
-- pattern; where the language leaves the result open, a sum or product wraps around, and a shift
-- counts modulo 64.
pub mod Search
pub mod Operators
pub mod Rounds
use systemrdl_toolkit.Base.{
  ℕ, zero, suc, ◌+◌, ◌-◌, ◌*◌, ◌^◌, ◌%◌, Bool, true, false, not, ◌&&◌, ◌||◌, List, [], ◌∷◌, ◌++◌,
  Bytes, codes, eq_bytes, Option, none, some, ltb, leb, ◌==◌, if◌then◌else◌, take, drop, substr,
  length, is_empty, find_first_not_of,
}
use systemrdl_toolkit.Elab.Model.{
  PropertyValue, text, integer, boolean, Properties, word, add64, sub64,
}
use systemrdl_toolkit.Elab.NodeSize.{resolve_parameter_reference}
use systemrdl_toolkit.Elab.Reg.ArrayOrder.{find, is_space, leading_digits}

abbrev pub mul64 : ℕ → ℕ → ℕ
mul64 a b = (a * b) % word

-- a letter, a digit or an underscore
abbrev pub is_word : ℕ → Bool
is_word c =
    (leb b'a' c && leb c b'z')
    || ((leb b'A' c && leb c b'Z') || ((leb b'0' c && leb c b'9') || c == b'_'))

unfoldable pub all_words : Bytes → Bool
all_words [] = true
all_words (c ∷ s) = is_word c && all_words s

unfoldable pub starts_with : Bytes → Bytes → Bool
starts_with [] s = true
starts_with (c ∷ p) [] = false
starts_with (c ∷ p) (d ∷ s) = (c == d) && starts_with p s

-- `find` of a text that is not empty
unfoldable pub find_string : Bytes → Bytes → Option ℕ
unfolding starts_with
find_string p [] = none
find_string p (c ∷ s) =
    let later = find_string p s in
    if starts_with p (c ∷ s) then some 0 else elim later [ none ↦ none | some i ↦ some (suc i) ]

-- what `remove` of spaces leaves
unfoldable pub without_spaces : Bytes → Bytes
without_spaces [] = []
without_spaces (c ∷ s) = let rest = without_spaces s in if c == b' ' then rest else c ∷ rest

-- the number in front as an `int64_t`, where it is one
abbrev pub signed : Bool → Option ℕ → Option ℕ
signed minus none = none
signed true (some n) = if leb n (2 ^ 63) then some (sub64 0 n) else none
signed false (some n) = if ltb n (2 ^ 63) then some n else none

-- `std::stoll`; `none` where it throws
unfoldable pub stoll : Bytes → Option ℕ
unfolding leading_digits
stoll [] = none
stoll (c ∷ s) =
    let later = stoll s in
    if is_space c
    then later
    else (if c == b'-'
        then signed true (leading_digits none s)
        else (if c == b'+'
            then signed false (leading_digits none s)
            else signed false (leading_digits none (c ∷ s))))

-- the text on both sides of the first operator of that kind, without spaces
unfoldable pub operands : ℕ → Bytes → Option (Bytes × Bytes)
unfolding find_first_not_of without_spaces
operands operator expr_text = elim (find operator expr_text) [
  | none ↦ none
  | some pos ↦ some (without_spaces (take pos expr_text), without_spaces (drop (pos + 1) expr_text))
]

abbrev pub and_number : (ℕ → ℕ) → Option ℕ → Option PropertyValue
and_number f none = none
and_number f (some n) = some (integer (f n))

-- Two parameters, or a parameter on the left and a number; and, where `both_ways`, a number on
-- the left and a parameter.
unfoldable pub combine :
    (ℕ → ℕ → ℕ) → Bool → Bytes → Bytes → PropertyValue → PropertyValue → Option PropertyValue
unfolding stoll
combine f both_ways left right (integer a) (integer b) = some (integer (f a b))
combine f both_ways left right (integer a) (text s) = and_number (λ n. f a n) (stoll right)
combine f both_ways left right (text s) (integer b) =
    if both_ways then and_number (λ n. f n b) (stoll left) else none
combine f both_ways left right _ _ = none

unfoldable pub operator_pattern : Properties → (ℕ → ℕ → ℕ) → Bool → ℕ → Bytes → Option PropertyValue
unfolding operands combine resolve_parameter_reference
operator_pattern parameters f both_ways operator expr_text = elim (operands operator expr_text) [
  | none ↦ none
  | some sides ↦
      combine f both_ways sides.0 sides.1 (resolve_parameter_reference parameters sides.0)
        (resolve_parameter_reference parameters sides.1)
]

abbrev pub shifted : PropertyValue → Option PropertyValue
shifted (integer n) = some (integer (sub64 (2 ^ (n % 64)) 1))
shifted (text s) = none
shifted (boolean b) = none

-- "(1<<BASE_WIDTH)-1"
unfoldable pub shift_pattern : Properties → Bytes → Option PropertyValue
unfolding find_string resolve_parameter_reference
shift_pattern parameters expr_text = elim (find_string (codes "(1<<") expr_text) [
  | none ↦ none
  | some begin ↦ elim (find_string (codes ")-1") expr_text) [
    | none ↦ none
    | some end ↦
        if ltb (begin + 4) end
        then shifted (
            resolve_parameter_reference parameters
              (substr expr_text (begin + 4) (end - (begin + 4))))
        else none
  ]
]

abbrev pub one_less : PropertyValue → Option PropertyValue
one_less (integer n) = some (integer (sub64 n 1))
one_less (text s) = none
one_less (boolean b) = none

-- "TOTAL_WIDTH-1"
unfoldable pub minus_one_pattern : Properties → Bytes → Option PropertyValue
unfolding find_string resolve_parameter_reference without_spaces
minus_one_pattern parameters expr_text = elim (find_string (codes "-1") expr_text) [
  | none ↦ none
  | some pos ↦
      one_less (resolve_parameter_reference parameters (without_spaces (take pos expr_text)))
]

-- a parameter or a number
abbrev pub number_of : PropertyValue → Bytes → Option ℕ
number_of (integer n) s = some n
number_of (text t) s = stoll s
number_of (boolean b) s = stoll s

abbrev pub sum_of_product : Option ℕ → Option ℕ → Option ℕ → Option PropertyValue
sum_of_product (some a) (some b) (some c) = some (integer (add64 (mul64 a b) c))
sum_of_product _ _ _ = none

-- "8 * 1024 + 512"
unfoldable pub product_sum_pattern : Properties → Bytes → Option PropertyValue
unfolding find_first_not_of without_spaces resolve_parameter_reference stoll
product_sum_pattern parameters expr_text = elim (find b'*' expr_text) [
  | none ↦ none
  | some mult_pos ↦ elim (find b'+' expr_text) [
    | none ↦ none
    | some plus_pos ↦
        let a_str = without_spaces (take mult_pos expr_text) in
        let b_str = without_spaces (substr expr_text (mult_pos + 1) (plus_pos - mult_pos - 1)) in
        let c_str = without_spaces (drop (plus_pos + 1) expr_text) in
        if ltb mult_pos plus_pos
        then sum_of_product (number_of (resolve_parameter_reference parameters a_str) a_str)
            (number_of (resolve_parameter_reference parameters b_str) b_str)
            (number_of (resolve_parameter_reference parameters c_str) c_str)
        else none
  ]
]

-- the product with what stands behind the parentheses, once the text in them has a value
unfoldable pub times_rest : Properties → PropertyValue → Bytes → Option PropertyValue
unfolding resolve_parameter_reference stoll
times_rest parameters (integer n) (c ∷ right_part) =
    if c == b'*'
    then and_number (λ m. mul64 n m)
        (number_of (resolve_parameter_reference parameters right_part) right_part)
    else none
times_rest parameters _ _ = none

-- the text between the parentheses and the text behind them
unfoldable pub parentheses : Bytes → Option (Bytes × Bytes)
unfolding find_first_not_of
parentheses expr_text = elim (find b'(' expr_text) [
  | none ↦ none
  | some open_paren ↦ elim (find b')' expr_text) [
    | none ↦ none
    | some close_paren ↦
        if ltb open_paren close_paren
        then some (
          substr expr_text (open_paren + 1) (close_paren - open_paren - 1),
          drop (close_paren + 1) expr_text,
        )
        else none
  ]
]

abbrev pub or_else : Option PropertyValue → Option PropertyValue → Option PropertyValue
or_else none later = later
or_else (some value) later = some value

-- the patterns that need no recursion, in the order in which they are tried
unfoldable pub flat_patterns : Properties → Bytes → Option PropertyValue
unfolding shift_pattern operator_pattern minus_one_pattern product_sum_pattern
flat_patterns parameters expr_text = or_else (shift_pattern parameters expr_text) (
    or_else (operator_pattern parameters mul64 true b'*' expr_text) (
      or_else (operator_pattern parameters add64 true b'+' expr_text) (
        or_else (operator_pattern parameters sub64 false b'-' expr_text) (
          or_else (minus_one_pattern parameters expr_text)
            (product_sum_pattern parameters expr_text)))))

abbrev pub or_text : Option PropertyValue → Bytes → PropertyValue
or_text none expr_text = text expr_text
or_text (some value) expr_text = value

-- The recursion is on the text between parentheses, with the rounds that are left; `none` is a
-- recursion that needs more of them.
unfoldable pub evaluate_within : ℕ → Properties → Bytes → Option PropertyValue
unfolding all_words resolve_parameter_reference flat_patterns parentheses times_rest without_spaces
evaluate_within zero parameters expr_text = none
evaluate_within (suc rounds) parameters expr_text = elim (all_words expr_text) [
  | true ↦ some (resolve_parameter_reference parameters expr_text)
  | false ↦ elim (flat_patterns parameters expr_text) [
    | some value ↦ some value
    | none ↦ elim (parentheses expr_text) [
      | none ↦ some (text expr_text)
      | some parts ↦ elim (evaluate_within rounds parameters parts.0) [
        | none ↦ none
        | some inner ↦
            some (or_text (times_rest parameters inner (without_spaces parts.1)) expr_text)
      ]
    ]
  ]
]

-- What stands between parentheses is shorter than the text, so that a round for each character
-- and one more are enough.
unfoldable pub evaluate_expression_from_string : Properties → Bytes → PropertyValue
unfolding evaluate_within
evaluate_expression_from_string parameters expr_text =
    or_text (evaluate_within (suc (length expr_text)) parameters expr_text) expr_text
