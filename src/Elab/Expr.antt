-- ===== src/Elab/Expr.antt =====
-- The evaluator of parsed expressions in elaborator.cpp: `evaluate_expression`,
-- `evaluate_expression_primary` and what reads a number out of them. `none` is the exception
-- of a number literal that does not fit in 64 bits with a sign.
pub mod Integers
pub mod Bounds
pub mod Operators
pub mod Literals
use Prim.Native.Nat.{bit_and, bit_or, bit_xor}
use systemrdl_toolkit.Base.Options.{◌>>=◌}
use systemrdl_toolkit.Base.{
  ℕ, ◌+◌, ◌-◌, Bool, true, false, not, ◌&&◌, ◌||◌, List, [], ◌∷◌, ◌++◌, Bytes, codes, eq_bytes,
  Option, none, some, leb, ◌==◌, if◌then◌else◌, drop, take, length, to_string,
}
use systemrdl_toolkit.Elab.Model.{PropertyValue, text, integer, boolean, Properties, add64, sub64}
use systemrdl_toolkit.Elab.NodeSize.{resolve_parameter_reference}
use systemrdl_toolkit.Elab.ExprText.{mul64, all_words, or_text}
use systemrdl_toolkit.Elab.ExprTree.{
  UnaryOperator, positive, negative, complement, negation, reduction, BinaryOperator, add, subtract,
  multiply, divide, modulo, power, bits_and, bits_or, bits_xor, shift_left, shift_right, less,
  less_equal, greater, greater_equal, equal, not_equal, both, either, bits_xnor, Expr, unary,
  binary, ternary, nop, Primary, number, string_literal, boolean_literal, text_literal, paren_expr,
  reference, expr_text, primary_text,
}
use systemrdl_toolkit.Elab.Int64.{
  as_number, negate64, complement64, divide64, modulo64, power64, shift_left64, shift_right64,
  less64, signed_string,
}
use systemrdl_toolkit.Elab.Numbers.{stoll_prefixed, stoull_prefixed}

unfoldable pub unary_integer : UnaryOperator → ℕ → Option PropertyValue
unary_integer positive val = some (integer val)
unary_integer negative val = some (integer (negate64 val))
unary_integer complement val = some (integer (complement64 val))
unary_integer negation val = some (integer (as_number (val == 0)))
unary_integer (reduction s) val = none

abbrev pub unary_value : UnaryOperator → PropertyValue → Option PropertyValue
unary_value op (integer val) = unary_integer op val
unary_value op (text s) = none
unary_value op (boolean b) = none

unfoldable pub binary_integer : BinaryOperator → ℕ → ℕ → Option ℕ
unfolding divide64 modulo64 power64 shift_left64 shift_right64 less64
binary_integer add l r = some (add64 l r)
binary_integer subtract l r = some (sub64 l r)
binary_integer multiply l r = some (mul64 l r)
binary_integer divide l r = some (divide64 l r)
binary_integer modulo l r = some (modulo64 l r)
binary_integer power l r = some (power64 l r)
binary_integer bits_and l r = some (bit_and l r)
binary_integer bits_or l r = some (bit_or l r)
binary_integer bits_xor l r = some (bit_xor l r)
binary_integer shift_left l r = some (shift_left64 l r)
binary_integer shift_right l r = some (shift_right64 l r)
binary_integer less l r = some (as_number (less64 l r))
binary_integer less_equal l r = some (as_number (not (less64 r l)))
binary_integer greater l r = some (as_number (less64 r l))
binary_integer greater_equal l r = some (as_number (not (less64 l r)))
binary_integer equal l r = some (as_number (l == r))
binary_integer not_equal l r = some (as_number (not (l == r)))
binary_integer both l r = some (as_number (not (l == 0) && not (r == 0)))
binary_integer either l r = some (as_number (not (l == 0) || not (r == 0)))
binary_integer (bits_xnor s) l r = none

-- `string_val` of a text and `int_val`, zero in a truth value, of anything else
unfoldable pub as_text : PropertyValue → Bytes
unfolding signed_string to_string
as_text (text s) = s
as_text (integer n) = signed_string n
as_text (boolean b) = to_string 0

abbrev pub concatenated : PropertyValue → PropertyValue → Option PropertyValue
concatenated (text s) right = some (text (s ++ as_text right))
concatenated left (text s) = some (text (as_text left ++ s))
concatenated left right = none

abbrev pub number_value : Option ℕ → Option PropertyValue
number_value none = none
number_value (some n) = some (integer n)

-- a sum with a text joins texts
unfoldable pub binary_value : BinaryOperator → PropertyValue → PropertyValue → Option PropertyValue
unfolding binary_integer as_text
binary_value op (integer l) (integer r) = number_value (binary_integer op l r)
binary_value add left right = concatenated left right
binary_value op left right = none

abbrev pub is_true : PropertyValue → Bool
is_true (integer n) = not (n == 0)
is_true (boolean b) = b
is_true (text s) = false

-- `str[0] == '"' && str.back() == '"'` of a text of two bytes or more
unfoldable pub without_quotes : Bytes → Bytes
unfolding eq_bytes
without_quotes s =
    if leb 2 (length s)
      && (eq_bytes (take 1 s) (b'"' ∷ []) && eq_bytes (drop (length s - 1) s) (b'"' ∷ []))
    then take (length s - 2) (drop 1 s)
    else s

-- an identifier, perhaps the name of a parameter
unfoldable pub reference_value : Properties → Bytes → PropertyValue
unfolding all_words resolve_parameter_reference
reference_value parameters s =
    if all_words s then resolve_parameter_reference parameters s else text s

unfoldable mutual
  unfolding unary_integer binary_value without_quotes reference_value stoll_prefixed eq_bytes
      expr_text

  pub evaluate_expression : Properties → Expr → Option PropertyValue
  evaluate_expression parameters (unary op p) = do
    operand ← evaluate_expression_primary parameters p
    some (or_text (unary_value op operand) (expr_text (unary op p)))
  evaluate_expression parameters (binary op l r) = do
    left ← evaluate_expression parameters l
    right ← evaluate_expression parameters r
    some (or_text (binary_value op left right) (expr_text (binary op l r)))
  evaluate_expression parameters (ternary c a b) = do
    let true_branch = evaluate_expression parameters a
    let false_branch = evaluate_expression parameters b
    condition ← evaluate_expression parameters c
    if is_true condition then true_branch else false_branch
  evaluate_expression parameters (nop p) = evaluate_expression_primary parameters p

  pub evaluate_expression_primary : Properties → Primary → Option PropertyValue
  evaluate_expression_primary parameters (number s) = number_value (stoll_prefixed s)
  evaluate_expression_primary parameters (string_literal s) = some (text (without_quotes s))
  evaluate_expression_primary parameters (boolean_literal s) =
      some (boolean (eq_bytes s (codes "true")))
  evaluate_expression_primary parameters (text_literal s) = some (text s)
  evaluate_expression_primary parameters (paren_expr e) = evaluate_expression parameters e
  evaluate_expression_primary parameters (reference s) = some (reference_value parameters s)

abbrev pub or_zero : Option ℕ → ℕ
or_zero none = 0
or_zero (some n) = n

abbrev pub integer_of : PropertyValue → ℕ
integer_of (integer n) = n
integer_of (text s) = or_zero (stoll_prefixed s)
integer_of (boolean b) = 0

unfoldable pub evaluate_integer_expression_enhanced : Properties → Expr → Option ℕ
unfolding evaluate_expression stoll_prefixed
evaluate_integer_expression_enhanced parameters e = do
  value ← evaluate_expression parameters e
  some (integer_of value)

-- what is no number is read from the text of the expression
abbrev pub address_of : PropertyValue → Bytes → ℕ
address_of (integer n) s = n
address_of (text t) s = or_zero (stoull_prefixed s)
address_of (boolean b) s = or_zero (stoull_prefixed s)

unfoldable pub evaluate_address_expression : Properties → Expr → Option ℕ
unfolding evaluate_expression stoull_prefixed expr_text
evaluate_address_expression parameters e = do
  value ← evaluate_expression parameters e
  some (address_of value (expr_text e))

-- `prop_assignment_rhs`: a `precedencetype_literal` or an expression
pub data PropertyRhs : Type 0 where
  precedence : Bytes → PropertyRhs
  expression : Expr → PropertyRhs

unfoldable pub evaluate_property_value : Properties → PropertyRhs → Option PropertyValue
unfolding evaluate_expression
evaluate_property_value parameters (precedence s) = some (text s)
evaluate_property_value parameters (expression e) = evaluate_expression parameters e
