-- ===== src/Elab/Expr/Bounds.antt =====
-- Every integer that the evaluator returns is a bit pattern of 64 bits.
use systemrdl_toolkit.Base.{
  ℕ, ◌<◌, ◌≡◌, Bool, true, false, Bytes, Option, none, some, arith, if◌then◌else◌, Bool-cases, inl,
  inr, subst, sym, Option-cases, ◌==◌,
}
use systemrdl_toolkit.Base.Options.{◌>>=◌, bind-some}
use systemrdl_toolkit.Elab.Model.{
  PropertyValue, text, integer, boolean, Properties, get_property, word,
}
use systemrdl_toolkit.Elab.NodeSize.{resolve_parameter_reference}
use systemrdl_toolkit.Elab.ExprText.{all_words, or_text}
use systemrdl_toolkit.Elab.ExprTree.{
  UnaryOperator, positive, negative, complement, negation, reduction, BinaryOperator, add, subtract,
  multiply, divide, modulo, power, bits_and, bits_or, bits_xor, shift_left, shift_right, bits_xnor,
  Expr, unary, binary, ternary, nop, Primary, number, string_literal, boolean_literal, text_literal,
  paren_expr, reference,
}
use systemrdl_toolkit.Elab.Int64.{as_number}
use systemrdl_toolkit.Elab.Int64.Bounds.{
  bit_and-lt, bit_or-lt, bit_xor-lt, divide64-lt, modulo64-lt, power64-lt, shift_left64-lt,
  shift_right64-lt,
}
use systemrdl_toolkit.Elab.Numbers.{stoll_prefixed}
use systemrdl_toolkit.Elab.Expr.{
  evaluate_expression, evaluate_expression_primary, unary_integer, unary_value, binary_integer,
  binary_value, reference_value, number_value, is_true, integer_of, or_zero,
  evaluate_integer_expression_enhanced,
}
use systemrdl_toolkit.Elab.Expr.Integers.{
  IsWord, HasWords, get_property-IsWord, stoll_prefixed-lt, binary_value-integers,
}

as_number-lt : (b : Bool) → as_number b < word
as_number-lt true = omega arith
as_number-lt false = omega arith

-- what a result holds, if there is one
abbrev pub IfSome {ℓ κ} : {A : Type ℓ} → (A → Type κ) → Option A → Type κ
IfSome P none = Unit
IfSome P (some a) = P a

binary_integer-lt :
    (op : BinaryOperator) (l r : ℕ)
    → l < word
    → r < word
    → IfSome (λ n. n < word) (binary_integer op l r)
unfolding binary_integer
binary_integer-lt add l r p q = omega arith
binary_integer-lt subtract l r p q = omega arith
binary_integer-lt multiply l r p q = omega arith
binary_integer-lt divide l r p q = divide64-lt l r p
binary_integer-lt modulo l r p q = modulo64-lt l r p
binary_integer-lt power l r p q = power64-lt l r
binary_integer-lt bits_and l r p q = bit_and-lt l r p q
binary_integer-lt bits_or l r p q = bit_or-lt l r p q
binary_integer-lt bits_xor l r p q = bit_xor-lt l r p q
binary_integer-lt shift_left l r p q = shift_left64-lt l r
binary_integer-lt shift_right l r p q = shift_right64-lt l r p
binary_integer-lt (bits_xnor s) l r p q = tt
binary_integer-lt _ l r p q = as_number-lt _

abbrev pub Words : Option PropertyValue → Type 0
Words = IfSome IsWord

number_value-Words : (o : Option ℕ) → IfSome (λ n. n < word) o → Words (number_value o)
number_value-Words none h = tt
number_value-Words (some n) h = h

unary_value-Words : (op : UnaryOperator) (v : PropertyValue) → IsWord v → Words (unary_value op v)
unfolding unary_integer
unary_value-Words positive (integer n) h = h
unary_value-Words negative (integer n) h = omega arith
unary_value-Words complement (integer n) h = omega arith
unary_value-Words negation (integer n) h = as_number-lt (n == 0)
unary_value-Words (reduction s) (integer n) h = tt
unary_value-Words op (text s) h = tt
unary_value-Words op (boolean b) h = tt

stoll_prefixed-Below : (s : Bytes) → IfSome (λ n. n < word) (stoll_prefixed s)
stoll_prefixed-Below s = elim (Option-cases (stoll_prefixed s)) [
  | inl e ↦ rw e tt
  | inr (n, e) ↦ rw e (stoll_prefixed-lt s n e)
]

binary_value-Words :
    (op : BinaryOperator) (v w : PropertyValue) → IsWord v → IsWord w → Words (binary_value op v w)
unfolding binary_value
binary_value-Words op (integer l) (integer r) h k =
    subst Words (sym (binary_value-integers op l r))
      (number_value-Words (binary_integer op l r) (binary_integer-lt op l r h k))
binary_value-Words add (integer l) (text s) h k = tt
binary_value-Words add (integer l) (boolean b) h k = tt
binary_value-Words add (text s) w h k = tt
binary_value-Words add (boolean b) (text s) h k = tt
binary_value-Words _ _ _ h k = tt

or_text-IsWord : (o : Option PropertyValue) (s : Bytes) → Words o → IsWord (or_text o s)
or_text-IsWord none s h = tt
or_text-IsWord (some v) s h = h

reference_value-IsWord :
    (parameters : Properties) (s : Bytes)
    → HasWords parameters
    → IsWord (reference_value parameters s)
unfolding reference_value resolve_parameter_reference
reference_value-IsWord parameters s h = elim (Bool-cases (all_words s)) [
  | inr f ↦ subst IsWord {x = text s} (ground (arith)) tt
  | inl w ↦ elim (Option-cases (get_property s parameters)) [
    | inl e ↦ subst IsWord {x = text s} (ground (arith)) tt
    | inr (v, e) ↦ subst IsWord (ground (arith)) (get_property-IsWord parameters s v h e)
  ]
]

choice-IsWord :
    (c : Bool) (a b : Option PropertyValue) → Words a → Words b → Words (if c then a else b)
choice-IsWord true a b h k = h
choice-IsWord false a b h k = k

bind-Words :
    (o : Option PropertyValue) (f : PropertyValue → Option PropertyValue)
    → Words o
    → ((v : PropertyValue) → IsWord v → Words (f v))
    → Words (o >>= f)
bind-Words none f h k = tt
bind-Words (some v) f h k = k v h

mutual
  unfolding evaluate_expression

  evaluate-Words :
      (parameters : Properties) (e : Expr)
      → HasWords parameters
      → Words (evaluate_expression parameters e)
  evaluate-Words parameters (unary op p) h =
      bind-Words (evaluate_expression_primary parameters p) _
        (evaluate_primary-Words parameters p h)
        λ v hv. or_text-IsWord (unary_value op v) _ (unary_value-Words op v hv)
  evaluate-Words parameters (binary op l r) h =
      bind-Words (evaluate_expression parameters l) _ (evaluate-Words parameters l h) λ v hv.
        bind-Words (evaluate_expression parameters r) _ (evaluate-Words parameters r h)
          λ w hw. or_text-IsWord (binary_value op v w) _ (binary_value-Words op v w hv hw)
  evaluate-Words parameters (ternary c a b) h =
      bind-Words (evaluate_expression parameters c) _ (evaluate-Words parameters c h) λ v _.
        choice-IsWord (is_true v) _ _ (evaluate-Words parameters a h)
          (evaluate-Words parameters b h)
  evaluate-Words parameters (nop p) h = evaluate_primary-Words parameters p h

  evaluate_primary-Words :
      (parameters : Properties) (p : Primary)
      → HasWords parameters
      → Words (evaluate_expression_primary parameters p)
  evaluate_primary-Words parameters (number s) h =
      number_value-Words (stoll_prefixed s) (stoll_prefixed-Below s)
  evaluate_primary-Words parameters (string_literal s) h = tt
  evaluate_primary-Words parameters (boolean_literal s) h = tt
  evaluate_primary-Words parameters (text_literal s) h = tt
  evaluate_primary-Words parameters (paren_expr e) h = evaluate-Words parameters e h
  evaluate_primary-Words parameters (reference s) h = reference_value-IsWord parameters s h

integer_of-lt : (v : PropertyValue) → IsWord v → integer_of v < word
integer_of-lt (integer n) h = h
integer_of-lt (text s) h = or_zero-lt (stoll_prefixed s) (stoll_prefixed-Below s)
  where
    or_zero-lt : (o : Option ℕ) → IfSome (λ n. n < word) o → or_zero o < word
    or_zero-lt none h = omega arith
    or_zero-lt (some n) h = h
integer_of-lt (boolean b) h = omega arith

enhanced-lt :
    (parameters : Properties) (e : Expr) (n : ℕ)
    → Words (evaluate_expression parameters e)
    → evaluate_integer_expression_enhanced parameters e ≡ some n
    → n < word
unfolding evaluate_integer_expression_enhanced
enhanced-lt parameters e n h q =
    let (v, ev, en) = bind-some (evaluate_expression parameters e) _ q in
    subst (λ k. k < word) (ground (arith)) (integer_of-lt v (subst Words ev h))

-- Whatever operators an expression is built from, an integer that it is evaluated to is below
-- 2 ^ 64, so that it is a bit pattern of 64 bits, where those among the parameters are. So is what
-- is read from an expression as an integer.
pub evaluate_expression-IsWord :
    (parameters : Properties) (e : Expr)
    → HasWords parameters
    → ((n : ℕ) → evaluate_expression parameters e ≡ some (integer n) → n < word)
      × ((n : ℕ) → evaluate_integer_expression_enhanced parameters e ≡ some n → n < word)
evaluate_expression-IsWord parameters e h =
    let words = evaluate-Words parameters e h in
    (λ n q. subst Words q words, λ n q. enhanced-lt parameters e n words q)
