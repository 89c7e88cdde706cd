-- ===== src/Elab/Expr/Integers.antt =====
-- Arithmetic in parsed expressions is that of the integers, modulo 2 ^ 64.
use systemrdl_toolkit.Base.{
  ℕ, ◌<◌, ◌^◌, ltb, ◌≡◌, refl, Bool, true, false, Bytes, ◌∷◌, [], Option, none, some, if◌then◌else◌,
  arith, All, Bool-cases, ap, inl, inr, subst, eq_bytes,
}
use systemrdl_toolkit.Base.Int.{ℤ, pos, ◌+ℤ◌, ◌-ℤ◌, ◌*ℤ◌}
use systemrdl_toolkit.Base.Options.{◌>>=◌, bind-some}
use systemrdl_toolkit.Elab.Model.{
  PropertyValue, text, integer, boolean, Properties, get_property, word, add64, sub64,
}
use systemrdl_toolkit.Elab.NodeSize.{resolve_parameter_reference}
use systemrdl_toolkit.Elab.ExprText.{mul64, all_words, stoll, signed}
use systemrdl_toolkit.Elab.ExprTree.{
  positive, negative, complement, negation, reduction, add, subtract, multiply, Expr, unary, binary,
  ternary, nop, Primary, number, paren_expr, reference, UnaryOperator, BinaryOperator,
}
use systemrdl_toolkit.Elab.Int64.{signed_value, negate64, complement64}
use systemrdl_toolkit.Elab.Int64.Congruent.{
  Congruent, signed_value-Congruent, add64-Congruent, sub64-Congruent, mul64-Congruent,
  complement64-Congruent,
}
use systemrdl_toolkit.Elab.Numbers.{stoll_prefixed, parse_integer, has_hex_prefix, hex_number}
use systemrdl_toolkit.Elab.Reg.ArrayOrder.{leading_digits}
use systemrdl_toolkit.Elab.Expr.Literals.{numeral, stoll_prefixed-numeral}
use systemrdl_toolkit.Elab.Expr.{
  evaluate_expression, evaluate_expression_primary, binary_integer, binary_value, reference_value,
  number_value,
}

abbrev pub integer_value : PropertyValue → Option ℤ
integer_value (integer n) = some (signed_value n)
integer_value (text s) = none
integer_value (boolean b) = none

abbrev pub unary_exact : UnaryOperator → ℤ → Option ℤ
unary_exact positive x = some x
unary_exact negative x = some (pos 0 -ℤ x)
unary_exact complement x = some (pos 0 -ℤ x -ℤ pos 1)
unary_exact _ x = none

abbrev pub binary_exact : BinaryOperator → ℤ → ℤ → Option ℤ
binary_exact add x y = some (x +ℤ y)
binary_exact subtract x y = some (x -ℤ y)
binary_exact multiply x y = some (x *ℤ y)
binary_exact _ x y = none

-- a literal that fits in 64 bits with a sign
abbrev small_number : ℕ → Option ℤ
small_number v = if ltb v (2 ^ 63) then some (pos v) else none

-- The integer that an expression stands for, which is built from numbers and from parameters that
-- are integers by signs, `~`, sums, differences and products.
unfoldable mutual
  unfolding numeral get_property ◌+ℤ◌ ◌-ℤ◌ ◌*ℤ◌ all_words

  pub exact : Properties → Expr → Option ℤ
  exact parameters (unary op p) = do x ← exact_primary parameters p; unary_exact op x
  exact parameters (binary op l r) = do
    x ← exact parameters l
    y ← exact parameters r
    binary_exact op x y
  exact parameters (ternary c a b) = none
  exact parameters (nop p) = exact_primary parameters p

  pub exact_primary : Properties → Primary → Option ℤ
  exact_primary parameters (number s) = do v ← numeral s; small_number v
  exact_primary parameters (paren_expr e) = exact parameters e
  exact_primary parameters (reference s) =
      if all_words s then (get_property s parameters >>= integer_value) else none
  exact_primary parameters _ = none

abbrev pub IsWord : PropertyValue → Type 0
IsWord (integer n) = n < word
IsWord (text s) = Unit
IsWord (boolean b) = Unit

abbrev pub HasWords : Properties → Type 0
HasWords = All λ p. IsWord p.1

pub get_property-IsWord :
    (parameters : Properties) (name : Bytes) (value : PropertyValue)
    → HasWords parameters
    → get_property name parameters ≡ some value
    → IsWord value
unfolding get_property
get_property-IsWord [] name value h e = absurd (ground arith)
get_property-IsWord ((key, v) ∷ parameters) name value h e = elim (Bool-cases (eq_bytes key name)) [
  | inl t ↦ subst IsWord (ground (arith)) h.0
  | inr f ↦ get_property-IsWord parameters name value h.1 (ground arith)
]

signed-lt : (minus : Bool) (o : Option ℕ) (n : ℕ) → signed minus o ≡ some n → n < word
signed-lt true none n e = absurd (ground arith)
signed-lt false none n e = absurd (ground arith)
signed-lt true (some m) n e = ground arith
signed-lt false (some m) n e = ground arith

parse_integer-lt :
    (digits : Bytes → Option ℕ) (s : Bytes) (n : ℕ)
    → parse_integer signed digits s ≡ some n
    → n < word
unfolding parse_integer
parse_integer-lt digits [] n e = absurd (ground arith)
parse_integer-lt digits (c ∷ s) n e = ground (
  arith,
  parse_integer-lt digits s n,
  signed-lt true (digits s) n,
  signed-lt false (digits s) n,
  signed-lt false (digits (c ∷ s)) n,
)

stoll-lt : (s : Bytes) (n : ℕ) → stoll s ≡ some n → n < word
unfolding stoll
stoll-lt [] n e = absurd (ground arith)
stoll-lt (c ∷ s) n e = ground (
  arith,
  stoll-lt s n,
  signed-lt true (leading_digits none s) n,
  signed-lt false (leading_digits none s) n,
  signed-lt false (leading_digits none (c ∷ s)) n,
)

pub stoll_prefixed-lt : (s : Bytes) (n : ℕ) → stoll_prefixed s ≡ some n → n < word
unfolding stoll_prefixed
stoll_prefixed-lt s n e = elim (Bool-cases (has_hex_prefix s)) [
  | inl t ↦ parse_integer-lt hex_number s n (ground arith)
  | inr f ↦ stoll-lt s n (ground arith)
]

-- the value is the number, and its bits are those of the integer
abbrev pub Means : Option PropertyValue → ℤ → Type 0
Means value z = (n : ℕ) × (value ≡ some (integer n)) × Congruent n z

unary-Means :
    (op : UnaryOperator) (p : Primary) (parameters : Properties) (x z : ℤ)
    → Means (evaluate_expression_primary parameters p) x
    → unary_exact op x ≡ some z
    → Means (evaluate_expression parameters (unary op p)) z
unfolding evaluate_expression
unary-Means positive p parameters x z (n, e, c) h =
    (n, rw e refl, subst (Congruent n) (ground (arith)) c)
unary-Means negative p parameters x z (n, e, c) h = (
  negate64 n,
  rw e refl,
  subst (Congruent (negate64 n)) (ground (arith)) (sub64-Congruent 0 n (pos 0) x (omega arith) c),
)
unary-Means complement p parameters x z (n, e, c) h = (
  complement64 n,
  rw e refl,
  subst (Congruent (complement64 n)) (ground (arith)) (complement64-Congruent n x c),
)
unary-Means negation p parameters x z m h = absurd (ground arith)
unary-Means (reduction s) p parameters x z m h = absurd (ground arith)

binary_integer-Congruent :
    (op : BinaryOperator) (l r : ℕ) (x y z : ℤ)
    → Congruent l x
    → Congruent r y
    → binary_exact op x y ≡ some z
    → (n : ℕ) × (binary_integer op l r ≡ some n) × Congruent n z
unfolding binary_integer
binary_integer-Congruent add l r x y z h k e =
    (add64 l r, refl, subst (Congruent (add64 l r)) (ground (arith)) (add64-Congruent l r x y h k))
binary_integer-Congruent subtract l r x y z h k e =
    (sub64 l r, refl, subst (Congruent (sub64 l r)) (ground (arith)) (sub64-Congruent l r x y h k))
binary_integer-Congruent multiply l r x y z h k e =
    (mul64 l r, refl, subst (Congruent (mul64 l r)) (ground (arith)) (mul64-Congruent l r x y h k))
binary_integer-Congruent _ l r x y z h k e = absurd (ground arith)

pub binary_value-integers :
    (op : BinaryOperator) (l r : ℕ)
    → binary_value op (integer l) (integer r) ≡ number_value (binary_integer op l r)
unfolding binary_value
binary_value-integers add l r = refl
binary_value-integers _ l r = refl

binary-Means :
    (op : BinaryOperator) (l r : Expr) (parameters : Properties) (x y z : ℤ)
    → Means (evaluate_expression parameters l) x
    → Means (evaluate_expression parameters r) y
    → binary_exact op x y ≡ some z
    → Means (evaluate_expression parameters (binary op l r)) z
unfolding evaluate_expression
binary-Means op l r parameters x y z (a, ea, ca) (b, eb, cb) h =
    let (n, e, c) = binary_integer-Congruent op a b x y z ca cb h in
    (n, rw (ea, eb, binary_value-integers op a b, e) refl, c)

named-Means :
    (parameters : Properties) (s : Bytes) (z : ℤ) (value : PropertyValue)
    → IsWord value
    → all_words s ≡ true
    → get_property s parameters ≡ some value
    → integer_value value ≡ some z
    → Means (some (reference_value parameters s)) z
unfolding reference_value resolve_parameter_reference
named-Means parameters s z (integer n) h w e k =
    (n, ground (arith, e), subst (Congruent n) (ground (arith)) (signed_value-Congruent n h))
named-Means parameters s z (text t) h w e k = absurd (ground arith)
named-Means parameters s z (boolean b) h w e k = absurd (ground arith)

reference-Means :
    (parameters : Properties) (s : Bytes) (z : ℤ)
    → HasWords parameters
    → exact_primary parameters (reference s) ≡ some z
    → Means (evaluate_expression_primary parameters (reference s)) z
unfolding exact evaluate_expression
reference-Means parameters s z h e = elim (Bool-cases (all_words s)) [
  | inl w ↦
      let (value, ev, ez) = bind-some (get_property s parameters) integer_value (rw w at e) in
      named-Means parameters s z value (get_property-IsWord parameters s value h ev) w ev ez
  | inr f ↦ absurd (ground arith)
]

number-Means :
    (s : Bytes) (v : ℕ) (z : ℤ)
    → numeral s ≡ some v
    → small_number v ≡ some z
    → Means (number_value (stoll_prefixed s)) z
number-Means s v z ev ez =
    let small : v < 2 ^ 63 = ground arith in
    (
      v,
      ap number_value (stoll_prefixed-numeral s v ev small),
      subst (Congruent v) {x = pos v} (ground (arith)) (omega arith, omega arith),
    )

mutual
  unfolding exact evaluate_expression

  exact-Means :
      (parameters : Properties) (e : Expr) (z : ℤ)
      → HasWords parameters
      → exact parameters e ≡ some z
      → Means (evaluate_expression parameters e) z
  exact-Means parameters (unary op p) z h e =
      let (x, ex, ez) = bind-some (exact_primary parameters p) _ e in
      unary-Means op p parameters x z (exact_primary-Means parameters p x h ex) ez
  exact-Means parameters (binary op l r) z h e =
      let (x, ex, e') = bind-some (exact parameters l) _ e in
      let (y, ey, ez) = bind-some (exact parameters r) _ e' in
      binary-Means op l r parameters x y z (exact-Means parameters l x h ex)
        (exact-Means parameters r y h ey) ez
  exact-Means parameters (ternary c a b) z h e = absurd (ground arith)
  exact-Means parameters (nop p) z h e = exact_primary-Means parameters p z h e

  exact_primary-Means :
      (parameters : Properties) (p : Primary) (z : ℤ)
      → HasWords parameters
      → exact_primary parameters p ≡ some z
      → Means (evaluate_expression_primary parameters p) z
  exact_primary-Means parameters (number s) z h e =
      let (v, ev, ez) = bind-some (numeral s) small_number e in number-Means s v z ev ez
  exact_primary-Means parameters (paren_expr e) z h q = exact-Means parameters e z h q
  exact_primary-Means parameters (reference s) z h e = reference-Means parameters s z h e
  exact_primary-Means parameters _ z h e = absurd (ground arith)

-- An expression that is built from number literals and from parameters with integer values by
-- parentheses, the signs + and -, ~ and the operators +, - and * is evaluated to an integer whose
-- 64 bits are those of the exact integer that the expression stands for: modulo 2 ^ 64 they are
-- equal. A literal is one of decimal digits only, or of hexadecimal digits only behind 0x, and
-- below 2 ^ 63; it stands for the sum of its digits by the powers of ten or sixteen. The integers
-- among the parameters are below 2 ^ 64, as bit patterns.
pub evaluate_expression-exact :
    (parameters : Properties) (e : Expr) (z : ℤ)
    → HasWords parameters
    → exact parameters e ≡ some z
    → (n : ℕ) × (evaluate_expression parameters e ≡ some (integer n)) × Congruent n z
evaluate_expression-exact parameters e z h k = exact-Means parameters e z h k
