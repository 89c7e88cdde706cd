-- ===== src/Elab/Expr/Operators.antt =====
-- Division and comparisons in parsed expressions are those of signed integers.
use systemrdl_toolkit.Base.{
  ℕ, ◌<◌, ◌==◌, ◌≡◌, ◌≢◌, ◌⊎◌, refl, Bool, true, false, not, ◌&&◌, ◌||◌, Option, none, some,
  if◌then◌else◌, arith, ap,
}
use systemrdl_toolkit.Base.Int.{ℤ, ltb_ℤ}
use systemrdl_toolkit.Elab.Model.{integer, Properties, word}
use systemrdl_toolkit.Elab.ExprTree.{
  BinaryOperator, less, less_equal, greater, greater_equal, equal, not_equal, Expr, binary,
}
use systemrdl_toolkit.Elab.Int64.{signed_value, as_number, less64}
use systemrdl_toolkit.Elab.Int64.Division.{IsDivision}
use systemrdl_toolkit.Elab.Expr.{evaluate_expression, binary_integer}
use systemrdl_toolkit.Elab.Expr.Integers.{HasWords, binary_value-integers}
use systemrdl_toolkit.Elab.Expr.Bounds.{evaluate_expression-IsWord}

-- the truth of a comparison
abbrev pub compares : BinaryOperator → ℤ → ℤ → Option Bool
compares less x y = some (ltb_ℤ x y)
compares less_equal x y = some (not (ltb_ℤ y x))
compares greater x y = some (ltb_ℤ y x)
compares greater_equal x y = some (not (ltb_ℤ x y))
compares equal x y = some (not (ltb_ℤ x y) && not (ltb_ℤ y x))
compares not_equal x y = some (ltb_ℤ x y || ltb_ℤ y x)
compares _ x y = none

less64-ltb_ℤ :
    (l r : ℕ) → l < word → r < word → less64 l r ≡ ltb_ℤ (signed_value l) (signed_value r)
unfolding less64
less64-ltb_ℤ l r h k = ground arith

equal-ltb_ℤ :
    (l r : ℕ)
    → l < word
    → r < word
    → (l == r) ≡ (
        not (ltb_ℤ (signed_value l) (signed_value r))
        && not (ltb_ℤ (signed_value r) (signed_value l)))
equal-ltb_ℤ l r h k = ground arith

unequal-ltb_ℤ :
    (l r : ℕ)
    → l < word
    → r < word
    → not (l == r)
      ≡ (ltb_ℤ (signed_value l) (signed_value r) || ltb_ℤ (signed_value r) (signed_value l))
unequal-ltb_ℤ l r h k = ground arith

as_number-if : (b : Bool) → as_number b ≡ (if b then 1 else 0)
as_number-if true = refl
as_number-if false = refl

compared :
    (b c holds : Bool)
    → b ≡ c
    → some c ≡ some holds
    → some (as_number b) ≡ some (if holds then 1 else 0)
compared b c holds e h = ground (arith, as_number-if b)

binary_integer-compares :
    (op : BinaryOperator) (l r : ℕ) (holds : Bool)
    → l < word
    → r < word
    → compares op (signed_value l) (signed_value r) ≡ some holds
    → binary_integer op l r ≡ some (if holds then 1 else 0)
unfolding binary_integer
binary_integer-compares less l r holds h k e = compared _ _ holds (less64-ltb_ℤ l r h k) e
binary_integer-compares less_equal l r holds h k e =
    compared _ _ holds (ap not (less64-ltb_ℤ r l k h)) e
binary_integer-compares greater l r holds h k e = compared _ _ holds (less64-ltb_ℤ r l k h) e
binary_integer-compares greater_equal l r holds h k e =
    compared _ _ holds (ap not (less64-ltb_ℤ l r h k)) e
binary_integer-compares equal l r holds h k e = compared _ _ holds (equal-ltb_ℤ l r h k) e
binary_integer-compares not_equal l r holds h k e = compared _ _ holds (unequal-ltb_ℤ l r h k) e
binary_integer-compares _ l r holds h k e = absurd (ground arith)

-- what two quotients of integers are; one by zero, and the remainder, are zero
abbrev pub Divides : (l r q m : ℕ) → Type 0
Divides l r q m = ((r ≡ 0) × (q ≡ 0) × (m ≡ 0)) ⊎ ((r ≢ 0) × IsDivision l r q m)

module _ (parameters : Properties) (a b : Expr) (l r : ℕ) (words : HasWords parameters)
    (left : evaluate_expression parameters a ≡ some (integer l))
    (right : evaluate_expression parameters b ≡ some (integer r)) where
  left-lt : l < word
  left-lt = (evaluate_expression-IsWord parameters a words).0 l left

  right-lt : r < word
  right-lt = (evaluate_expression-IsWord parameters b words).0 r right

  evaluate-binary :
      (op : BinaryOperator) (n : ℕ)
      → binary_integer op l r ≡ some n
      → evaluate_expression parameters (binary op a b) ≡ some (integer n)
  unfolding evaluate_expression
  evaluate-binary op n e = rw (left, right, binary_value-integers op l r, e) refl

  -- Where two expressions are evaluated to integers, those among the parameters being 64 bits each,
  -- a comparison of them by <, <=, >, >=, == or != is evaluated to 1 if it holds of the two numbers
  -- with their signs, and to 0 otherwise.
  pub evaluate_expression-comparison :
      (op : BinaryOperator) (holds : Bool)
      → compares op (signed_value l) (signed_value r) ≡ some holds
      → evaluate_expression parameters (binary op a b) ≡ some (integer (if holds then 1 else 0))
  evaluate_expression-comparison op holds e =
      evaluate-binary op _ (binary_integer-compares op l r holds left-lt right-lt e)
