-- ===== src/Tests/ParsedExpressions.antt =====
-- Parsed expressions, evaluated.
use systemrdl_toolkit.Base.{
  ℕ, true, if◌then◌else◌, ◌-◌, ◌≡◌, refl, [], ◌∷◌, codes, some, Bytes, eq_bytes, arith,
}
use systemrdl_toolkit.Base.Int.{pos}
use systemrdl_toolkit.Elab.Model.{Properties, integer, text, get_property, word}
use systemrdl_toolkit.Elab.ExprTree.{
  Expr, unary, binary, nop, number, reference, paren_expr, string_literal, boolean_literal,
  negative, add, multiply, subtract, divide, less,
}
use systemrdl_toolkit.Elab.Int64.Congruent.{Congruent}
use systemrdl_toolkit.Elab.Expr.{evaluate_expression}
use systemrdl_toolkit.Elab.Expr.Integers.{exact, evaluate_expression-exact}
use systemrdl_toolkit.Elab.Expr.Operators.{evaluate_expression-comparison}

abbrev widths : Properties
widths = (codes "WIDTH", integer 3) ∷ []

abbrev literal : Bytes → Expr
literal s = nop (number s)

-- -(WIDTH - 0x10) * 2
abbrev product : Expr
product =
    binary multiply
      (unary negative
        (paren_expr (binary subtract (nop (reference (codes "WIDTH"))) (literal (codes "0x10")))))
      (literal (codes "2"))

product-exact : exact widths product ≡ some (pos 26)
unfolding exact get_property eq_bytes
product-exact = refl

evaluate_expression-exact_example :
    (n : ℕ) × (evaluate_expression widths product ≡ some (integer n)) × Congruent n (pos 26)
evaluate_expression-exact_example =
    evaluate_expression-exact widths product (pos 26) (omega arith) product-exact

abbrev minus_seven : Expr
minus_seven = unary negative (number (codes "7"))

minus_seven_value : evaluate_expression [] minus_seven ≡ some (integer (word - 7))
unfolding evaluate_expression
minus_seven_value = refl

two_value : evaluate_expression [] (literal (codes "2")) ≡ some (integer 2)
unfolding evaluate_expression
two_value = refl

-- -7 < 2 holds
evaluate_expression-comparison_example :
    evaluate_expression [] (binary less minus_seven (literal (codes "2")))
    ≡ some (integer (if true then 1 else 0))
evaluate_expression-comparison_example =
    evaluate_expression-comparison [] minus_seven (literal (codes "2")) (word - 7) 2 tt
      minus_seven_value two_value less true refl

seven_halves :
    evaluate_expression []
      (binary divide (unary negative (number (codes "7"))) (literal (codes "2")))
    ≡ some (integer (word - 3))
unfolding evaluate_expression
seven_halves = refl

-- a number in the notation of Verilog and one with underscores are read up to the first of them
verilog_number : evaluate_expression [] (literal (codes "8'hFF")) ≡ some (integer 8)
unfolding evaluate_expression
verilog_number = refl

grouped_number : evaluate_expression [] (literal (codes "0x1000_0000")) ≡ some (integer 0x1000)
unfolding evaluate_expression
grouped_number = refl

-- a quoted quote keeps its backslash
quoted_quote :
    evaluate_expression [] (nop (string_literal (b'"' ∷ (b'\\' ∷ (b'"' ∷ (b'"' ∷ []))))))
    ≡ some (text (b'\\' ∷ (b'"' ∷ [])))
unfolding evaluate_expression
quoted_quote = refl

-- a truth value that is joined to a text is written as zero
joined_truth :
    evaluate_expression []
      (binary add (nop (string_literal (codes "\"on \""))) (nop (boolean_literal (codes "true"))))
    ≡ some (text (codes "on 0"))
unfolding evaluate_expression
joined_truth = refl
