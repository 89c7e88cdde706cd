-- ===== src/Elab/ExprTree.antt =====
-- The expressions of SystemRDL.g4 as the parser returns them. A node's text, `getText()`, is that
-- of its tokens one after the other. The rules `concatenate`, `replicate`, `cast`, `prop_ref`,
-- `instance_ref`, `struct_literal` and `array_literal`, which the elaborator takes by their text
-- alone, are one constructor, and so are the literals that it takes by their text.
use systemrdl_toolkit.Base.{◌++◌, Bytes, codes}

-- `text` of the operators that the evaluator has no case for
pub data UnaryOperator : Type 0 where
  positive negative complement negation : UnaryOperator
  reduction : Bytes → UnaryOperator

pub data BinaryOperator : Type 0 where
  add subtract multiply divide modulo power : BinaryOperator
  bits_and bits_or bits_xor shift_left shift_right : BinaryOperator
  less less_equal greater greater_equal equal not_equal : BinaryOperator
  both either : BinaryOperator
  bits_xnor : Bytes → BinaryOperator

mutual
  pub data Expr : Type 0 where
    unary : UnaryOperator → Primary → Expr
    binary : BinaryOperator → Expr → Expr → Expr
    ternary : Expr → Expr → Expr → Expr
    nop : Primary → Expr

  pub data Primary : Type 0 where
    number : Bytes → Primary
    string_literal : Bytes → Primary
    boolean_literal : Bytes → Primary
    text_literal : Bytes → Primary
    paren_expr : Expr → Primary
    reference : Bytes → Primary

unfoldable pub unary_text : UnaryOperator → Bytes
unary_text positive = codes "+"
unary_text negative = codes "-"
unary_text complement = codes "~"
unary_text negation = codes "!"
unary_text (reduction s) = s

unfoldable pub binary_text : BinaryOperator → Bytes
binary_text add = codes "+"
binary_text subtract = codes "-"
binary_text multiply = codes "*"
binary_text divide = codes "/"
binary_text modulo = codes "%"
binary_text power = codes "**"
binary_text bits_and = codes "&"
binary_text bits_or = codes "|"
binary_text bits_xor = codes "^"
binary_text shift_left = codes "<<"
binary_text shift_right = codes ">>"
binary_text less = codes "<"
binary_text less_equal = codes "<="
binary_text greater = codes ">"
binary_text greater_equal = codes ">="
binary_text equal = codes "=="
binary_text not_equal = codes "!="
binary_text both = codes "&&"
binary_text either = codes "||"
binary_text (bits_xnor s) = s

-- `getText()`
unfoldable mutual
  unfolding unary_text binary_text

  pub expr_text : Expr → Bytes
  expr_text (unary op p) = unary_text op ++ primary_text p
  expr_text (binary op l r) = expr_text l ++ (binary_text op ++ expr_text r)
  expr_text (ternary c a b) =
      expr_text c ++ (codes "?" ++ (expr_text a ++ (codes ":" ++ expr_text b)))
  expr_text (nop p) = primary_text p

  pub primary_text : Primary → Bytes
  primary_text (number s) = s
  primary_text (string_literal s) = s
  primary_text (boolean_literal s) = s
  primary_text (text_literal s) = s
  primary_text (paren_expr e) = codes "(" ++ (expr_text e ++ codes ")")
  primary_text (reference s) = s
