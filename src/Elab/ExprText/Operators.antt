-- ===== src/Elab/ExprText/Operators.antt =====
-- An operator between two parameters has the value that it should.
use systemrdl_toolkit.Base.{
  ℕ, suc, ◌+◌, ◌≡◌, refl, ap, ◌∙◌, Bool, true, false, ◌∷◌, ◌++◌, Bytes, codes, none, some, ◌==◌,
  take, drop, length, arith,
}
use systemrdl_toolkit.Elab.Model.{PropertyValue, integer, Properties, get_property, add64, sub64}
use systemrdl_toolkit.Elab.NodeSize.{resolve_parameter_reference}
use systemrdl_toolkit.Elab.ExprText.{
  all_words, without_spaces, operands, combine, operator_pattern, shift_pattern, flat_patterns,
  evaluate_within, evaluate_expression_from_string, mul64,
}
use systemrdl_toolkit.Elab.ExprText.Search.{
  IsPunctuation, find-here, find-past, find_string-past, without_spaces-words, take-front,
  drop-front, all_words-past,
}

operands-here :
    (o : ℕ) (a b : Bytes)
    → IsPunctuation o
    → all_words a ≡ true
    → all_words b ≡ true
    → operands o (a ++ o ∷ b) ≡ some (a, b)
unfolding operands
operands-here o a b p ha hb =
    let left : without_spaces (take (length a) (a ++ o ∷ b)) ≡ a =
      ap without_spaces (take-front a (o ∷ b)) ∙ without_spaces-words a ha in
    let one : length a + 1 ≡ suc (length a) = omega arith in
    let right : without_spaces (drop (length a + 1) (a ++ o ∷ b)) ≡ b =
      ap (λ n. without_spaces (drop n (a ++ o ∷ b))) one
      ∙ ap without_spaces (drop-front a b o)
      ∙ without_spaces-words b hb in
    rw (find-here o a b p ha, operands) (rw (left, right) refl)

operands-past :
    (c o : ℕ) (a b : Bytes)
    → IsPunctuation c
    → (o == c) ≡ false
    → all_words a ≡ true
    → all_words b ≡ true
    → operands c (a ++ o ∷ b) ≡ none
unfolding operands
operands-past c o a b p ne ha hb = rw (find-past c o a b p ne ha hb, operands) refl

module _ (parameters : Properties) (a b : Bytes) (x y : ℕ) (ha : all_words a ≡ true)
    (hb : all_words b ≡ true) (bound_a : get_property a parameters ≡ some (integer x))
    (bound_b : get_property b parameters ≡ some (integer y)) where
  resolved-a : resolve_parameter_reference parameters a ≡ integer x
  unfolding resolve_parameter_reference
  resolved-a = rw (bound_a, resolve_parameter_reference) refl

  resolved-b : resolve_parameter_reference parameters b ≡ integer y
  unfolding resolve_parameter_reference
  resolved-b = rw (bound_b, resolve_parameter_reference) refl

  pattern-here :
      (f : ℕ → ℕ → ℕ) (both_ways : Bool) (o : ℕ)
      → IsPunctuation o
      → operator_pattern parameters f both_ways o (a ++ o ∷ b) ≡ some (integer (f x y))
  unfolding operator_pattern combine
  pattern-here f both_ways o p =
      rw (operands-here o a b p ha hb, operator_pattern) (rw (resolved-a, resolved-b) refl)

  pattern-past :
      (f : ℕ → ℕ → ℕ) (both_ways : Bool) (c o : ℕ)
      → IsPunctuation c
      → (o == c) ≡ false
      → operator_pattern parameters f both_ways c (a ++ o ∷ b) ≡ none
  unfolding operator_pattern
  pattern-past f both_ways c o p ne = rw (operands-past c o a b p ne ha hb, operator_pattern) refl

  no_shift : (o : ℕ) → (o == b'(') ≡ false → shift_pattern parameters (a ++ o ∷ b) ≡ none
  unfolding shift_pattern
  no_shift o ne = rw (find_string-past b'(' o (codes "1<<") a b refl ne ha hb, shift_pattern) refl

  evaluated :
      (o : ℕ) (value : PropertyValue)
      → IsPunctuation o
      → flat_patterns parameters (a ++ o ∷ b) ≡ some value
      → evaluate_expression_from_string parameters (a ++ o ∷ b) ≡ value
  unfolding evaluate_expression_from_string evaluate_within
  evaluated o value p flat = rw (all_words-past o a b p, evaluate_within) (rw flat refl)

  -- Two parameters with numbers, and nothing but an operator between their names: the value is
  -- the product, the sum or the difference of the numbers, in 64 bits.
  pub evaluate-operator :
      (evaluate_expression_from_string parameters (a ++ b'*' ∷ b) ≡ integer (mul64 x y))
      × (evaluate_expression_from_string parameters (a ++ b'+' ∷ b) ≡ integer (add64 x y))
      × (evaluate_expression_from_string parameters (a ++ b'-' ∷ b) ≡ integer (sub64 x y))
  unfolding flat_patterns
  evaluate-operator = (
    evaluated b'*' _ refl (rw (no_shift b'*' refl, pattern-here mul64 true b'*' refl) refl),
    evaluated b'+' _ refl (
        rw
          (
            no_shift b'+' refl,
            pattern-past mul64 true b'*' b'+' refl refl,
            pattern-here add64 true b'+' refl,
          )
          refl),
    evaluated b'-' _ refl (
        rw
          (
            no_shift b'-' refl,
            pattern-past mul64 true b'*' b'-' refl refl,
            pattern-past add64 true b'+' b'-' refl refl,
            pattern-here sub64 false b'-' refl,
          )
          refl),
  )
