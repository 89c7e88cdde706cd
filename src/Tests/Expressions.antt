-- ===== src/Tests/Expressions.antt =====
-- Texts that the evaluator of the elaborator reads.
use systemrdl_toolkit.Base.{◌≡◌, refl, arith, [], ◌∷◌, codes, eq_bytes, some}
use systemrdl_toolkit.Elab.Model.{Properties, integer, get_property}
use systemrdl_toolkit.Elab.ExprText.{evaluate_within, evaluate_expression_from_string, all_words}
use systemrdl_toolkit.Elab.ExprText.Operators.{evaluate-operator}
use systemrdl_toolkit.Elab.ExprText.Rounds.{evaluate_within-returns}

abbrev sizes : Properties
sizes = (codes "WIDTH", integer 8) ∷ ((codes "N", integer 3) ∷ [])

value_of_width : get_property (codes "WIDTH") sizes ≡ some (integer 8)
unfolding get_property eq_bytes
value_of_width = refl

value_of_n : get_property (codes "N") sizes ≡ some (integer 3)
unfolding get_property eq_bytes
value_of_n = refl

evaluate-operator_example :
    (evaluate_expression_from_string sizes (codes "WIDTH*N") ≡ integer 24)
    × (evaluate_expression_from_string sizes (codes "WIDTH+N") ≡ integer 11)
    × (evaluate_expression_from_string sizes (codes "WIDTH-N") ≡ integer 5)
unfolding all_words
evaluate-operator_example =
    evaluate-operator sizes (codes "WIDTH") (codes "N") 8 3 refl refl value_of_width value_of_n

evaluate_within-returns_example :
    evaluate_within 12 sizes (codes "(N*2)*2")
    ≡ some (evaluate_expression_from_string sizes (codes "(N*2)*2"))
evaluate_within-returns_example = evaluate_within-returns 12 sizes (codes "(N*2)*2") (omega arith)

-- the product takes the whole of "2+1" for a number and reads the 2
dropped_summand : evaluate_expression_from_string sizes (codes "WIDTH*2+1") ≡ integer 16
unfolding evaluate_expression_from_string get_property eq_bytes
dropped_summand = refl

sum_of_numbers : evaluate_expression_from_string sizes (codes "8 * 1024 + 512") ≡ integer 8704
unfolding evaluate_expression_from_string get_property eq_bytes
sum_of_numbers = refl
