-- ===== src/Elab/ExprText/Rounds.antt =====
-- The rounds that the evaluator is given are enough.
use systemrdl_toolkit.Base.{
  ℕ, zero, suc, ◌+◌, ◌-◌, ◌≤◌, ◌<◌, ◌≡◌, refl, sym, ap, ◌∙◌, [], ◌∷◌, Bytes, Option, none, some,
  ltb, take, drop, substr, length, arith, inl, inr, Bool-cases, Option-cases, subst,
  find_first_not_of,
}
use mathlib.Core.Option.{none-ne-some}
use systemrdl_toolkit.Elab.Model.{PropertyValue, text, Properties}
use systemrdl_toolkit.Elab.NodeSize.{resolve_parameter_reference}
use systemrdl_toolkit.Elab.Reg.ArrayOrder.{find}
use systemrdl_toolkit.Elab.ExprText.{
  all_words, flat_patterns, parentheses, or_text, times_rest, without_spaces, evaluate_within,
  evaluate_expression_from_string,
}

length-take : (n : ℕ) (s : Bytes) → length (take n s) ≤ length s
length-take zero s = omega arith
length-take (suc n) [] = omega arith
length-take (suc n) (c ∷ s) = omega (arith, length-take n s)

length-drop : (n : ℕ) (s : Bytes) → length (drop n s) ≤ length s
length-drop zero s = omega arith
length-drop (suc n) [] = omega arith
length-drop (suc n) (c ∷ s) = omega (arith, length-drop n s)

length-substr : (s : Bytes) (i n : ℕ) → 0 < length s → length (substr s (i + 1) n) < length s
length-substr [] i n h = absurd (omega arith)
length-substr (c ∷ s) i n h =
    let one : i + 1 ≡ suc i = omega arith in
    rw one (omega (arith, length-take n (drop i s), length-drop i s))

-- the length of the text between the parentheses
abbrev inner_length : Option (Bytes × Bytes) → ℕ
inner_length none = 0
inner_length (some parts) = length parts.0

inner_length-parentheses : (s : Bytes) → 0 < length s → inner_length (parentheses s) < length s
unfolding parentheses
inner_length-parentheses s h = elim (Option-cases (find b'(' s)) [
  | inl closed ↦ rw (closed, parentheses) h
  | inr (i, e) ↦ elim (Option-cases (find b')' s)) [
    | inl never ↦ rw (e, parentheses) (rw never h)
    | inr (j, at) ↦ elim (Bool-cases (ltb i j)) [
      | inl order ↦ rw (e, parentheses) (rw at (rw order (length-substr s i (j - i - 1) h)))
      | inr turned ↦ rw (e, parentheses) (rw at (rw turned h))
    ]
  ]
]

parentheses-shorter :
    (s : Bytes) (parts : Bytes × Bytes) → parentheses s ≡ some parts → length parts.0 < length s
unfolding parentheses find_first_not_of
parentheses-shorter [] parts h = absurd (none-ne-some parts h)
parentheses-shorter (c ∷ s) parts h =
    subst (λ n. n < suc (length s)) (ap inner_length h)
      (inner_length-parentheses (c ∷ s) (omega arith))

evaluate_within-rounds :
    (m n : ℕ) (parameters : Properties) (s : Bytes)
    → length s < m
    → length s < n
    → evaluate_within m parameters s ≡ evaluate_within n parameters s
unfolding evaluate_within
evaluate_within-rounds zero n parameters s hm hn = absurd (omega arith)
evaluate_within-rounds (suc m) zero parameters s hm hn = absurd (omega arith)
evaluate_within-rounds (suc m) (suc n) parameters s hm hn = elim (Bool-cases (all_words s)) [
  | inl word ↦ rw (word, evaluate_within) refl
  | inr other ↦ elim (Option-cases (flat_patterns parameters s)) [
    | inr (value, e) ↦ rw (other, evaluate_within) (rw e refl)
    | inl none_fits ↦ elim (Option-cases (parentheses s)) [
      | inl flat ↦ rw (other, evaluate_within) (rw none_fits (rw flat refl))
      | inr (parts, e) ↦
          let shorter = parentheses-shorter s parts e in
          let inner = evaluate_within-rounds m n parameters parts.0 (omega arith) (omega arith) in
          rw (other, evaluate_within) (rw none_fits (rw e (rw inner refl)))
    ]
  ]
]

evaluate_within-some :
    (m : ℕ) (parameters : Properties) (s : Bytes)
    → length s < m
    → (value : PropertyValue) × (evaluate_within m parameters s ≡ some value)
unfolding evaluate_within
evaluate_within-some zero parameters s h = absurd (omega arith)
evaluate_within-some (suc m) parameters s h = elim (Bool-cases (all_words s)) [
  | inl word ↦ (resolve_parameter_reference parameters s, rw (word, evaluate_within) refl)
  | inr other ↦ elim (Option-cases (flat_patterns parameters s)) [
    | inr (value, e) ↦ (value, rw (other, evaluate_within) (rw e refl))
    | inl none_fits ↦ elim (Option-cases (parentheses s)) [
      | inl flat ↦ (text s, rw (other, evaluate_within) (rw none_fits (rw flat refl)))
      | inr (parts, e) ↦
          let shorter = parentheses-shorter s parts e in
          let (inner, returned) = evaluate_within-some m parameters parts.0 (omega arith) in
          (
            or_text (times_rest parameters inner (without_spaces parts.1)) s,
            rw (other, evaluate_within) (rw none_fits (rw e (rw returned refl))),
          )
    ]
  ]
]

-- The recursion into parentheses ends: with any number of rounds above the length of the text, the
-- evaluator returns, without running out of rounds, and the value is that of the evaluator.
pub evaluate_within-returns :
    (rounds : ℕ) (parameters : Properties) (s : Bytes)
    → length s < rounds
    → evaluate_within rounds parameters s ≡ some (evaluate_expression_from_string parameters s)
unfolding evaluate_expression_from_string
evaluate_within-returns rounds parameters s h =
    let (value, e) = evaluate_within-some (suc (length s)) parameters s (omega arith) in
    evaluate_within-rounds rounds (suc (length s)) parameters s h (omega arith)
    ∙ (e ∙ ap (λ (o : Option PropertyValue). some (or_text o s)) (sym e))
