-- ===== src/Elab/Params/Rounds.antt =====
-- The rounds of the `while` loop are enough.
use systemrdl_toolkit.Base.{
  Option, some, ap, ◌-◌, Bool, ℕ, zero, suc, ◌+◌, ◌≤◌, ◌<◌, ◌≡◌, refl, sym, ◌∙◌, true, false, not,
  ◌&&◌, ◌||◌, List, [], ◌∷◌, Bytes, ltb, length, arith, inl, inr, Bool-cases, ◌⊎◌,
}
use systemrdl_toolkit.Elab.Model.{PropertyValue, text, integer, boolean}
use systemrdl_toolkit.Elab.ExprText.{evaluate_expression_from_string}
use systemrdl_toolkit.Elab.Params.{
  ParameterDefinition, Resolving, contains, is_text, resolve_to, take_default, resolve_step,
  resolve_round, resolve_rounds, resolve_defaults, unresolved, or_unresolved,
}

-- Progress means that there is more resolved than before.
abbrev Advances : Resolving → Resolving → Type 0
Advances st next =
    (length st.resolved ≤ length next.resolved)
    × (((st.progress ≡ next.progress) × (length st.resolved ≡ length next.resolved))
        ⊎ (length st.resolved < length next.resolved))

take_default-Advances :
    (name : Bytes) (value : PropertyValue) (st : Resolving)
    → Advances st (take_default name value st)
unfolding take_default resolve_to
take_default-Advances name (integer n) st = (omega arith, inr (omega arith))
take_default-Advances name (boolean b) st = (omega arith, inr (omega arith))
take_default-Advances name (text s) st =
    elim (Bool-cases (is_text s (evaluate_expression_from_string st.values s))) [
      | inl same ↦ rw (same, take_default) (omega arith, inl (refl, refl))
      | inr new ↦ rw (new, take_default) (omega arith, inr (omega arith))
    ]

resolve_step-Advances :
    (def : ParameterDefinition) (st : Resolving) → Advances st (resolve_step def st)
unfolding resolve_step
resolve_step-Advances def st =
    elim (Bool-cases (not def.has_default || contains def.name st.resolved)) [
      | inl skipped ↦ rw (skipped, resolve_step) (omega arith, inl (refl, refl))
      | inr open_def ↦
          rw (open_def, resolve_step) (take_default-Advances def.name def.default_value st)
    ]

Advances-trans : (a b c : Resolving) → Advances a b → Advances b c → Advances a c
Advances-trans a b c (up, inr more) (up2, h) = (omega arith, inr (omega arith))
Advances-trans a b c (up, inl same) (up2, inr more) = (omega arith, inr (omega arith))
Advances-trans a b c (up, inl same) (up2, inl again) =
    (omega arith, inl (same.0 ∙ again.0, same.1 ∙ again.1))

resolve_round-Advances :
    (defs : List ParameterDefinition) (st : Resolving) → Advances st (resolve_round defs st)
unfolding resolve_round
resolve_round-Advances [] st = (omega arith, inl (refl, refl))
resolve_round-Advances (def ∷ defs) st =
    Advances-trans st (resolve_step def st) (resolve_round defs (resolve_step def st))
      (resolve_step-Advances def st) (resolve_round-Advances defs (resolve_step def st))

-- a loop that does not go on has ended
resolve_rounds-ended :
    (k : ℕ) (defs : List ParameterDefinition) (st : Resolving)
    → 0 < k
    → (st.progress && ltb (length st.resolved) (length defs)) ≡ false
    → resolve_rounds k defs st ≡ some st
unfolding resolve_rounds
resolve_rounds-ended zero defs st some_left h = absurd (omega arith)
resolve_rounds-ended (suc k) defs st some_left h = rw (resolve_rounds, h) refl

resolve_rounds-again :
    (k : ℕ) (defs : List ParameterDefinition) (st : Resolving)
    → 0 < k
    → (st.progress && ltb (length st.resolved) (length defs)) ≡ true
    → resolve_rounds k defs st
      ≡ resolve_rounds (k - 1) defs (resolve_round defs (record st { progress = false }))
unfolding resolve_rounds
resolve_rounds-again zero defs st some_left h = absurd (omega arith)
resolve_rounds-again (suc k) defs st some_left h =
    let one_less : suc k - 1 ≡ k = omega arith in rw (one_less, resolve_rounds, h) refl

-- the loop ends within `m` runs of its body, in the state that more rounds give as well
abbrev Ends : ℕ → List ParameterDefinition → Resolving → Type 0
Ends m defs st = (end : Resolving) × ((k : ℕ) → m < k → resolve_rounds k defs st ≡ some end)

resolve_rounds-Ends :
    (m : ℕ) (defs : List ParameterDefinition) (st : Resolving)
    → length defs ≤ m + length st.resolved
    → Ends m defs st
resolve_rounds-Ends zero defs st h =
    (st, λ k more. resolve_rounds-ended k defs st (omega arith) (ground arith))
resolve_rounds-Ends (suc m) defs st h =
    let next = resolve_round defs (record st { progress = false }) in
    elim (Bool-cases (st.progress && ltb (length st.resolved) (length defs))) [
      | inr ended ↦ (st, λ k more. resolve_rounds-ended k defs st (omega arith) ended)
      | inl goes_on ↦
          let (up, grows) = resolve_round-Advances defs (record st { progress = false }) in
          elim grows [
            | inl stopped ↦ (
              next,
              λ k more.
                  resolve_rounds-again k defs st (omega arith) goes_on
                  ∙ resolve_rounds-ended (k - 1) defs next (omega arith) (
                      ap (λ (b : Bool). b && ltb (length next.resolved) (length defs))
                        (sym stopped.0)),
            )
            | inr grown ↦
                let (end, e) = resolve_rounds-Ends m defs next (omega arith) in
                (
                  end,
                  λ k more.
                      resolve_rounds-again k defs st (omega arith) goes_on
                      ∙ e (k - 1) (omega arith),
                )
          ]
    ]

-- The `while` loop over the defaults ends: with any number of rounds above the number of
-- definitions it comes to its condition and finds that it does not hold, without running out of
-- rounds, and what it leaves is what is resolved.
pub resolve_rounds-returns :
    (rounds : ℕ) (defs : List ParameterDefinition)
    → length defs < rounds
    → resolve_rounds rounds defs unresolved ≡ some (resolve_defaults defs)
unfolding resolve_defaults
resolve_rounds-returns rounds defs h =
    let (end, e) = resolve_rounds-Ends (length defs) defs unresolved (omega arith) in
    e rounds h
    ∙ ap (λ (o : Option Resolving). some (or_unresolved o))
        (sym (e (suc (length defs)) (omega arith)))
