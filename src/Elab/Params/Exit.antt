-- ===== src/Elab/Params/Exit.antt =====
-- What is left to resolve when the loop over the defaults ends.
use systemrdl_toolkit.Base.{
  ℕ, zero, suc, ◌≤◌, ◌≡◌, ◌⊎◌, refl, sym, ap, ◌∙◌, subst, true, false, not, ◌&&◌, ◌||◌, List, [],
  ◌∷◌, Bytes, eq_bytes_iff, some, ltb, length, arith, inl, inr, Bool-cases, All, All-map,
}
use systemrdl_toolkit.Elab.Model.{PropertyValue, text, integer, boolean, get_property}
use systemrdl_toolkit.Elab.ExprText.{evaluate_expression_from_string}
use systemrdl_toolkit.Elab.Params.{
  ParameterDefinition, Resolving, contains, is_text, resolve_to, take_default, resolve_step,
  resolve_round, resolve_rounds, resolve_defaults, unresolved, is_defined,
}
use systemrdl_toolkit.Elab.Params.Names.{
  AreNames, AreNames-room, resolve_round-AreNames, all_defined,
}
use systemrdl_toolkit.Elab.Params.Rounds.{resolve_rounds-returns}
use systemrdl_toolkit.Elab.Params.Defaults.{Stays, all_IsOne, IsSound, resolve_round-IsSound}

-- a default that is not resolved is no more than itself
abbrev pub IsLeft : Resolving → ParameterDefinition → Type 0
IsLeft st def =
    def.has_default ≡ true
    → contains def.name st.resolved ≡ false
    → Stays st.values def.default_value

is_text-same : (s : Bytes) (v : PropertyValue) → is_text s v ≡ true → v ≡ text s
unfolding is_text
is_text-same s (text t) h = ap (λ (u : Bytes). text u) ((eq_bytes_iff t s).0 h)
is_text-same s (integer n) h = absurd (ground arith)
is_text-same s (boolean b) h = absurd (ground arith)

-- a step resolves a parameter, or there is nothing that it could do
take_default-cases :
    (name : Bytes) (default : PropertyValue) (st : Resolving)
    → ((take_default name default st).progress ≡ true)
      ⊎ ((take_default name default st ≡ st) × Stays st.values default)
unfolding take_default resolve_to
take_default-cases name (integer n) st = inl refl
take_default-cases name (boolean b) st = inl refl
take_default-cases name (text s) st =
    let value = evaluate_expression_from_string st.values s in
    elim (Bool-cases (is_text s value)) [
      | inl same ↦ inr (rw (take_default, same) refl, is_text-same s value same)
      | inr other ↦ inl (rw (take_default, other, resolve_to) refl)
    ]

resolve_step-cases :
    (def : ParameterDefinition) (st : Resolving)
    → ((resolve_step def st).progress ≡ true) ⊎ ((resolve_step def st ≡ st) × IsLeft st def)
unfolding resolve_step
resolve_step-cases def st =
    elim (Bool-cases (not def.has_default || contains def.name st.resolved)) [
      | inl skipped ↦ inr (rw (resolve_step, skipped) refl, λ has new. absurd (ground arith))
      | inr open_def ↦ elim (take_default-cases def.name def.default_value st) [
        | inl moved ↦ inl (rw (resolve_step, open_def) moved)
        | inr (same, left) ↦ inr (rw (resolve_step, open_def) same, λ has new. left)
      ]
    ]

take_default-progress :
    (name : Bytes) (default : PropertyValue) (st : Resolving)
    → st.progress ≡ true
    → (take_default name default st).progress ≡ true
unfolding take_default resolve_to
take_default-progress name (integer n) st h = refl
take_default-progress name (boolean b) st h = refl
take_default-progress name (text s) st h =
    elim (Bool-cases (is_text s (evaluate_expression_from_string st.values s))) [
      | inl same ↦ rw (take_default, same) h
      | inr other ↦ rw (take_default, other, resolve_to) refl
    ]

resolve_step-progress :
    (def : ParameterDefinition) (st : Resolving)
    → st.progress ≡ true
    → (resolve_step def st).progress ≡ true
unfolding resolve_step
resolve_step-progress def st h =
    elim (Bool-cases (not def.has_default || contains def.name st.resolved)) [
      | inl skipped ↦ rw (resolve_step, skipped) h
      | inr open_def ↦
          rw (resolve_step, open_def) (take_default-progress def.name def.default_value st h)
    ]

resolve_round-progress :
    (defs : List ParameterDefinition) (st : Resolving)
    → st.progress ≡ true
    → (resolve_round defs st).progress ≡ true
unfolding resolve_round
resolve_round-progress [] st h = h
resolve_round-progress (def ∷ defs) st h =
    resolve_round-progress defs (resolve_step def st) (resolve_step-progress def st h)

resolve_round-cases :
    (defs : List ParameterDefinition) (st : Resolving)
    → ((resolve_round defs st).progress ≡ true)
      ⊎ ((resolve_round defs st ≡ st) × All (IsLeft st) defs)
unfolding resolve_round
resolve_round-cases [] st = inr (refl, tt)
resolve_round-cases (def ∷ defs) st = elim (resolve_step-cases def st) [
  | inl moved ↦ inl (resolve_round-progress defs (resolve_step def st) moved)
  | inr (same, left) ↦ elim (resolve_round-cases defs st) [
    | inl moved ↦ inl (ap (λ (s : Resolving). (resolve_round defs s).progress) same ∙ moved)
    | inr (kept, lefts) ↦ inr (ap (resolve_round defs) same ∙ kept, (left, lefts))
  ]
]

-- what holds of the state in which the loop ends
record Exits (defs : List ParameterDefinition) (st : Resolving) : Type 0 where
  sound : IsSound defs st
  names : AreNames defs st
  over : All (IsLeft st) defs ⊎ (length defs ≤ length st.resolved)

resolve_rounds-Exits :
    (rounds : ℕ) (defs : List ParameterDefinition) (st end : Resolving)
    → IsSound defs st
    → AreNames defs st
    → (st.progress ≡ true) ⊎ All (IsLeft st) defs
    → resolve_rounds rounds defs st ≡ some end
    → Exits defs end
unfolding resolve_rounds
resolve_rounds-Exits zero defs st end sound names way e = absurd (ground arith)
resolve_rounds-Exits (suc rounds) defs st end sound names way e =
    let begin : Resolving = record st { progress = false } in
    elim (Bool-cases (st.progress && ltb (length st.resolved) (length defs))) [
      | inr ended ↦
          let this : st ≡ end = ground arith in
          subst (Exits defs) this (record {
            sound = sound;
            names = names;
            over = elim way [ inl going ↦ inr (ground arith) | inr lefts ↦ inl lefts ];
          })
      | inl goes_on ↦
          let later : resolve_rounds rounds defs (resolve_round defs begin) ≡ some end =
            rw (resolve_rounds, goes_on) at e in
          resolve_rounds-Exits rounds defs (resolve_round defs begin) end
            (resolve_round-IsSound defs defs begin (all_IsOne defs) sound)
            (resolve_round-AreNames defs defs begin (all_defined defs) names)
            (elim (resolve_round-cases defs begin) [
              | inl moved ↦ inl moved
              | inr (kept, lefts) ↦
                  inr (subst (λ (s : Resolving). All (IsLeft s) defs) (sym kept) lefts)
            ])
            later
    ]

unresolved-IsSound : (defs : List ParameterDefinition) → IsSound defs unresolved
unfolding contains get_property
unresolved-IsSound defs name = inl (refl, refl)

resolve_defaults-Exits : (defs : List ParameterDefinition) → Exits defs (resolve_defaults defs)
resolve_defaults-Exits defs =
    resolve_rounds-Exits (suc (length defs)) defs unresolved (resolve_defaults defs)
      (unresolved-IsSound defs) (tt, tt) (inl refl)
      (resolve_rounds-returns (suc (length defs)) defs (omega arith))

-- The loop resolves every default but those that are no more than themselves.
pub resolve_defaults-IsLeft :
    (defs : List ParameterDefinition) → All (IsLeft (resolve_defaults defs)) defs
resolve_defaults-IsLeft defs =
    let exits = resolve_defaults-Exits defs in
    elim exits.over [
      | inl lefts ↦ lefts
      | inr full ↦
          All-map (λ def. is_defined def.name defs ≡ true) (IsLeft (resolve_defaults defs))
            (λ def one has new. absurd (
              omega (
                arith,
                full,
                AreNames-room def.name defs (resolve_defaults defs) exits.names one new,
              )))
            defs (all_defined defs)
    ]

pub resolve_defaults-IsSound :
    (defs : List ParameterDefinition) → IsSound defs (resolve_defaults defs)
resolve_defaults-IsSound defs = let exits = resolve_defaults-Exits defs in exits.sound
