-- ===== src/Api/Calls/Success.antt =====
-- When the calls that elaborate a text succeed.
use systemrdl_toolkit.Base.{
  ℕ, ◌≡◌, ◌⊎◌, ◌↔◌, arith, inl, inr, refl, false, List, [], ◌∷◌, Bytes, codes, Option, none, some,
  Option-cases, is_empty,
}
use systemrdl_toolkit.Elab.Model.{Node}
use systemrdl_toolkit.Elab.State.{ElaboratorState, Outcome, done, thrown, too_deep}
use systemrdl_toolkit.Elab.Walk.{elaborate}
use systemrdl_toolkit.Api.{Result, success}
use systemrdl_toolkit.Api.Json.{JsonLibrary}
use systemrdl_toolkit.Api.Calls.{
  SyntaxError, ParserLibrary, ExceptionTexts, syntax_error, joined, dumped, with_syntax,
  report_model, elaborate_content,
}

syntax_error-is_empty :
    (buffer : Bytes) (e : SyntaxError) → is_empty (syntax_error buffer e) ≡ false
unfolding syntax_error
syntax_error-is_empty [] e = refl
syntax_error-is_empty (c ∷ buffer) e = refl

joined-is_empty :
    (buffer : Bytes) (errors : List SyntaxError)
    → is_empty buffer ≡ false
    → is_empty (joined buffer errors) ≡ false
unfolding joined
joined-is_empty buffer [] h = h
joined-is_empty buffer (e ∷ errors) h =
    joined-is_empty (syntax_error buffer e) errors (syntax_error-is_empty buffer e)

List-cases {ℓ} :
    {A : Type ℓ} (errors : List A)
    → (errors ≡ []) ⊎ ((e : A) × (more : List A) × (errors ≡ e ∷ more))
List-cases [] = inl refl
List-cases (e ∷ more) = inr (e, more, refl)

module _ (json : JsonLibrary) (parser : ParserLibrary) (texts : ExceptionTexts) where
  open json use {Json, dump}

  with_syntax_iff :
      (prefix content s : Bytes) (result : Option Result)
      → (with_syntax json parser texts prefix content result ≡ some (success s)) ↔ (
          (parser.refused content ≡ none)
          × (parser.syntax_errors content ≡ [])
          × (result ≡ some (success s)))
  unfolding with_syntax joined
  with_syntax_iff prefix content s result = elim (Option-cases (parser.refused content)) [
    | inl h ↦ elim (List-cases (parser.syntax_errors content)) [
      | inl none_left ↦ rw (with_syntax, h, none_left, joined) (λ r. (refl, refl, r), λ t. t.2)
      | inr (e, errors, some_left) ↦
          rw
            (
              with_syntax,
              h,
              some_left,
              joined,
              joined-is_empty _ errors (syntax_error-is_empty [] e),
            )
            (λ r. absurd (ground arith), λ t. absurd (ground arith))
    ]
    | inr (what, h) ↦ rw (with_syntax, h) (λ r. absurd (ground arith), λ t. absurd (ground arith))
  ]

  dumped_iff :
      (prefix s : Bytes) (value : Json)
      → (dumped json parser texts prefix value ≡ success s) ↔ (dump 2 value ≡ some s)
  unfolding dumped
  dumped_iff prefix s value = elim (Option-cases (dump 2 value)) [
    | inl h ↦ rw (dumped, h) (λ r. absurd (ground arith), λ t. absurd (ground arith))
    | inr (t, h) ↦ rw (dumped, h) (λ r. ground arith, λ t. ground arith)
  ]

  -- an elaboration that succeeds, and what is written of its model
  abbrev pub Succeeds : (Node → Json) → Bytes → Outcome (Option Node) → Type 0
  Succeeds convert s result =
      (top : Node) × (st : ElaboratorState) × (result ≡ done (some top) st)
      × (st.errors ≡ [])
      × (dump 2 (convert top) ≡ some s)

  -- the call is right where the elaboration is
  Succeeds-report_model :
      (convert : Node → Json) (s : Bytes) (result : Outcome (Option Node))
      → Succeeds convert s result
      → report_model json parser texts convert result ≡ some (success s)
  unfolding report_model dumped
  Succeeds-report_model convert s result (top, st, same, empty, t) =
      rw (same, report_model, empty, dumped, t) refl

  report_model-Succeeds :
      (convert : Node → Json) (s : Bytes) (result : Outcome (Option Node))
      → report_model json parser texts convert result ≡ some (success s)
      → Succeeds convert s result
  unfolding report_model
  report_model-Succeeds convert s (done model st) = elim (List-cases st.errors) [
    | inr (e, more, h) ↦ rw (report_model, h) (λ r. absurd (ground arith))
    | inl h ↦ elim (Option-cases model) [
      | inl no_model ↦ rw (report_model, h, no_model) (λ r. absurd (ground arith))
      | inr (top, is_top) ↦
          rw (report_model, h, is_top)
            (λ r. (
              top,
              record { current_parameter_values = st.current_parameter_values; errors = [] },
              refl,
              refl,
              (dumped_iff (codes "Elaboration error: ") s (convert top)).0 (ground arith),
            ))
    ]
  ]
  report_model-Succeeds convert s thrown = λ r. absurd (ground arith)
  report_model-Succeeds convert s too_deep = λ r. absurd (ground arith)

  -- A call that elaborates a text succeeds with a text if and only if the parser takes the input
  -- and reports no syntax error, the elaboration returns an address map and reports no error, and
  -- the text is what the JSON library writes of the model, with two spaces for each level.
  pub elaborate_content_iff :
      (depth : ℕ) (convert : Node → Json) (content s : Bytes)
      → (elaborate_content json parser texts depth convert content ≡ some (success s)) ↔ (
          (parser.refused content ≡ none)
          × (parser.syntax_errors content ≡ [])
          × Succeeds convert s (elaborate depth (some (parser.root content)) []))
  unfolding elaborate_content
  elaborate_content_iff depth convert content s =
      let (into, back) = with_syntax_iff (codes "Elaboration error: ") content s (
        report_model json parser texts convert (elaborate depth (some (parser.root content)) [])) in
      (
        λ r. ((into r).0, (into r).1, report_model-Succeeds convert s _ (into r).2),
        λ t. back (t.0, t.1, Succeeds-report_model convert s _ t.2),
      )
