-- ===== src/Elab/Reg/Positions/Collected.antt =====
-- The fields that need a position are collected once each.
use systemrdl_toolkit.Base.{
  ℕ, suc, ◌≤◌, ◌<◌, ◌≡◌, refl, sym, ◌∙◌, Bool, true, not, List, [], ◌∷◌, ◌++◌, ◌==◌, arith,
  append_assoc, length, length-append, inl, inr, Bool-cases, All,
}
use systemrdl_toolkit.Elab.Model.{Field, is_flagged, auto_position_key}
use systemrdl_toolkit.Elab.Ranges.{count_if}
use systemrdl_toolkit.Elab.Reg.ArrayOrder.{auto_position_fields}
use systemrdl_toolkit.Elab.Reg.Positions.Writes.{holds_at}

auto_count_below :
    (j i : ℕ) (fields : List Field)
    → j < i
    → count_if (λ r. r.0 == j) (auto_position_fields i fields) ≡ 0
unfolding count_if auto_position_fields
auto_count_below j i [] h = refl
auto_count_below j i (f ∷ fields) h = ground (arith, auto_count_below j (suc i) fields)

pub auto_count :
    (j i : ℕ) (fields : List Field) → count_if (λ r. r.0 == j) (auto_position_fields i fields) ≤ 1
unfolding count_if auto_position_fields
auto_count j i [] = omega arith
auto_count j i (f ∷ fields) =
    ground (arith, auto_count j (suc i) fields, auto_count_below j (suc i) fields)

holds_at-append :
    (p : Field → Bool) (before : List Field) (f : Field) (fields : List Field)
    → holds_at p (before ++ f ∷ fields) (length before) ≡ p f
holds_at-append p [] f fields = refl
holds_at-append p (g ∷ before) f fields = holds_at-append p before f fields

length-behind : (before : List Field) (f : Field) → length (before ++ f ∷ []) ≡ suc (length before)
length-behind before f = length-append before (f ∷ []) ∙ omega arith

-- Every collected field passes a test that all flagged fields pass; `before` stands in front.
pub auto_holds :
    (p : Field → Bool) (before fields : List Field)
    → All (λ f. is_flagged auto_position_key f.info.properties ≡ true → p f ≡ true) fields
    → count_if
        (λ r. not (holds_at p (before ++ fields) r.0))
        (auto_position_fields (length before) fields)
      ≡ 0
unfolding count_if auto_position_fields
auto_holds p before [] passes = refl
auto_holds p before (f ∷ fields) passes =
    let here : holds_at p (before ++ f ∷ fields) (length before) ≡ p f =
      holds_at-append p before f fields in
    let rest : count_if (λ r. not (holds_at p (before ++ f ∷ fields) r.0))
          (auto_position_fields (suc (length before)) fields)
        ≡ 0 =
      rw (sym (append_assoc before (f ∷ []) fields), sym (length-behind before f))
        (auto_holds p (before ++ f ∷ []) fields passes.1) in
    elim (Bool-cases (is_flagged auto_position_key f.info.properties)) [
      | inl flagged ↦ rw flagged (ground (arith, here, passes.0 flagged, rest))
      | inr plain ↦ rw plain rest
    ]
