-- ===== src/Elab/Ranges.antt =====
-- The two nested loops of elaborator.cpp that compare every element of a vector with the ones
-- behind it, and what they find out of a family of ranges.
use systemrdl_toolkit.Base.{
  ℕ, ◌+◌, ◌≤◌, ◌≡◌, refl, ap, ◌∙◌, Bool, true, false, ◌&&◌, List, [], ◌∷◌, ◌++◌, ◌↔◌, inl, inr,
  Bool-cases, if◌then◌else◌, All, arith,
}

module _ {ℓ κ} {A : Type ℓ} {E : Type κ} where
  -- the inner loop
  unfoldable pub against : (A → A → List E) → A → List A → List E
  against report x [] = []
  against report x (y ∷ ys) = report x y ++ against report x ys

  unfoldable pub each_pair : (A → A → List E) → List A → List E
  unfolding against
  each_pair report [] = []
  each_pair report (x ∷ xs) = against report x xs ++ each_pair report xs

append_empty {κ} : {E : Type κ} (xs ys : List E) → xs ++ ys ≡ [] → (xs ≡ []) × (ys ≡ [])
append_empty [] ys h = (refl, h)
append_empty (x ∷ xs) ys h = ground arith

pub append_empty_iff {κ} : {E : Type κ} (xs ys : List E) → (xs ++ ys ≡ []) ↔ ((xs ≡ []) × (ys ≡ []))
append_empty_iff xs ys = (append_empty xs ys, λ h. ap (λ zs. zs ++ ys) h.0 ∙ h.1)

-- how many of the elements pass
unfoldable pub count_if {ℓ} : {A : Type ℓ} → (A → Bool) → List A → ℕ
count_if p [] = 0
count_if p (x ∷ xs) = (if p x then 1 else 0) + count_if p xs

module _ {ℓ κ ι} {A : Type ℓ} {E : Type κ} (report : A → A → List E) (holds : ℕ → A → Bool)
    (Fine : A → Type ι)
    (exact : (x y : A)
      → Fine x
      → Fine y
      → (report x y ≡ []) ↔ ((b : ℕ) → (holds b x && holds b y) ≡ false)) where
  against_iff :
      (x : A) (ys : List A)
      → Fine x
      → All Fine ys
      → (against report x ys ≡ []) ↔ ((b : ℕ) → holds b x ≡ true → count_if (holds b) ys ≡ 0)
  unfolding against count_if
  against_iff x [] fx fs = (λ h b held. refl, λ h. refl)
  against_iff x (y ∷ ys) fx fs =
      let pair = exact x y fx fs.0 in
      let later = against_iff x ys fx fs.1 in
      let both = append_empty_iff (report x y) (against report x ys) in
      (
        λ h b held. ground (arith, pair.0 (both.0 h).0 b, later.0 (both.0 h).1 b held),
        λ h. both.1 (pair.1 (λ b. ground (arith, h b)), later.1 (λ b held. ground (arith, h b))),
      )

  -- No pair is reported if and only if nothing is held twice.
  pub each_pair_iff :
      (xs : List A)
      → All Fine xs
      → (each_pair report xs ≡ []) ↔ ((b : ℕ) → count_if (holds b) xs ≤ 1)
  unfolding each_pair count_if
  each_pair_iff [] fs = (λ h b. omega arith, λ h. refl)
  each_pair_iff (x ∷ xs) fs =
      let first = against_iff x xs fs.0 fs.1 in
      let later = each_pair_iff xs fs.1 in
      let both = append_empty_iff (against report x xs) (each_pair report xs) in
      (
        λ h b. elim (Bool-cases (holds b x)) [
          | inl held ↦ rw (held, first.0 (both.0 h).0 b held) (omega arith)
          | inr free ↦ rw free (omega (arith, later.0 (both.0 h).1 b))
        ],
        λ h. both.1 (first.1 (λ b held. ground (arith, h b)), later.1 (λ b. ground (arith, h b))),
      )
