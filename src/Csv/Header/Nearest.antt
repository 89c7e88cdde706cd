-- ===== src/Csv/Header/Nearest.antt =====
-- The fuzzy search of `find_best_match`: the first of the nearest texts.
use mathlib.Core.Option.{none-ne-some}
use native.Mathlib.Nat.{le_refl}
use systemrdl_toolkit.Base.{
  ℕ, zero, suc, ◌+◌, ◌≤◌, ◌<◌, ◌≡◌, ◌⊎◌, inl, inr, refl, subst, ap, ◌∙◌, true, false, List, [], ◌∷◌,
  Bytes, arith, some, get_elem?, ltb, ltb→lt, ltb→le, Bool-cases,
}
use systemrdl_toolkit.Csv.Header.{fuzzy_search, Fuzzy, levenshtein_distance}

-- `k` is the first place among those of least distance from `h`, and that distance is below `m`.
pub record IsNearest (h : Bytes) (ts : List Bytes) (m k : ℕ) : Type 0 where
  pub text : Bytes
  pub at : get_elem? ts k ≡ some text
  pub near : levenshtein_distance h text < m
  pub least :
      (j : ℕ) (t : Bytes)
      → get_elem? ts j ≡ some t
      → levenshtein_distance h text ≤ levenshtein_distance h t
  pub earlier :
      (j : ℕ) (t : Bytes)
      → j < k
      → get_elem? ts j ≡ some t
      → levenshtein_distance h text < levenshtein_distance h t

abbrev pub AllFar : Bytes → List Bytes → ℕ → Type 0
AllFar h ts m = (j : ℕ) (t : Bytes) → get_elem? ts j ≡ some t → m ≤ levenshtein_distance h t

-- what the fuzzy search from index `i` makes of `st`
abbrev pub Searched : Bytes → List Bytes → ℕ → Fuzzy → Fuzzy → Type 0
Searched h ts i st st' =
    ((st' ≡ st) × AllFar h ts st.min_distance)
    ⊎ ((k : ℕ) × (st'.best_match ≡ some (i + k))
        × (n : IsNearest h ts st.min_distance k) × (st'.min_distance
            ≡ levenshtein_distance h n.text))

-- a statement of every place of a list, from its head and its tail
pub at_each {ℓ} :
    (t : Bytes) (ts : List Bytes) (P : ℕ → Bytes → Type ℓ)
    → P 0 t
    → ((j : ℕ) (u : Bytes) → get_elem? ts j ≡ some u → P (suc j) u)
    → (j : ℕ) (u : Bytes) → get_elem? (t ∷ ts) j ≡ some u
    → P j u
at_each t ts P here later zero u e = let same : t ≡ u = cc in subst (P 0) same here
at_each t ts P here later (suc j) u e = later j u e

module _ (h t : Bytes) (ts : List Bytes) (i : ℕ) (st st' : Fuzzy) where
  Searched-closer :
      levenshtein_distance h t < st.min_distance
      → Searched h ts
          (suc i)
          (record { best_match = some i; min_distance = levenshtein_distance h t })
          st'
      → Searched h (t ∷ ts) i st st'
  Searched-closer near (inl (same, far)) = inr (
    0,
    rw same (ap some (omega arith)),
    record {
      text = t;
      at = refl;
      near = near;
      least =
          at_each t ts (λ j u. levenshtein_distance h t ≤ levenshtein_distance h u) (le_refl _) far;
      earlier = λ j u below. absurd (omega arith);
    },
    rw same,
  )
  Searched-closer near (inr (k, best, n, m)) = inr (
    suc k,
    best ∙ ap some (omega arith),
    record {
      text = n.text;
      at = n.at;
      near = omega (arith, n.near);
      least =
          at_each t ts (λ j u. levenshtein_distance h n.text ≤ levenshtein_distance h u)
            (omega (arith, n.near)) n.least;
      earlier = λ j u below e.
          at_each t ts (λ j u. j < suc k → levenshtein_distance h n.text < levenshtein_distance h u)
            (λ _. n.near) (λ j u e lt. n.earlier j u (omega arith) e) j u e below;
    },
    m,
  )

  Searched-far :
      st.min_distance ≤ levenshtein_distance h t
      → Searched h ts (suc i) st st'
      → Searched h (t ∷ ts) i st st'
  Searched-far away (inl (same, far)) =
      inl (same, at_each t ts (λ j u. st.min_distance ≤ levenshtein_distance h u) away far)
  Searched-far away (inr (k, best, n, m)) = inr (
    suc k,
    best ∙ ap some (omega arith),
    record {
      text = n.text;
      at = n.at;
      near = n.near;
      least =
          at_each t ts (λ j u. levenshtein_distance h n.text ≤ levenshtein_distance h u)
            (omega (arith, n.near)) n.least;
      earlier = λ j u below e.
          at_each t ts (λ j u. j < suc k → levenshtein_distance h n.text < levenshtein_distance h u)
            (λ _. omega (arith, n.near)) (λ j u e lt. n.earlier j u (omega arith) e) j u e below;
    },
    m,
  )

fuzzy_search_closer :
    (h t : Bytes) (ts : List Bytes) (i : ℕ) (st : Fuzzy)
    → ltb (levenshtein_distance h t) st.min_distance ≡ true
    → fuzzy_search h (t ∷ ts) i st
      ≡ fuzzy_search h ts
          (suc i)
          (record { best_match = some i; min_distance = levenshtein_distance h t })
unfolding fuzzy_search
fuzzy_search_closer h t ts i st e = ground arith

fuzzy_search_far :
    (h t : Bytes) (ts : List Bytes) (i : ℕ) (st : Fuzzy)
    → ltb (levenshtein_distance h t) st.min_distance ≡ false
    → fuzzy_search h (t ∷ ts) i st ≡ fuzzy_search h ts (suc i) st
unfolding fuzzy_search
fuzzy_search_far h t ts i st e = ground arith

pub fuzzy_search-Searched :
    (h : Bytes) (ts : List Bytes) (i : ℕ) (st : Fuzzy) → Searched h ts i st (fuzzy_search h ts i st)
fuzzy_search-Searched h [] i st =
    inl (unfold fuzzy_search in refl, λ j t e. absurd (none-ne-some t e))
fuzzy_search-Searched h (t ∷ ts) i st =
    elim (Bool-cases (ltb (levenshtein_distance h t) st.min_distance)) [
      | inl closer ↦
          rw (fuzzy_search_closer h t ts i st closer) (
            Searched-closer h t ts i st _ (ltb→lt _ _ closer)
              (fuzzy_search-Searched h ts (suc i) _))
      | inr far ↦
          rw (fuzzy_search_far h t ts i st far)
            (Searched-far h t ts i st _ (ltb→le _ _ far) (fuzzy_search-Searched h ts (suc i) st))
    ]
