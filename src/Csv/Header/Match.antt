-- ===== src/Csv/Header/Match.antt =====
-- Which column `find_best_match` chooses.
use mathlib.Core.Option.{none-ne-some}
use systemrdl_toolkit.Base.{
  ℕ, suc, ◌+◌, ◌<◌, ◌≡◌, ◌≢◌, inl, inr, refl, sym, ap, ◌∙◌, List, [], ◌∷◌, Bytes, arith, Option,
  none, some, get_elem?, eq_bytes, eq_bytes_iff, Bool-cases, Option-cases,
}
use systemrdl_toolkit.Csv.Clean.{to_lower}
use systemrdl_toolkit.Csv.Header.{
  find_index, find_abbreviation, fuzzy_search, fuzzy_start, find_best_match,
}
use systemrdl_toolkit.Csv.Header.Nearest.{AllFar, IsNearest, at_each, fuzzy_search-Searched}

-- `k` is the first place at which `s` stands.
pub record IsFirst (s : Bytes) (ts : List Bytes) (k : ℕ) : Type 0 where
  pub at : get_elem? ts k ≡ some s
  pub earlier : (j : ℕ) → j < k → get_elem? ts j ≢ some s

-- where `find_index` finds its text, and that it finds it if it is there
abbrev pub Found : Bytes → List Bytes → ℕ → Option ℕ → Type 0
Found s ts i none = (j : ℕ) → get_elem? ts j ≢ some s
Found s ts i (some r) = (k : ℕ) × (r ≡ i + k) × IsFirst s ts k

Found-later :
    (s t : Bytes) (ts : List Bytes) (i : ℕ) (r : Option ℕ)
    → t ≢ s
    → Found s ts (suc i) r
    → Found s (t ∷ ts) i r
Found-later s t ts i none ne f =
    λ j e. at_each t ts (λ j u. u ≢ s) ne (λ j u e same. f j (e ∙ ap some same)) j s e refl
Found-later s t ts i (some r) ne (k, e, first) = (
  suc k,
  omega arith,
  record {
    at = first.at;
    earlier = λ j lt e.
        at_each t ts (λ j u. j < suc k → u ≢ s) (λ _. ne)
          (λ j u e lt same. first.earlier j (omega arith) (e ∙ ap some same)) j s e lt refl;
  },
)

find_index-Found : (s : Bytes) (ts : List Bytes) (i : ℕ) → Found s ts i (find_index s ts i)
unfolding find_index
find_index-Found s [] i = λ j e. none-ne-some s e
find_index-Found s (t ∷ ts) i = elim (Bool-cases (eq_bytes s t)) [
  | inl same ↦ rw same (
    0,
    omega arith,
    record {
      at = ap some (sym ((eq_bytes_iff s t).0 same));
      earlier = λ j lt. absurd (omega arith);
    },
  )
  | inr other ↦ rw other (
      Found-later s t ts i (find_index s ts (suc i)) (ground (arith, eq_bytes_iff s t))
        (find_index-Found s ts (suc i)))
]

-- The three ways in which `find_best_match` chooses, in the order in which it tries them.
pub data Chosen (h : Bytes) (standards : List Bytes) : Option ℕ → Type 0 where
  exact : (k : ℕ) → IsFirst h standards k → Chosen h standards (some k)
  abbreviated :
      (k : ℕ)
      → ((j : ℕ) → get_elem? standards j ≢ some h)
      → find_abbreviation h standards ≡ some k
      → Chosen h standards (some k)
  fuzzy :
      (k : ℕ)
      → ((j : ℕ) → get_elem? standards j ≢ some h)
      → find_abbreviation h standards ≡ none
      → IsNearest h standards 4 k
      → Chosen h standards (some k)
  unmapped :
      ((j : ℕ) → get_elem? standards j ≢ some h)
      → find_abbreviation h standards ≡ none
      → AllFar h standards 4
      → Chosen h standards none

Chosen-fuzzy :
    (h : Bytes) (standards : List Bytes)
    → ((j : ℕ) → get_elem? standards j ≢ some h)
    → find_abbreviation h standards ≡ none
    → Chosen h standards (fuzzy_search h standards 0 fuzzy_start).best_match
Chosen-fuzzy h standards absent none_short =
    elim (fuzzy_search-Searched h standards 0 fuzzy_start) [
      | inl (same, far) ↦ rw same (unmapped absent none_short far)
      | inr (k, best, n, m) ↦
          let e : 0 + k ≡ k = omega arith in rw (best, e) (fuzzy k absent none_short n)
    ]

Chosen-exact :
    (h : Bytes) (standards : List Bytes) (i : ℕ)
    → find_index h standards 0 ≡ some i
    → Chosen h standards (some i)
Chosen-exact h standards i e =
    let (k, r, first) : Found h standards 0 (some i) = rw e at (find_index-Found h standards 0) in
    let same : i ≡ k = omega (arith, r) in rw same (exact k first)

absent_of_none :
    (h : Bytes) (standards : List Bytes)
    → find_index h standards 0 ≡ none
    → (j : ℕ) → get_elem? standards j ≢ some h
absent_of_none h standards e = rw e at (find_index-Found h standards 0)

module _ (header : Bytes) (standards : List Bytes) where
  find_best_match_exact :
      (i : ℕ)
      → find_index (to_lower header) standards 0 ≡ some i
      → find_best_match header standards ≡ some i
  unfolding find_best_match
  find_best_match_exact i e = rw (e, find_best_match)

  find_best_match_short :
      (i : ℕ)
      → find_index (to_lower header) standards 0 ≡ none
      → find_abbreviation (to_lower header) standards ≡ some i
      → find_best_match header standards ≡ some i
  unfolding find_best_match
  find_best_match_short i e a = rw (e, a, find_best_match)

  find_best_match_fuzzy :
      find_index (to_lower header) standards 0 ≡ none
      → find_abbreviation (to_lower header) standards ≡ none
      → find_best_match header standards
        ≡ (fuzzy_search (to_lower header) standards 0 fuzzy_start).best_match
  unfolding find_best_match
  find_best_match_fuzzy e a = rw (e, a, find_best_match)

-- A header, in lower case, is matched to the first standard column of that name; failing that,
-- to the column that it abbreviates; failing that, to the first of the columns that take the
-- fewest edits, if they take at most three; and to none otherwise.
pub find_best_match-Chosen :
    (header : Bytes) (standards : List Bytes)
    → Chosen (to_lower header) standards (find_best_match header standards)
find_best_match-Chosen header standards =
    elim (Option-cases (find_index (to_lower header) standards 0)) [
      | inr (i, e) ↦
          rw (find_best_match_exact header standards i e)
            (Chosen-exact (to_lower header) standards i e)
      | inl e ↦ elim (Option-cases (find_abbreviation (to_lower header) standards)) [
        | inr (i, a) ↦
            rw (find_best_match_short header standards i e a)
              (abbreviated i (absent_of_none (to_lower header) standards e) a)
        | inl a ↦ rw (find_best_match_fuzzy header standards e a) (
            Chosen-fuzzy (to_lower header) standards (absent_of_none (to_lower header) standards e)
              a)
      ]
    ]
