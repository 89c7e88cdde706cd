-- ===== src/Csv/Header/Distance.antt =====
-- The table of `levenshtein_distance` holds the least number of edits.
use mathlib.Core.Path.{subst₂}
use systemrdl_toolkit.Base.{
  ℕ, suc, ◌≤◌, ◌≡◌, refl, sym, ap, ◌∙◌, subst, List, [], ◌∷◌, Bytes, arith, length, get_or,
  append-nil,
}
use systemrdl_toolkit.Csv.Header.{fill_row, fill_table, first_row, levenshtein_distance}
use systemrdl_toolkit.Csv.Header.Edits.{
  Edits, done, lev, lev-Edits, lev-le, lev_nil, rev_onto, rev_onto-rev_onto, Edits-rev_onto,
}

-- The row of the table for `a`, right of the column for `b`; both are reversed prefixes.
row_after : Bytes → Bytes → Bytes → List ℕ
row_after a b [] = []
row_after a b (e ∷ s2) = lev a (e ∷ b) ∷ row_after a (e ∷ b) s2

fill_row-row_after :
    (c : ℕ) (a b s2 : Bytes)
    → fill_row c (lev (c ∷ a) b) (lev a b) (row_after a b s2) s2 ≡ row_after (c ∷ a) b s2
unfolding fill_row row_after lev
fill_row-row_after c a b [] = refl
fill_row-row_after c a b (e ∷ s2) =
    ap (◌∷◌ (lev (c ∷ a) (e ∷ b))) (fill_row-row_after c a (e ∷ b) s2)

fill_row_left :
    (c : ℕ) (a s2 : Bytes)
    → fill_row c (suc (length a)) (length a) (row_after a [] s2) s2 ≡ row_after (c ∷ a) [] s2
unfolding lev
fill_row_left c a s2 =
    ap (λ n. fill_row c (suc (length a)) n (row_after a [] s2) s2) (sym (lev_nil a))
    ∙ fill_row-row_after c a [] s2

fill_table-row_after :
    (s1 a s2 : Bytes)
    → fill_table (suc (length a)) (length a) (row_after a [] s2) s1 s2
      ≡ lev (rev_onto s1 a) [] ∷ row_after (rev_onto s1 a) [] s2
unfolding fill_table
fill_table-row_after [] a s2 = ap (λ n. n ∷ row_after a [] s2) (sym (lev_nil a))
fill_table-row_after (c ∷ s1) a s2 =
    ap (λ r. fill_table (suc (suc (length a))) (suc (length a)) r s1 s2) (fill_row_left c a s2)
    ∙ fill_table-row_after s1 (c ∷ a) s2

first_row-row_after : (b s2 : Bytes) → first_row (suc (length b)) s2 ≡ row_after [] b s2
unfolding first_row row_after lev
first_row-row_after b [] = refl
first_row-row_after b (e ∷ s2) = ap (◌∷◌ (suc (length b))) (first_row-row_after (e ∷ b) s2)

get_or-row_after :
    (a b s2 : Bytes) → get_or (lev a b ∷ row_after a b s2) (length s2) 0 ≡ lev a (rev_onto s2 b)
unfolding row_after
get_or-row_after a b [] = refl
get_or-row_after a b (e ∷ s2) = get_or-row_after a (e ∷ b) s2

levenshtein_distance-lev :
    (s1 s2 : Bytes) → levenshtein_distance s1 s2 ≡ lev (rev_onto s1 []) (rev_onto s2 [])
unfolding levenshtein_distance
levenshtein_distance-lev s1 s2 =
    rw (first_row-row_after [] s2, fill_table-row_after s1 [] s2)
      (get_or-row_after (rev_onto s1 []) [] s2)

rev_onto-rev_onto_nil : (s : Bytes) → rev_onto (rev_onto s []) [] ≡ s
rev_onto-rev_onto_nil s = rev_onto-rev_onto s [] [] ∙ append-nil s

reversed : (s t : Bytes) {n : ℕ} → Edits s t n → Edits (rev_onto s []) (rev_onto t []) n
reversed s t {n} h =
    subst (λ k. Edits (rev_onto s []) (rev_onto t []) k) (omega arith)
      (Edits-rev_onto [] [] 0 h done)

reachable : (s1 s2 : Bytes) → Edits s1 s2 (lev (rev_onto s1 []) (rev_onto s2 []))
reachable s1 s2 =
    subst₂ (λ s t. Edits s t (lev (rev_onto s1 []) (rev_onto s2 []))) (rev_onto-rev_onto_nil s1)
      (rev_onto-rev_onto_nil s2)
      (reversed (rev_onto s1 []) (rev_onto s2 []) (lev-Edits (rev_onto s1 []) (rev_onto s2 [])))

-- The distance can be reached by as many single-byte edits, and by no fewer.
pub levenshtein_distance_least :
    (s1 s2 : Bytes)
    → Edits s1 s2 (levenshtein_distance s1 s2)
      × ((n : ℕ) → Edits s1 s2 n → levenshtein_distance s1 s2 ≤ n)
levenshtein_distance_least s1 s2 = (
  rw (levenshtein_distance-lev s1 s2) (reachable s1 s2),
  λ n h. rw (levenshtein_distance-lev s1 s2) (lev-le (reversed s1 s2 h)),
)
