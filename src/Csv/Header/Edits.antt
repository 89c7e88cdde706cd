-- ===== src/Csv/Header/Edits.antt =====
-- What an edit distance is: the least number of single-byte edits between two texts.
use systemrdl_toolkit.Base.{
  ℕ, zero, suc, ◌+◌, ◌≤◌, ◌≡◌, ◌⊎◌, refl, sym, subst, [], ◌∷◌, ◌++◌, Bytes, arith, length, ◌==◌,
  ==_iff, if◌then◌else◌, Bool-cases, inl, inr,
}
use systemrdl_toolkit.Csv.Header.{min3}

-- `Edits s t n`: `n` replacements, insertions and deletions turn `s` into `t`.
pub data Edits : Bytes → Bytes → ℕ → Type 0 where
  done : Edits [] [] zero
  keep : {s t : Bytes} {n : ℕ} (c : ℕ) → Edits s t n → Edits (c ∷ s) (c ∷ t) n
  replace : {s t : Bytes} {n : ℕ} (c e : ℕ) → Edits s t n → Edits (c ∷ s) (e ∷ t) (suc n)
  insert : {s t : Bytes} {n : ℕ} (e : ℕ) → Edits s t n → Edits s (e ∷ t) (suc n)
  delete : {s t : Bytes} {n : ℕ} (c : ℕ) → Edits s t n → Edits (c ∷ s) t (suc n)

abbrev pub cost : ℕ → ℕ → ℕ
cost c e = if c == e then 0 else 1

-- the recursion that the table stores
unfoldable pub lev : Bytes → Bytes → ℕ
lev [] t = length t
lev (c ∷ s) [] = suc (length s)
lev (c ∷ s) (e ∷ t) = min3 (lev s (e ∷ t) + 1) (lev (c ∷ s) t + 1) (lev s t + cost c e)

Edits-at : {s t : Bytes} {n m : ℕ} → m ≡ n → Edits s t n → Edits s t m
Edits-at {s} {t} e h = subst (λ k. Edits s t k) (sym e) h

Edits-cost : (c e : ℕ) {s t : Bytes} {n : ℕ} → Edits s t n → Edits (c ∷ s) (e ∷ t) (n + cost c e)
Edits-cost c e {s} {t} {n} h = elim (Bool-cases (c == e)) [
  | inl same ↦ rw (same, ← (==_iff c e).0 same) (Edits-at (omega arith) (keep c h))
  | inr other ↦ rw other (Edits-at (omega arith) (replace c e h))
]

delete_all : (s : Bytes) → Edits s [] (length s)
delete_all [] = done
delete_all (c ∷ s) = delete c (delete_all s)

min3-cases : (a b c : ℕ) → (min3 a b c ≡ a) ⊎ ((min3 a b c ≡ b) ⊎ (min3 a b c ≡ c))
min3-cases a b c = grind arith

pub lev-Edits : (s t : Bytes) → Edits s t (lev s t)
unfolding lev
lev-Edits [] [] = done
lev-Edits [] (e ∷ t) = insert e (lev-Edits [] t)
lev-Edits (c ∷ s) [] = delete c (delete_all s)
lev-Edits (c ∷ s) (e ∷ t) =
    elim (min3-cases (lev s (e ∷ t) + 1) (lev (c ∷ s) t + 1) (lev s t + cost c e)) [
      | inl up ↦ Edits-at (omega (arith, up)) (delete c (lev-Edits s (e ∷ t)))
      | inr (inl left) ↦ Edits-at (omega (arith, left)) (insert e (lev-Edits (c ∷ s) t))
      | inr (inr diag) ↦ Edits-at diag (Edits-cost c e (lev-Edits s t))
    ]

lev_insert : (s : Bytes) (e : ℕ) (t : Bytes) → lev s (e ∷ t) ≤ suc (lev s t)
unfolding lev
lev_insert [] e t = omega arith
lev_insert (c ∷ s) e t = omega arith

pub lev_nil : (s : Bytes) → lev s [] ≡ length s
unfolding lev
lev_nil [] = refl
lev_nil (c ∷ s) = refl

lev_delete : (c : ℕ) (s t : Bytes) → lev (c ∷ s) t ≤ suc (lev s t)
unfolding lev
lev_delete c s [] = omega (arith, lev_nil s)
lev_delete c s (e ∷ t) = omega arith

pub lev-le : {s t : Bytes} {n : ℕ} → Edits s t n → lev s t ≤ n
unfolding lev
lev-le done = omega arith
lev-le (keep c h) = ground (arith, lev-le h)
lev-le (replace c e h) = ground (arith, lev-le h)
lev-le (insert {s} {t} e h) = omega (arith, lev_insert s e t, lev-le h)
lev-le (delete {s} {t} c h) = omega (arith, lev_delete c s t, lev-le h)

-- a reversal in front of an accumulator
abbrev pub rev_onto : Bytes → Bytes → Bytes
rev_onto [] t = t
rev_onto (c ∷ s) t = rev_onto s (c ∷ t)

pub rev_onto-rev_onto : (s u v : Bytes) → rev_onto (rev_onto s u) v ≡ rev_onto u (s ++ v)
rev_onto-rev_onto [] u v = refl
rev_onto-rev_onto (c ∷ s) u v = rev_onto-rev_onto s (c ∷ u) v

-- Edits can be made from the other end.
pub Edits-rev_onto :
    {s t : Bytes} {n : ℕ} (u v : Bytes) (m : ℕ)
    → Edits s t n
    → Edits u v m
    → Edits (rev_onto s u) (rev_onto t v) (n + m)
Edits-rev_onto u v m done k = Edits-at (omega arith) k
Edits-rev_onto u v m (keep c h) k = Edits-rev_onto (c ∷ u) (c ∷ v) m h (keep c k)
Edits-rev_onto u v m (replace c e h) k =
    Edits-at (omega arith) (Edits-rev_onto (c ∷ u) (e ∷ v) (suc m) h (replace c e k))
Edits-rev_onto u v m (insert e h) k =
    Edits-at (omega arith) (Edits-rev_onto u (e ∷ v) (suc m) h (insert e k))
Edits-rev_onto u v m (delete c h) k =
    Edits-at (omega arith) (Edits-rev_onto (c ∷ u) v (suc m) h (delete c k))
