-- ===== src/Elab/ExprText/Search.antt =====
-- The searches for an operator in a text of two words with an operator between them.
use systemrdl_toolkit.Base.{
  ℕ, suc, ◌≡◌, refl, ap, true, false, [], ◌∷◌, ◌++◌, Bytes, Option, none, some, ◌==◌, take, drop,
  length, find_first_not_of, arith, inl, inr, Bool-cases, &&-eq-true, ==_iff,
}
use systemrdl_toolkit.Elab.Reg.ArrayOrder.{find}
use systemrdl_toolkit.Elab.ExprText.{is_word, all_words, starts_with, find_string, without_spaces}

-- no word character is the given one
abbrev pub IsPunctuation : ℕ → Type 0
IsPunctuation c = is_word c ≡ false

word_ne : (c d : ℕ) → IsPunctuation c → is_word d ≡ true → (d == c) ≡ false
word_ne c d p h = elim (Bool-cases (d == c)) [
  | inl same ↦ absurd (cc (ap is_word ((==_iff d c).0 same), p, h))
  | inr other ↦ other
]

-- the search goes on behind a character that is another one
find-step :
    (c d : ℕ) (s : Bytes) (o : Option ℕ)
    → (d == c) ≡ false
    → find c s ≡ o
    → find c (d ∷ s) ≡ elim o as (λ x. Option ℕ) [ none ↦ none | some i ↦ some (suc i) ]
unfolding find_first_not_of
find-step c d s o ne later =
    rw ne (ap (λ x. elim x as (λ y. Option ℕ) [ none ↦ none | some i ↦ some (suc i) ]) later)

find-none : (c : ℕ) (s : Bytes) → IsPunctuation c → all_words s ≡ true → find c s ≡ none
unfolding find_first_not_of all_words
find-none c [] p h = refl
find-none c (d ∷ s) p h =
    let (first, rest) = &&-eq-true (is_word d) (all_words s) h in
    find-step c d s none (word_ne c d p first) (find-none c s p rest)

pub find-here :
    (c : ℕ) (s t : Bytes)
    → IsPunctuation c
    → all_words s ≡ true
    → find c (s ++ c ∷ t) ≡ some (length s)
unfolding find_first_not_of all_words
find-here c [] t p h = let same : (c == c) ≡ true = ground arith in rw same refl
find-here c (d ∷ s) t p h =
    let (first, rest) = &&-eq-true (is_word d) (all_words s) h in
    find-step c d (s ++ c ∷ t) (some (length s)) (word_ne c d p first) (find-here c s t p rest)

pub find-past :
    (c o : ℕ) (s t : Bytes)
    → IsPunctuation c
    → (o == c) ≡ false
    → all_words s ≡ true
    → all_words t ≡ true
    → find c (s ++ o ∷ t) ≡ none
unfolding all_words
find-past c o [] t p ne h k = find-step c o t none ne (find-none c t p k)
find-past c o (d ∷ s) t p ne h k =
    let (first, rest) = &&-eq-true (is_word d) (all_words s) h in
    find-step c d (s ++ o ∷ t) none (word_ne c d p first) (find-past c o s t p ne rest k)

-- a text that begins with punctuation which is not there is not found
find_string-step :
    (c d : ℕ) (p s : Bytes)
    → (d == c) ≡ false
    → find_string (c ∷ p) s ≡ none
    → find_string (c ∷ p) (d ∷ s) ≡ none
unfolding find_string starts_with
find_string-step c d p s ne later =
    let turned : (c == d) ≡ false = ground arith in rw (turned, later) refl

find_string-words :
    (c : ℕ) (p t : Bytes) → IsPunctuation c → all_words t ≡ true → find_string (c ∷ p) t ≡ none
unfolding all_words find_string
find_string-words c p [] punct k = refl
find_string-words c p (d ∷ t) punct k =
    let (first, rest) = &&-eq-true (is_word d) (all_words t) k in
    find_string-step c d p t (word_ne c d punct first) (find_string-words c p t punct rest)

pub find_string-past :
    (c o : ℕ) (p s t : Bytes)
    → IsPunctuation c
    → (o == c) ≡ false
    → all_words s ≡ true
    → all_words t ≡ true
    → find_string (c ∷ p) (s ++ o ∷ t) ≡ none
unfolding all_words
find_string-past c o p [] t punct ne h k =
    find_string-step c o p t ne (find_string-words c p t punct k)
find_string-past c o p (d ∷ s) t punct ne h k =
    let (first, rest) = &&-eq-true (is_word d) (all_words s) h in
    find_string-step c d p (s ++ o ∷ t) (word_ne c d punct first)
      (find_string-past c o p s t punct ne rest k)

pub without_spaces-words : (s : Bytes) → all_words s ≡ true → without_spaces s ≡ s
unfolding all_words without_spaces
without_spaces-words [] h = refl
without_spaces-words (c ∷ s) h =
    let (first, rest) = &&-eq-true (is_word c) (all_words s) h in
    rw (word_ne b' ' c refl first) (ap (◌∷◌ c) (without_spaces-words s rest))

pub take-front : (s t : Bytes) → take (length s) (s ++ t) ≡ s
take-front [] t = refl
take-front (c ∷ s) t = ap (◌∷◌ c) (take-front s t)

pub drop-front : (s t : Bytes) (o : ℕ) → drop (suc (length s)) (s ++ o ∷ t) ≡ t
drop-front [] t o = refl
drop-front (c ∷ s) t o = drop-front s t o

pub all_words-past : (o : ℕ) (s t : Bytes) → IsPunctuation o → all_words (s ++ o ∷ t) ≡ false
unfolding all_words
all_words-past o [] t p = rw p refl
all_words-past o (c ∷ s) t p = ground (arith, all_words-past o s t p)
