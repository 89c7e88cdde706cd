-- ===== src/Csv/Clean/Trim.antt =====
-- `trim` in full: what it removes and what it keeps.
use systemrdl_toolkit.Base.{
  ℕ, suc, ◌≡◌, ◌≢◌, ◌⊎◌, inl, inr, refl, ap, ◌∙◌, true, false, [], ◌∷◌, ◌++◌, none, some, Bytes,
  arith, Bool-cases, Option-cases, take, All, find_first_not_of, find_last_not_of, if◌then◌else◌,
}
use systemrdl_toolkit.Csv.Clean.{trim, is_blank, front, back}

-- every byte is one of the four that `trim` removes
abbrev pub IsBlank : Bytes → Type 0
IsBlank = All (λ c. is_blank c ≡ true)

-- the text up to its last byte that is not blank
rtrim : Bytes → Bytes
rtrim s = elim (find_last_not_of is_blank s) [ none ↦ [] | some last ↦ take (suc last) s ]

trim_blank : (c : ℕ) (s : Bytes) → is_blank c ≡ true → trim (c ∷ s) ≡ trim s
unfolding trim find_first_not_of find_last_not_of
trim_blank c s h = ground arith

trim_kept : (c : ℕ) (s : Bytes) → is_blank c ≡ false → trim (c ∷ s) ≡ c ∷ rtrim s
unfolding trim rtrim find_first_not_of find_last_not_of
trim_kept c s h = ground arith

-- What is cut off at the right is blank, and a byte that is not blank stands before it.
record IsRightTrim (s t : Bytes) : Type 0 where
  post : Bytes
  splits : s ≡ t ++ post
  post_blank : IsBlank post
  kept : (t ≡ []) ⊎ (is_blank (back t) ≡ false)

back-cons : (c : ℕ) (t : Bytes) → t ≢ [] → back (c ∷ t) ≡ back t
back-cons c [] h = absurd (h refl)
back-cons c (d ∷ t) h = refl

rtrim-ne-nil : (s : Bytes) (j : ℕ) → find_last_not_of is_blank s ≡ some j → rtrim s ≢ []
unfolding rtrim find_last_not_of
rtrim-ne-nil [] j h = cc
rtrim-ne-nil (c ∷ s) j h = ground arith

rtrim_cons_last :
    (c : ℕ) (s : Bytes)
    → find_last_not_of is_blank s ≡ none
    → rtrim (c ∷ s) ≡ (if is_blank c then [] else c ∷ [])
unfolding rtrim find_last_not_of
rtrim_cons_last c s e = ground arith

rtrim_cons_none :
    (c : ℕ) (s : Bytes)
    → find_last_not_of is_blank s ≡ none
    → IsBlank s
    → IsRightTrim (c ∷ s) (rtrim (c ∷ s))
rtrim_cons_none c s e blank = elim (Bool-cases (is_blank c)) [
  | inl h ↦
      rw (rtrim_cons_last c s e, h)
        (record { post = c ∷ s; splits = refl; post_blank = (h, blank); kept = inl refl })
  | inr h ↦
      rw (rtrim_cons_last c s e, h)
        (record { post = s; splits = refl; post_blank = blank; kept = inr h })
]

rtrim_cons_some :
    (c : ℕ) (s : Bytes) (j : ℕ) → find_last_not_of is_blank s ≡ some j → rtrim (c ∷ s) ≡ c ∷ rtrim s
unfolding rtrim find_last_not_of
rtrim_cons_some c s j e = ground arith

rtrim-none : (s : Bytes) → find_last_not_of is_blank s ≡ none → rtrim s ≡ []
unfolding rtrim
rtrim-none s e = ground arith

IsBlank-of_none :
    {s : Bytes} → find_last_not_of is_blank s ≡ none → IsRightTrim s (rtrim s) → IsBlank s
IsBlank-of_none {s} e r = rw (r.splits ∙ ap (λ t. t ++ r.post) (rtrim-none s e)) r.post_blank

rtrim-IsRightTrim : (s : Bytes) → IsRightTrim s (rtrim s)
rtrim-IsRightTrim [] = record {
  post = [];
  splits = unfold rtrim find_last_not_of in refl;
  post_blank = tt;
  kept = inl (unfold rtrim find_last_not_of in refl);
}
rtrim-IsRightTrim (c ∷ s) = elim (Option-cases (find_last_not_of is_blank s)) [
  | inl e ↦ rtrim_cons_none c s e (IsBlank-of_none e (rtrim-IsRightTrim s))
  | inr (j, e) ↦
      let r = rtrim-IsRightTrim s in
      rw (rtrim_cons_some c s j e) (record {
        post = r.post;
        splits = ap (◌∷◌ c) r.splits;
        post_blank = r.post_blank;
        kept = ground (arith, r.kept, rtrim-ne-nil s j e, back-cons c (rtrim s));
      })
]

-- `t` is `s` without its blank ends.
pub record IsTrimmed (s t : Bytes) : Type 0 where
  pub pre : Bytes
  pub post : Bytes
  pub splits : s ≡ pre ++ (t ++ post)
  pub pre_blank : IsBlank pre
  pub post_blank : IsBlank post
  pub kept : (t ≡ []) ⊎ ((is_blank (front t) ≡ false) × (is_blank (back t) ≡ false))

-- `trim` cuts off blank bytes at both ends and nothing else, and what is left is empty or
-- begins and ends with a byte that is not blank.
pub trim-IsTrimmed : (s : Bytes) → IsTrimmed s (trim s)
trim-IsTrimmed [] = record {
  pre = [];
  post = [];
  splits = unfold trim find_first_not_of in refl;
  pre_blank = tt;
  post_blank = tt;
  kept = inl (unfold trim find_first_not_of in refl);
}
trim-IsTrimmed (c ∷ s) = elim (Bool-cases (is_blank c)) [
  | inl h ↦
      let t = trim-IsTrimmed s in
      rw (trim_blank c s h) (record {
        pre = c ∷ t.pre;
        post = t.post;
        splits = ap (◌∷◌ c) t.splits;
        pre_blank = (h, t.pre_blank);
        post_blank = t.post_blank;
        kept = t.kept;
      })
  | inr h ↦
      let r = rtrim-IsRightTrim s in
      rw (trim_kept c s h) (record {
        pre = [];
        post = r.post;
        splits = ap (◌∷◌ c) r.splits;
        pre_blank = tt;
        post_blank = r.post_blank;
        kept = inr (h, ground (arith, r.kept, back-cons c (rtrim s)));
      })
]
