-- ===== src/Elab/Int64/Division.antt =====
-- Division of `int64_t` cuts off towards zero.
use native.Mathlib.Nat.{mod-lt, mod-le, div-add-mod', div-le_self}
use native.Mathlib.Decide.{dec_lt}
use systemrdl_toolkit.Base.{
  ℕ, ◌+◌, ◌*◌, ◌/◌, ◌%◌, ◌^◌, ◌<◌, ◌≤◌, ◌≡◌, ◌≢◌, ◌⊎◌, inl, inr, arith, Bool, true, false, not,
  Bool-cases, if◌then◌else◌, le→leb, sym, ap, refl, ◌∙◌,
}
use systemrdl_toolkit.Elab.Model.{word}
use systemrdl_toolkit.Elab.Int64.{is_negative, magnitude, negate64, divide64, modulo64}

magnitude-le : (r : ℕ) → r < word → magnitude r ≤ 2 ^ 63
magnitude-le r h = ground arith

magnitude-same : (x : ℕ) → x ≤ 2 ^ 63 → magnitude x ≡ x
magnitude-same x h = ground arith

magnitude-negate64 : (x : ℕ) → x ≤ 2 ^ 63 → magnitude (negate64 x) ≡ x
magnitude-negate64 x h = ground arith

-- with a sign, unless it is zero
negate64-sign : (x : ℕ) → x ≤ 2 ^ 63 → (negate64 x ≡ 0) ⊎ (is_negative (negate64 x) ≡ true)
negate64-sign x h = elim (dec_lt 0 x) [
  | yes p ↦ inr (le→leb _ _ (omega arith))
  | no p ↦ inl (omega arith)
]

-- without a sign, unless it is the magnitude of the least number
same-sign : (x : ℕ) → x ≤ 2 ^ 63 → (x ≡ 2 ^ 63) ⊎ (is_negative x ≡ false)
same-sign x h = elim (dec_lt x (2 ^ 63)) [ yes p ↦ inr (ground arith) | no p ↦ inl (omega arith) ]

-- Quotients and remainders as C++ has them: the magnitudes are those of natural numbers, a
-- remainder has the sign of the number divided and a quotient that of both numbers together. The
-- magnitude 2 ^ 63 is that of the least number, whatever the signs.
abbrev pub IsDivision : (l r q m : ℕ) → Type 0
IsDivision l r q m =
    (magnitude q * magnitude r + magnitude m ≡ magnitude l)
    × (magnitude m < magnitude r)
    × ((q ≡ 0)
        ⊎ ((q ≡ 2 ^ 63)
            ⊎ (is_negative q ≡ (if is_negative l then not (is_negative r) else is_negative r))))
    × ((m ≡ 0) ⊎ (is_negative m ≡ is_negative l))

one_sign : (a b : Bool) → a ≡ b → (if a then not b else b) ≡ false
one_sign a b h = ground arith

two_signs : (a b : Bool) → a ≡ not b → (if a then not b else b) ≡ true
two_signs a b h = ground arith

-- the quotient and the remainder, from the magnitudes `a` and `b`
module _ (l r a b : ℕ) (el : magnitude l ≡ a) (er : magnitude r ≡ b) (nz : r ≢ 0) where
  divide64-same : is_negative l ≡ is_negative r → a < word → divide64 l r ≡ a / b
  unfolding divide64
  divide64-same e h = rw (sym el, sym er) (ground (arith, div-le_self (magnitude l) (magnitude r)))

  divide64-other : is_negative l ≡ not (is_negative r) → divide64 l r ≡ negate64 (a / b)
  unfolding divide64
  divide64-other e = rw (sym el, sym er) (ground arith)

  modulo64-negative : is_negative l ≡ true → modulo64 l r ≡ negate64 (a % b)
  unfolding modulo64
  modulo64-negative e = rw (sym el, sym er) (ground arith)

  modulo64-positive : is_negative l ≡ false → modulo64 l r ≡ a % b
  unfolding modulo64
  modulo64-positive e = rw (sym el, sym er) (ground arith)

module _ (l r : ℕ) (h : l < word) (k : r < word) (nz : r ≢ 0) where
  abbrev quotient : ℕ
  quotient = magnitude l / magnitude r

  abbrev remainder : ℕ
  remainder = magnitude l % magnitude r

  quotient-le : quotient ≤ 2 ^ 63
  quotient-le = omega (arith, magnitude-le l h, div-le_self (magnitude l) (magnitude r))

  positive : 0 < magnitude r
  positive = ground arith

  remainder-le : remainder ≤ 2 ^ 63
  remainder-le = omega (arith, magnitude-le l h, mod-le (magnitude l) (magnitude r))

  below : remainder < magnitude r
  below = mod-lt (magnitude l) positive

  -- the quotient with its sign
  divide64-cases :
      ((is_negative l ≡ is_negative r) × (divide64 l r ≡ quotient))
      ⊎ ((is_negative l ≡ not (is_negative r)) × (divide64 l r ≡ negate64 quotient))
  divide64-cases =
      let short : magnitude l < word = omega (arith, magnitude-le l h) in
      elim (Bool-cases (is_negative l)) [
        | inl nl ↦ elim (Bool-cases (is_negative r)) [
          | inl nr ↦ inl (nl ∙ sym nr, divide64-same l r _ _ refl refl nz (nl ∙ sym nr) short)
          | inr pr ↦
              let other : is_negative l ≡ not (is_negative r) = nl ∙ sym (ap not pr) in
              inr (other, divide64-other l r _ _ refl refl nz other)
        ]
        | inr pl ↦ elim (Bool-cases (is_negative r)) [
          | inl nr ↦
              let other : is_negative l ≡ not (is_negative r) = pl ∙ sym (ap not nr) in
              inr (other, divide64-other l r _ _ refl refl nz other)
          | inr pr ↦ inl (pl ∙ sym pr, divide64-same l r _ _ refl refl nz (pl ∙ sym pr) short)
        ]
      ]

  quotient-magnitude : magnitude (divide64 l r) ≡ quotient
  quotient-magnitude = elim divide64-cases [
    | inl (same, e) ↦ ap magnitude e ∙ magnitude-same quotient quotient-le
    | inr (other, e) ↦ ap magnitude e ∙ magnitude-negate64 quotient quotient-le
  ]

  quotient_sign :
      (divide64 l r ≡ 0)
      ⊎ ((divide64 l r ≡ 2 ^ 63)
          ⊎ (is_negative (divide64 l r)
              ≡ (if is_negative l then not (is_negative r) else is_negative r)))
  quotient_sign = elim divide64-cases [
    | inl (same, e) ↦ elim (same-sign quotient quotient-le) [
      | inl least ↦ inr (inl (e ∙ least))
      | inr plus ↦ inr (inr (ap is_negative e ∙ (plus ∙ sym (one_sign _ _ same))))
    ]
    | inr (other, e) ↦ elim (negate64-sign quotient quotient-le) [
      | inl z ↦ inl (e ∙ z)
      | inr minus ↦ inr (inr (ap is_negative e ∙ (minus ∙ sym (two_signs _ _ other))))
    ]
  ]

  remainder_lem :
      (magnitude (modulo64 l r) ≡ remainder)
      × ((modulo64 l r ≡ 0) ⊎ (is_negative (modulo64 l r) ≡ is_negative l))
  remainder_lem = elim (Bool-cases (is_negative l)) [
    | inl nl ↦
        let e = modulo64-negative l r _ _ refl refl nz nl in
        (
          ap magnitude e ∙ magnitude-negate64 remainder remainder-le,
          elim (negate64-sign remainder remainder-le) [
            | inl z ↦ inl (e ∙ z)
            | inr minus ↦ inr (ap is_negative e ∙ (minus ∙ sym nl))
          ],
        )
    | inr pl ↦
        let e = modulo64-positive l r _ _ refl refl nz pl in
        (
          ap magnitude e ∙ magnitude-same remainder remainder-le,
          elim (same-sign remainder remainder-le) [
            | inl least ↦ absurd (omega (arith, least, below, magnitude-le r k))
            | inr plus ↦ inr (ap is_negative e ∙ (plus ∙ sym pl))
          ],
        )
  ]

  pub divide64-modulo64 : IsDivision l r (divide64 l r) (modulo64 l r)
  divide64-modulo64 = (
    rw (quotient-magnitude, remainder_lem.0) (div-add-mod' (magnitude l) (magnitude r)),
    rw remainder_lem.0 below,
    quotient_sign,
    remainder_lem.1,
  )
