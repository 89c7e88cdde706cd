-- ===== src/Elab/Int64/Congruent.antt =====
-- Sums, differences and products of 64 bits are those of the integers, modulo 2 ^ 64.
use native.Mathlib.Nat.{add-mul-mod_self_right}
use systemrdl_toolkit.Base.{ℕ, ◌+◌, ◌*◌, ◌/◌, ◌%◌, ◌<◌, ◌≡◌, sym, ap, ◌∙◌, arith}
use systemrdl_toolkit.Base.Int.{
  ℤ, pos, pos_part, neg_part, ◌+ℤ◌, ◌-ℤ◌, ◌*ℤ◌, +ℤ_parts, -ℤ_parts, *ℤ_parts,
}
use systemrdl_toolkit.Elab.Model.{word, add64, sub64}
use systemrdl_toolkit.Elab.ExprText.{mul64}
use systemrdl_toolkit.Elab.Int64.{signed_value, complement64}

-- the bits are those of the integer
abbrev pub Congruent : ℕ → ℤ → Type 0
Congruent n z = (n < word) × ((n + neg_part z) % word ≡ pos_part z % word)

pub signed_value-Congruent : (n : ℕ) → n < word → Congruent n (signed_value n)
signed_value-Congruent n h = ground arith

pub add64-Congruent :
    (a b : ℕ) (x y : ℤ) → Congruent a x → Congruent b y → Congruent (add64 a b) (x +ℤ y)
add64-Congruent a b x y h k = omega (arith, +ℤ_parts x y)

pub sub64-Congruent :
    (a b : ℕ) (x y : ℤ) → Congruent a x → Congruent b y → Congruent (sub64 a b) (x -ℤ y)
sub64-Congruent a b x y h k = omega (arith, -ℤ_parts x y)

-- equal modulo 2 ^ 64
abbrev pub Same : ℕ → ℕ → Type 0
Same a b = a % word ≡ b % word

split_mod : (a : ℕ) → a ≡ a % word + a / word * word
split_mod a = omega arith

pub times_mod : (a b c : ℕ) → Same a b → Same (a * c) (b * c)
times_mod a b c h =
    let left : (a % word + a / word * word) * c ≡ a % word * c + a / word * c * word =
      grind arith in
    let right : (b % word + b / word * word) * c ≡ b % word * c + b / word * c * word =
      grind arith in
    ap (λ (t : ℕ). t * c % word) (split_mod a)
    ∙ (ap (λ (t : ℕ). t % word) left
        ∙ (add-mul-mod_self_right _ _ word
            ∙ (ap (λ (t : ℕ). t * c % word) h
                ∙ (sym (add-mul-mod_self_right _ _ word)
                    ∙ (ap (λ (t : ℕ). t % word) (sym right)
                        ∙ ap (λ (t : ℕ). t * c % word) (sym (split_mod b)))))))

products :
    (a b p q s t : ℕ)
    → Same (a + q) p
    → Same (b + t) s
    → Same (a * b + (p * t + q * s)) (p * s + q * t)
products a b p q s t h k =
    let e : (a + q) * b ≡ a * b + q * b = grind arith in
    let f : (b + t) * p ≡ p * b + p * t = grind arith in
    let g : (b + t) * q ≡ q * b + q * t = grind arith in
    let u : p * s ≡ s * p = grind arith in
    let v : q * s ≡ s * q = grind arith in
    let w : p * b ≡ b * p = grind arith in
    let h' = times_mod (a + q) p b h in
    let k' = times_mod (b + t) s p k in
    let l' = times_mod (b + t) s q k in omega (arith, e, f, g, u, v, w, h', k', l')

pub mul64-Congruent :
    (a b : ℕ) (x y : ℤ) → Congruent a x → Congruent b y → Congruent (mul64 a b) (x *ℤ y)
mul64-Congruent a b x y h k =
    let same = products a b (pos_part x) (neg_part x) (pos_part y) (neg_part y) h.1 k.1 in
    omega (arith, *ℤ_parts x y, same)

pub complement64-Congruent :
    (a : ℕ) (x : ℤ) → Congruent a x → Congruent (complement64 a) (pos 0 -ℤ x -ℤ pos 1)
complement64-Congruent a x h = omega (arith, -ℤ_parts (pos 0) x, -ℤ_parts (pos 0 -ℤ x) (pos 1))
