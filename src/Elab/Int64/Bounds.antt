-- ===== src/Elab/Int64/Bounds.antt =====
-- Operations on 64 bits stay within 64 bits.
use Prim.Native.Nat.{
  ℕ, zero, suc, ◌/◌, ◌%◌, ◌^◌, ◌<◌, ◌≤◌, min, max, digits, differ, bit_and, bit_or, bit_xor,
  bit_and-bitwise, bit_or-bitwise, bit_xor-bitwise,
}
use native.Mathlib.Nat.{div-le_self, mod-le}
use systemrdl_toolkit.Base.{arith, if◌then◌else◌}
use systemrdl_toolkit.Elab.Model.{word}
use systemrdl_toolkit.Elab.ExprText.{mul64}
use systemrdl_toolkit.Elab.Int64.{
  is_negative, magnitude, negate64, divide64, modulo64, power_loop, power64, shift_left64,
  shift_right64,
}

digits-lt :
    (z : ℕ → ℕ) (f : ℕ → ℕ → ℕ)
    → ((b : ℕ) → z b ≤ b)
    → ((x y : ℕ) → x < 2 → y < 2 → f x y < 2)
    → (k n a b : ℕ) → a < 2 ^ k
    → b < 2 ^ k
    → digits z f n a b < 2 ^ k
digits-lt z f hz hf k zero a b p q = omega (arith, hz b)
digits-lt z f hz hf k (suc n) zero b p q = omega (arith, hz b)
digits-lt z f hz hf zero (suc n) (suc a) b p q = absurd (omega arith)
digits-lt z f hz hf (suc k) (suc n) (suc a) b p q = omega (
  arith,
  hf (suc a % 2) (b % 2) (omega arith) (omega arith),
  digits-lt z f hz hf k n (suc a / 2) (b / 2) (omega arith) (omega arith),
)

differ-lt : (x y : ℕ) → x < 2 → y < 2 → differ x y < 2
differ-lt zero y p q = q
differ-lt (suc x) zero p q = p
differ-lt (suc x) (suc y) p q = differ-lt x y (omega arith) (omega arith)

pub bit_and-lt : (a b : ℕ) → a < word → b < word → bit_and a b < word
bit_and-lt a b p q = omega (
  arith,
  bit_and-bitwise a b,
  digits-lt (λ b. zero) min (λ b. omega arith) (λ x y p q. omega arith) 64 a a b p q,
)

pub bit_or-lt : (a b : ℕ) → a < word → b < word → bit_or a b < word
bit_or-lt a b p q = omega (
  arith,
  bit_or-bitwise a b,
  digits-lt (λ b. b) max (λ b. omega arith) (λ x y p q. omega arith) 64 a a b p q,
)

pub bit_xor-lt : (a b : ℕ) → a < word → b < word → bit_xor a b < word
bit_xor-lt a b p q = omega (
  arith,
  bit_xor-bitwise a b,
  digits-lt (λ b. b) differ (λ b. omega arith) differ-lt 64 a a b p q,
)

pub negate64-lt : (a : ℕ) → negate64 a < word
negate64-lt a = omega arith

pub divide64-lt : (a b : ℕ) → a < word → divide64 a b < word
unfolding divide64
divide64-lt a b h =
    ground (arith, div-le_self a (magnitude b), negate64-lt (magnitude a / magnitude b))

pub modulo64-lt : (a b : ℕ) → a < word → modulo64 a b < word
unfolding modulo64
modulo64-lt a b h = ground (arith, mod-le a (magnitude b), negate64-lt (magnitude a % magnitude b))

pub power_loop-lt : (rounds l result : ℕ) → result < word → power_loop rounds l result < word
unfolding power_loop
power_loop-lt zero l result h = h
power_loop-lt (suc rounds) l result h = power_loop-lt rounds l (mul64 result l) (omega arith)

pub power64-lt : (l r : ℕ) → power64 l r < word
unfolding power64
power64-lt l r = power_loop-lt (if is_negative r then 0 else min r 64) l 1 (omega arith)

pub shift_left64-lt : (l r : ℕ) → shift_left64 l r < word
unfolding shift_left64
shift_left64-lt l r = omega arith

pub shift_right64-lt : (l r : ℕ) → l < word → shift_right64 l r < word
unfolding shift_right64
shift_right64-lt l r h = ground (arith, div-le_self l (2 ^ (r % 64)))
