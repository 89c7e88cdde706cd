-- ===== src/Elab/Int64.antt =====
-- The operations on `int64_t` of `evaluate_expression` in elaborator.cpp. A number is its bit
-- pattern, below 2 ^ 64. Where the language leaves the result open, as for a sum that is too large
-- or the least number divided by -1, the bits wrap around.
pub mod Congruent
pub mod Bounds
pub mod Division
use Prim.Native.Nat.{bit_and, bit_or, bit_xor}
use systemrdl_toolkit.Base.{
  ℕ, zero, suc, ◌+◌, ◌-◌, ◌*◌, ◌/◌, ◌%◌, ◌^◌, Bool, true, false, not, ◌&&◌, ◌||◌, Bytes, ◌∷◌, ltb,
  leb, ◌==◌, if◌then◌else◌, to_string, min,
}
use systemrdl_toolkit.Base.Int.{ℤ, pos, negsuc}
use systemrdl_toolkit.Elab.Model.{word, add64, sub64}
use systemrdl_toolkit.Elab.ExprText.{mul64}

abbrev pub is_negative : ℕ → Bool
is_negative n = leb (2 ^ 63) n

-- the number without its sign
abbrev pub magnitude : ℕ → ℕ
magnitude n = if is_negative n then word - n else n

-- the integer that the bits stand for
abbrev pub signed_value : ℕ → ℤ
signed_value n = if is_negative n then negsuc (word - n - 1) else pos n

-- `std::to_string`
unfoldable pub signed_string : ℕ → Bytes
unfolding to_string
signed_string n = if is_negative n then b'-' ∷ to_string (word - n) else to_string n

-- `-val`, `~val` and the number of a truth value
abbrev pub negate64 : ℕ → ℕ
negate64 n = sub64 0 n

abbrev pub complement64 : ℕ → ℕ
complement64 n = word - 1 - n

abbrev pub as_number : Bool → ℕ
as_number true = 1
as_number false = 0

-- `l / r` and `l % r`, which cut off towards zero
unfoldable pub divide64 : ℕ → ℕ → ℕ
divide64 l r =
    if r == 0
    then 0
    else (let quotient = magnitude l / magnitude r in
        if is_negative l
        then (if is_negative r then quotient % word else negate64 quotient)
        else (if is_negative r then negate64 quotient else quotient))

unfoldable pub modulo64 : ℕ → ℕ → ℕ
modulo64 l r =
    if r == 0
    then 0
    else (let remainder = magnitude l % magnitude r in
        if is_negative l then negate64 remainder else remainder)

-- the loop of `**`, with the rounds that are left
unfoldable pub power_loop : ℕ → ℕ → ℕ → ℕ
power_loop zero l result = result
power_loop (suc rounds) l result = power_loop rounds l (mul64 result l)

-- `i < r && i < 64` holds for no round where `r` is negative
unfoldable pub power64 : ℕ → ℕ → ℕ
unfolding power_loop
power64 l r = power_loop (if is_negative r then 0 else min r 64) l 1

-- `l << (r & 63)` and `l >> (r & 63)`; the last fills with the sign
unfoldable pub shift_left64 : ℕ → ℕ → ℕ
shift_left64 l r = mul64 l (2 ^ (r % 64))

unfoldable pub shift_right64 : ℕ → ℕ → ℕ
shift_right64 l r =
    let d = 2 ^ (r % 64) in if is_negative l then complement64 (complement64 l / d) else l / d

-- `l < r`
unfoldable pub less64 : ℕ → ℕ → Bool
less64 l r = ltb ((l + 2 ^ 63) % word) ((r + 2 ^ 63) % word)
