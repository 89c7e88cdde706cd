-- ===== src/Base/Decimal.antt =====
-- `std::to_string` of an unsigned number.
use Prim.Native.Nat.{ℕ, zero, suc, ◌+◌, ◌/◌, ◌%◌}
use mathlib.Core.List.{[], ◌∷◌}
use systemrdl_toolkit.Base.Tests.{ltb, if◌then◌else◌}
use systemrdl_toolkit.Base.Text.{Bytes}

-- the digits of `n` in front of `out`
decimal_onto : ℕ → ℕ → Bytes → Bytes
decimal_onto zero n out = out
decimal_onto (suc fuel) n out =
    let more = decimal_onto fuel (n / 10) ((b'0' + n % 10) ∷ out) in
    if ltb n 10 then (b'0' + n) ∷ out else more

unfoldable pub to_string : ℕ → Bytes
unfolding decimal_onto
to_string n = decimal_onto (suc n) n []
