-- ===== src/Base/Text.antt =====
-- `std::string` as a list of bytes. A literal is ASCII, so its code points are its bytes.
use Prim.Native.Nat.{ℕ, suc}
use Prim.Native.Char.{code}
use Prim.Native.String.{String}
use mathlib.Core.Path.{◌≡◌}
use mathlib.Core.Logic.{◌↔◌}
use mathlib.Core.Bool.{Bool, true, false, ◌&&◌}
use mathlib.Core.List.{List, [], ◌∷◌}
use mathlib.Core.Option.{Option, none, some}
use native.Mathlib.Omega.{arith}
use systemrdl_toolkit.Base.Tests.{◌==◌, if◌then◌else◌}
use systemrdl_toolkit.Base.Lists.{take, drop}

abbrev pub Bytes : Type 0
Bytes = List ℕ

abbrev pub codes : String → Bytes
codes String.[] = []
codes (String.◌∷◌ c s) = code c ∷ codes s

-- `operator==`
unfoldable pub eq_bytes : Bytes → Bytes → Bool
eq_bytes [] [] = true
eq_bytes (a ∷ s) (b ∷ t) = a == b && eq_bytes s t
eq_bytes _ _ = false

pub eq_bytes_iff : (s t : Bytes) → (eq_bytes s t ≡ true) ↔ (s ≡ t)
unfolding eq_bytes
eq_bytes_iff (a ∷ s) (b ∷ t) = ground (arith, eq_bytes_iff s t)
eq_bytes_iff _ _ = ground arith

-- `empty()`
abbrev pub is_empty {ℓ} : {A : Type ℓ} → List A → Bool
is_empty [] = true
is_empty (x ∷ xs) = false

-- `substr(pos, len)` at a position that the callers keep within the text
abbrev pub substr : Bytes → ℕ → ℕ → Bytes
substr s pos len = take len (drop pos s)

-- `find_first_not_of` and `find_last_not_of`; `none` is `npos`
unfoldable pub find_first_not_of : (ℕ → Bool) → Bytes → Option ℕ
find_first_not_of p [] = none
find_first_not_of p (c ∷ s) =
    if p c then elim (find_first_not_of p s) [ none ↦ none | some i ↦ some (suc i) ] else some 0

unfoldable pub find_last_not_of : (ℕ → Bool) → Bytes → Option ℕ
find_last_not_of p [] = none
find_last_not_of p (c ∷ s) = elim (find_last_not_of p s) [
  | none ↦ (if p c then none else some 0)
  | some i ↦ some (suc i)
]
