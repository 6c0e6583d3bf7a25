-- ===== src/Prelude/Decimal.antt =====
-- `fmt.Sprint` of a number: its decimal digits.
use Prim.Native.Nat.{ℕ, zero, suc, ◌+◌, ◌/◌, ◌%◌}
use mathlib.Core.List.{[], ◌∷◌}
use mathlib.Core.Bool.{true, false}
use potluck.Prelude.Tests.{ltb}
use potluck.Prelude.Texts.{Text}

-- Twenty digits hold every uint64, so no call runs out of fuel before it.
unfoldable pub digits_from : ℕ → ℕ → Text → Text
digits_from zero n rest = rest
digits_from (suc fuel) n rest = elim (ltb n 10) [
  | true ↦ (b'0' + n) ∷ rest
  | false ↦ digits_from fuel (n / 10) ((b'0' + n % 10) ∷ rest)
]

unfoldable pub decimal : ℕ → Text
unfolding digits_from
decimal n = digits_from 20 n []
