-- ===== src/Prelude/Float64.antt =====
-- IEEE 754 double precision, as far as memory planning uses it: non-negative integers rounded to
-- 53 significant bits. A product with the double `c / 2 ^ k` is an integer over `2 ^ k`.
use Prim.Native.Nat.{ℕ, zero, suc, ◌+◌, ◌-◌, ◌*◌, ◌/◌, ◌%◌, ◌^◌}
use mathlib.Core.Bool.{true, false}
use potluck.Prelude.Tests.{ltb, ◌==◌, if◌then◌else◌}

-- The number of binary digits, for numbers below `2 ^ fuel`.
unfoldable pub bit_length : ℕ → ℕ → ℕ
bit_length zero n = 0
bit_length (suc fuel) n = elim (n == 0) [ true ↦ 0 | false ↦ suc (bit_length fuel (n / 2)) ]

-- `n / 2 ^ s`, to the nearest integer, ties to even.
unfoldable pub round_half_even : ℕ → ℕ → ℕ
round_half_even n s =
    let q = n / 2 ^ s in
    let r = 2 * (n % 2 ^ s) in
    if ltb r (2 ^ s) then q else if ltb (2 ^ s) r then q + 1 else q + q % 2

-- The double nearest to `n`. 128 bits hold a product of a uint64 and a 53-bit significand.
unfoldable pub round_float64 : ℕ → ℕ
unfolding bit_length round_half_even
round_float64 n = let s = bit_length 128 n - 53 in round_half_even n s * 2 ^ s
