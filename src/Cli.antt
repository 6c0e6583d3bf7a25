-- ===== src/Cli.antt =====
-- cmd/potluck/main.go: how `potluck status` prints an amount of memory, and its table.
pub mod Amounts
pub mod Status
mod Tests
use potluck.Prelude.{
  ℕ, zero, suc, ◌+◌, ◌*◌, ◌/◌, ◌%◌, ◌^◌, List, [], ◌∷◌, Text, bytes, Option, none, some, ltb,
  get_elem?, if◌then◌else◌,
}

-- "%d B", or "%.1f %cB" of `n / div` and a letter, or the panic of an index out of range.
pub data Printed : Type 0 where
  plain : (n : ℕ) → Printed
  scaled : (n div letter : ℕ) → Printed
  index_panic : Printed

-- The loop over `v`, `div` and `exp`; `none` if the fuel runs out.
unfoldable pub scale : ℕ → ℕ → ℕ → ℕ → Option (ℕ × ℕ)
scale zero v div exp = none
scale (suc fuel) v div exp =
    let rest = scale fuel (v / 1024) (div * 1024 % 2 ^ 64) (exp + 1) in
    if ltb v 1024 then some (div, exp) else rest

-- `"KMGTP"[exp]`
unfoldable pub with_letter : ℕ → Option (ℕ × ℕ) → Option Printed
with_letter n none = none
with_letter n (some (div, exp)) = elim (get_elem? (bytes "KMGTP") exp) [
  | none ↦ some index_panic
  | some letter ↦ some (scaled n div letter)
]

-- Seven rounds are enough for a uint64.
unfoldable pub fmt_bytes : ℕ → Option Printed
unfolding scale with_letter
fmt_bytes n = if ltb n 1024 then some (plain n) else with_letter n (scale 7 (n / 1024) 1024 0)
