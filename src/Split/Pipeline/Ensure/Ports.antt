-- ===== src/Split/Pipeline/Ensure/Ports.antt =====
-- pipeline.go: `freePort` finds the first free port at or above its base, if there is one.
use potluck.Prelude.{
  ℕ, zero, suc, ◌+◌, ◌≤◌, ◌<◌, ◌≡◌, inl, inr, Bool, true, false, Option, none, some, Bool-cases,
  arith, ◌==◌,
}
use potluck.Split.Pipeline.Ensure.{first_free, free_port}

-- The first of `rounds` ports from `base` on that is not busy, or none if all are.
abbrev pub IsFirstFree : (ℕ → Bool) → ℕ → ℕ → Option ℕ → Type 0
IsFirstFree busy rounds base none = (q : ℕ) → base ≤ q → q < base + rounds → busy q ≡ true
IsFirstFree busy rounds base (some p) =
    (base ≤ p)
    × (p < base + rounds)
    × (busy p ≡ false)
    × ((q : ℕ) → base ≤ q → q < p → busy q ≡ true)

busy_from :
    (busy : ℕ → Bool) (base q bound : ℕ)
    → busy base ≡ true
    → ((k : ℕ) → base + 1 ≤ k → k < bound → busy k ≡ true)
    → base ≤ q
    → q < bound
    → busy q ≡ true
busy_from busy base q bound here above from below = elim (Bool-cases (q == base)) [
  | inl same ↦ let e : q ≡ base = ground arith in rw e here
  | inr other ↦ above q (ground arith) below
]

IsFirstFree-suc :
    (busy : ℕ → Bool) (rounds base : ℕ) (o : Option ℕ)
    → busy base ≡ true
    → IsFirstFree busy rounds (base + 1) o
    → IsFirstFree busy (suc rounds) base o
IsFirstFree-suc busy rounds base none here h =
    λ q from below. busy_from busy base q (base + 1 + rounds) here h from (omega arith)
IsFirstFree-suc busy rounds base (some p) here (from, below, free, ahead) =
    (omega arith, omega arith, free, λ q f b. busy_from busy base q p here ahead f b)

first_free-IsFirstFree :
    (busy : ℕ → Bool) (rounds base : ℕ) → IsFirstFree busy rounds base (first_free busy rounds base)
unfolding first_free
first_free-IsFirstFree busy zero base = λ q from below. absurd (omega arith)
first_free-IsFirstFree busy (suc rounds) base = elim (Bool-cases (busy base)) [
  | inl taken ↦
      rw taken
        (IsFirstFree-suc busy rounds base _ taken (first_free-IsFirstFree busy rounds (base + 1)))
  | inr free ↦ rw free (omega arith, omega arith, free, λ q from below. absurd (omega arith))
]

-- `freePort` returns the lowest of the hundred ports from its base on that is not busy, and fails
-- only if all of them are busy.
pub free_port_lem : (busy : ℕ → Bool) (base : ℕ) → IsFirstFree busy 100 base (free_port busy base)
unfolding free_port
free_port_lem busy base = first_free-IsFirstFree busy 100 base
