-- ===== src/Split/Memory.antt =====
-- What `Need` and `Usable` compute for sizes below a pebibyte.
use potluck.Prelude.{
  ℕ, zero, suc, ◌+◌, ◌-◌, ◌*◌, ◌/◌, ◌^◌, ◌≤◌, ◌<◌, ◌≡◌, refl, sym, ap, ◌∙◌, arith,
}
use native.Mathlib.Nat.{
  pow-suc, mul_assoc, div-add-mod, add-suc, le-div_iff_mul-le, le_trans, mul-le-mul_right,
  pow-le-pow_right,
}
use potluck.Prelude.Float64.{bit_length, round_half_even, round_float64}
use potluck.Split.{need, usable}

usable_test : usable 17179869184 ≡ 13743895347
unfolding usable
usable_test = refl

need_test : need 40000000000 ≡ 50000000000
unfolding need
need_test = refl

bit_length-le : (k fuel n : ℕ) → n < 2 ^ k → bit_length fuel n ≤ k
unfolding bit_length
bit_length-le k zero n h = omega arith
bit_length-le zero (suc fuel) n h = ground arith
bit_length-le (suc k) (suc fuel) n h =
    ground (arith, bit_length-le k fuel (n / 2) (omega (arith, pow-suc 2 k)))

two_pow_pos : (s : ℕ) → 0 < 2 ^ s
two_pow_pos zero = omega arith
two_pow_pos (suc s) = omega (arith, pow-suc 2 s, two_pow_pos s)

two_pow-add : (d s : ℕ) → 2 ^ (d + s) ≡ 2 ^ d * 2 ^ s
two_pow-add d zero = ground arith
two_pow-add d (suc s) =
    rw (add-suc d s) (grind (arith, pow-suc 2 (d + s), pow-suc 2 s, two_pow-add d s))

whole_lem : (f s : ℕ) → s ≤ 50 → f * 2 ^ (53 - s) * 2 ^ s ≡ f * 2 ^ 53
whole_lem f s few =
    mul_assoc f (2 ^ (53 - s)) (2 ^ s)
    ∙ ap (λ (k : ℕ). f * k)
        (sym (two_pow-add (53 - s) s)
          ∙ ap (λ (k : ℕ). 2 ^ k) (let e : 53 - s + s ≡ 53 = omega arith in e))

-- A rounded quotient lies above the truncated one, and within half a unit of the exact one.
round_half_even-near :
    (n s : ℕ)
    → (n / 2 ^ s ≤ round_half_even n s) × (2 * (round_half_even n s * 2 ^ s) ≤ 2 * n + 2 ^ s)
unfolding round_half_even
round_half_even-near n s = grind (arith, div-add-mod, two_pow_pos s)

-- A double holds every integer below 2 ^ 53.
round_float64_exact : (n : ℕ) → n < 2 ^ 53 → round_float64 n ≡ n
unfolding round_float64
round_float64_exact n h =
    let few : bit_length 128 n - 53 ≡ 0 = omega (arith, bit_length-le 53 128 n h) in
    rw few (ground arith)

-- A multiple of 2 ^ 53 below a number of at most 103 digits stays below it when that is rounded.
round_float64-near :
    (n f : ℕ)
    → n < 2 ^ 103
    → f * 2 ^ 53 ≤ n
    → (f * 2 ^ 53 ≤ round_float64 n) × (2 * round_float64 n ≤ 2 * n + 2 ^ 50)
unfolding round_float64
round_float64-near n f h le =
    near (bit_length 128 n - 53) (omega (arith, bit_length-le 103 128 n h))
  where
    near :
        (s : ℕ)
        → s ≤ 50
        → (f * 2 ^ 53 ≤ round_half_even n s * 2 ^ s)
          × (2 * (round_half_even n s * 2 ^ s) ≤ 2 * n + 2 ^ 50)
    near s few =
        let whole : f * 2 ^ (53 - s) * 2 ^ s ≡ f * 2 ^ 53 = whole_lem f s few in
        let below : f * 2 ^ (53 - s) ≤ n / 2 ^ s =
          (le-div_iff_mul-le (two_pow_pos s)).1 (rw whole le) in
        (
          rw (← whole) (mul-le-mul_right (2 ^ s) (le_trans below (round_half_even-near n s).0)),
          omega (arith, (round_half_even-near n s).1, pow-le-pow_right {n = 2} (omega arith) few),
        )

need_exact : (size : ℕ) → size < 2 ^ 50 → need size ≡ size * 5 / 4
unfolding need
need_exact size h =
    rw (round_float64_exact size (omega arith), round_float64_exact (size * 5) (omega arith))

-- 0.8 is not a double.
usable_exact : (mem : ℕ) → mem < 2 ^ 50 → usable mem ≡ mem * 4 / 5
unfolding usable
usable_exact mem h = rw (round_float64_exact mem (omega arith)) (
    omega (
      arith,
      round_float64-near (mem * 7205759403792794) (mem * 4 / 5) (omega arith) (omega arith),
    ))

-- Below a pebibyte `Need` is the size plus a quarter and `Usable` is four fifths of the memory, both
-- rounded down, in spite of their arithmetic on doubles.
pub estimates_exact :
    (size mem : ℕ)
    → size < 2 ^ 50
    → mem < 2 ^ 50
    → (need size ≡ size * 5 / 4) × (usable mem ≡ mem * 4 / 5)
estimates_exact size mem h k = (need_exact size h, usable_exact mem k)
