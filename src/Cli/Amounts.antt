-- ===== src/Cli/Amounts.antt =====
-- main.go: which amounts `fmtBytes` prints, and which crash it.
use native.Mathlib.Decide.{dec_lt}
use potluck.Prelude.{
  ℕ, ◌+◌, ◌^◌, ◌≤◌, ◌<◌, ◌≡◌, refl, inl, inr, ◌⊎◌, bytes, Option, some, arith, get_elem?, lt→ltb,
}
use potluck.Cli.{Printed, plain, scaled, index_panic, fmt_bytes}

-- Printed with the unit that leaves less than 1024 of it.
pub record IsScaled (n : ℕ) (o : Option Printed) : Type 0 where
  pub exp : ℕ
  pub letter : ℕ
  pub is_unit : get_elem? (bytes "KMGTP") exp ≡ some letter
  pub printed : o ≡ some (scaled n (1024 ^ (exp + 1)) letter)
  pub at_least_one : 1024 ^ (exp + 1) ≤ n
  pub below_next : n < 1024 ^ (exp + 2)

print_kibi : (n : ℕ) → 2 ^ 10 ≤ n → n < 2 ^ 20 → IsScaled n (fmt_bytes n)
unfolding fmt_bytes
print_kibi n from below = record {
  exp = 0;
  letter = b'K';
  is_unit = refl;
  printed = ground arith;
  at_least_one = from;
  below_next = below;
}

print_mebi : (n : ℕ) → 2 ^ 20 ≤ n → n < 2 ^ 30 → IsScaled n (fmt_bytes n)
unfolding fmt_bytes
print_mebi n from below = record {
  exp = 1;
  letter = b'M';
  is_unit = refl;
  printed = ground arith;
  at_least_one = from;
  below_next = below;
}

print_gibi : (n : ℕ) → 2 ^ 30 ≤ n → n < 2 ^ 40 → IsScaled n (fmt_bytes n)
unfolding fmt_bytes
print_gibi n from below = record {
  exp = 2;
  letter = b'G';
  is_unit = refl;
  printed = ground arith;
  at_least_one = from;
  below_next = below;
}

print_tebi : (n : ℕ) → 2 ^ 40 ≤ n → n < 2 ^ 50 → IsScaled n (fmt_bytes n)
unfolding fmt_bytes
print_tebi n from below = record {
  exp = 3;
  letter = b'T';
  is_unit = refl;
  printed = ground arith;
  at_least_one = from;
  below_next = below;
}

print_pebi : (n : ℕ) → 2 ^ 50 ≤ n → n < 2 ^ 60 → IsScaled n (fmt_bytes n)
unfolding fmt_bytes
print_pebi n from below = record {
  exp = 4;
  letter = b'P';
  is_unit = refl;
  printed = ground arith;
  at_least_one = from;
  below_next = below;
}

print_exbi : (n : ℕ) → 2 ^ 60 ≤ n → n < 2 ^ 64 → fmt_bytes n ≡ some index_panic
unfolding fmt_bytes
print_exbi n from below = ground arith

print_bytes : (n : ℕ) → n < 1024 → fmt_bytes n ≡ some (plain n)
unfolding fmt_bytes
print_bytes n below = rw (lt→ltb _ _ below)

some_unit : (n : ℕ) → 1024 ≤ n → n < 2 ^ 60 → IsScaled n (fmt_bytes n)
some_unit n from below = elim (dec_lt n (2 ^ 20)) [
  | yes k ↦ print_kibi n from k
  | no k ↦ elim (dec_lt n (2 ^ 30)) [
    | yes m ↦ print_mebi n (omega arith) m
    | no m ↦ elim (dec_lt n (2 ^ 40)) [
      | yes g ↦ print_gibi n (omega arith) g
      | no g ↦ elim (dec_lt n (2 ^ 50)) [
        | yes t ↦ print_tebi n (omega arith) t
        | no t ↦ print_pebi n (omega arith) below
      ]
    ]
  ]
]

-- A uint64 below a kibibyte is printed as it is. Up to an exbibyte the unit is the largest that is
-- not above the amount. From an exbibyte on `fmtBytes` panics.
pub fmt_bytes_lem :
    (n : ℕ)
    → n < 2 ^ 64
    → ((n < 1024) × (fmt_bytes n ≡ some (plain n)))
      ⊎ (((1024 ≤ n) × (n < 2 ^ 60) × IsScaled n (fmt_bytes n))
          ⊎ ((2 ^ 60 ≤ n) × (fmt_bytes n ≡ some index_panic)))
fmt_bytes_lem n h = elim (dec_lt n 1024) [
  | yes few ↦ inl (few, print_bytes n few)
  | no many ↦ elim (dec_lt n (2 ^ 60)) [
    | yes below ↦ inr (inl (omega arith, below, some_unit n (omega arith) below))
    | no above ↦ inr (inr (omega arith, print_exbi n (omega arith) h))
  ]
]
