-- ===== src/Resources/Digits.antt =====
-- resources.go: `ParseUint` reads a number back from its decimal digits.
use potluck.Prelude.{
  ℕ, zero, suc, ◌+◌, ◌-◌, ◌*◌, ◌/◌, ◌%◌, ◌^◌, ◌<◌, ◌≤◌, ◌≡◌, refl, ap, ltb→lt, inl, inr, ◌∙◌, false,
  [], ◌∷◌, length, All, All_map, Text, ltb, ◌==◌, Bool-cases, Lacks, arith,
}
use potluck.Prelude.Decimal.{digits_from, decimal}
use potluck.Resources.{max_u64, parse_digits, parse_uint, is_space}
use potluck.Resources.Numbers.{IsSolid}

digit-step :
    (a d : ℕ) (rest : Text)
    → d < 10
    → a * 10 + d ≤ max_u64
    → parse_digits a ((b'0' + d) ∷ rest) ≡ parse_digits (a * 10 + d) rest
unfolding parse_digits
digit-step a d rest digit small =
    let same : b'0' + d - b'0' ≡ d = omega arith in rw same (ground arith)

parse_digits-from :
    (fuel n : ℕ) (rest : Text)
    → n < 10 ^ fuel
    → n ≤ max_u64
    → parse_digits 0 (digits_from fuel n rest) ≡ parse_digits n rest
unfolding digits_from
parse_digits-from zero n rest enough small =
    let none_left : n ≡ 0 = omega arith in rw none_left refl
parse_digits-from (suc fuel) n rest enough small = elim (Bool-cases (ltb n 10)) [
  | inl last ↦
      rw (last, digits_from)
        (digit-step 0 n rest (ltb→lt n 10 last) (omega arith)
          ∙ ap (λ m. parse_digits m rest) (let whole : 0 * 10 + n ≡ n = omega arith in whole))
  | inr more ↦
      let joined : n / 10 * 10 + n % 10 ≡ n = omega arith in
      rw (more, digits_from)
        (parse_digits-from fuel (n / 10) ((b'0' + n % 10) ∷ rest) (omega arith) (omega arith)
          ∙ digit-step (n / 10) (n % 10) rest (omega arith) (omega arith)
          ∙ ap (λ m. parse_digits m rest) joined)
]

-- A number of a uint64 is read back.
pub parse_uint-decimal : (n : ℕ) → n < 2 ^ 64 → parse_uint (decimal n) ≡ n
unfolding parse_uint decimal parse_digits
parse_uint-decimal n small = parse_digits-from 20 n [] (omega arith) (omega arith)

-- Decimal digits are neither spaces nor separators.
abbrev IsDigit : ℕ → Type 0
IsDigit b = (b'0' ≤ b) × (b ≤ b'9')

digits_from-All :
    (fuel n : ℕ) (rest : Text) → All IsDigit rest → All IsDigit (digits_from fuel n rest)
unfolding digits_from
digits_from-All zero n rest h = h
digits_from-All (suc fuel) n rest h = elim (Bool-cases (ltb n 10)) [
  | inl last ↦
      rw (last, digits_from) (let digit = ltb→lt n 10 last in ((omega arith, omega arith), h))
  | inr more ↦
      rw (more, digits_from)
        (digits_from-All fuel (n / 10) ((b'0' + n % 10) ∷ rest) ((omega arith, omega arith), h))
]

decimal-All : (n : ℕ) → All IsDigit (decimal n)
unfolding decimal
decimal-All n = digits_from-All 20 n [] tt

pub decimal-IsSolid : (n : ℕ) → IsSolid (decimal n)
decimal-IsSolid n =
    All_map IsDigit (λ b. is_space b ≡ false) (decimal n) (λ b d. ground (arith, d.0, d.1))
      (decimal-All n)

pub decimal-Lacks : (c n : ℕ) → c < b'0' → Lacks c (decimal n)
decimal-Lacks c n below =
    All_map IsDigit (λ b. (b == c) ≡ false) (decimal n) (λ b d. ground (arith, d.0)) (decimal-All n)

length-digits_from : (fuel n : ℕ) (rest : Text) → length rest ≤ length (digits_from fuel n rest)
unfolding digits_from
length-digits_from zero n rest = omega arith
length-digits_from (suc fuel) n rest = elim (Bool-cases (ltb n 10)) [
  | inl last ↦ rw (last, digits_from) (omega arith)
  | inr more ↦
      rw (more, digits_from)
        (omega (arith, length-digits_from fuel (n / 10) ((b'0' + n % 10) ∷ rest)))
]

pub decimal-some : (n : ℕ) → (length (decimal n) == 0) ≡ false
unfolding decimal
decimal-some n = elim (Bool-cases (ltb n 10)) [
  | inl last ↦ rw (last, digits_from) refl
  | inr more ↦
      rw (more, digits_from) (ground (arith, length-digits_from 19 (n / 10) ((b'0' + n % 10) ∷ [])))
]
