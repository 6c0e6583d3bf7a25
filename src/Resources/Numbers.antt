-- ===== src/Resources/Numbers.antt =====
-- resources.go: what trimming and parsing make of text that was printed.
use potluck.Prelude.{
  ℕ, ◌≤◌, ◌≢◌, refl, ap, inl, inr, length, ◌==◌, Bool-cases, arith, ◌≡◌, false, [], ◌∷◌, ◌++◌, All,
  Text,
}
use mathlib.Core.List.{append-nil}
use potluck.Prelude.{subst}
use potluck.Resources.{is_space, trim_left, trim_right, trim_space}

-- No byte is a space.
abbrev pub IsSolid : Text → Type 0
IsSolid = All (λ b. is_space b ≡ false)

pub trim_right-solid :
    (s rest : Text) → IsSolid s → trim_right rest ≡ [] → trim_right (s ++ rest) ≡ s
unfolding trim_right
trim_right-solid [] rest h e = e
trim_right-solid (b ∷ s) rest h e = rw (trim_right-solid s rest h.1 e, h.0)

-- Spaces behind a text without spaces are trimmed.
pub trim_space-append :
    (s rest : Text)
    → IsSolid s
    → trim_space rest ≡ []
    → trim_right rest ≡ []
    → trim_space (s ++ rest) ≡ s
unfolding trim_space trim_left
trim_space-append [] rest h e f = e
trim_space-append (b ∷ s) rest h e f = rw h.0 (trim_right-solid (b ∷ s) rest h f)

pub trim_space-solid : (s : Text) → IsSolid s → trim_space s ≡ s
unfolding trim_space trim_left trim_right
trim_space-solid s h =
    subst (λ t. trim_space t ≡ s) (append-nil s) (trim_space-append s [] h refl refl)

length-trim_left : (s : Text) → length (trim_left s) ≤ length s
unfolding trim_left
length-trim_left [] = omega arith
length-trim_left (b ∷ s) = ground (arith, length-trim_left s)

length-trim_right : (s : Text) → length (trim_right s) ≤ length s
unfolding trim_right
length-trim_right [] = omega arith
length-trim_right (b ∷ s) = ground (arith, length-trim_right s)

-- A text that trimming leaves as it is begins with no space.
trimmed_head : (b : ℕ) (s : Text) → trim_space (b ∷ s) ≡ b ∷ s → is_space b ≡ false
unfolding trim_space trim_left
trimmed_head b s e = elim (Bool-cases (is_space b)) [
  | inr solid ↦ solid
  | inl space ↦
      let shorter : trim_right (trim_left s) ≡ b ∷ s = rw space at e in
      absurd (omega (arith, ap length shorter, length-trim_right (trim_left s), length-trim_left s))
]

pub trim_left-append :
    (s rest : Text) → s ≢ [] → trim_space s ≡ s → trim_left (s ++ rest) ≡ s ++ rest
unfolding trim_left
trim_left-append [] rest some_text e = absurd (some_text refl)
trim_left-append (b ∷ s) rest some_text e = rw (trimmed_head b s e) refl

pub length-append_right : (s t : Text) → (length t == 0) ≡ false → (length (s ++ t) == 0) ≡ false
length-append_right [] t h = h
length-append_right (b ∷ s) t h = ground arith

-- What stands before a text that trims to something stays.
pub trim_right-append :
    (s t t' : Text) → trim_right t ≡ t' → (length t' == 0) ≡ false → trim_right (s ++ t) ≡ s ++ t'
unfolding trim_right
trim_right-append [] t t' e some_text = e
trim_right-append (b ∷ s) t t' e some_text =
    rw (trim_right-append s t t' e some_text) (ground (arith, length-append_right s t' some_text))
