-- ===== src/Prelude/Texts.antt =====
-- Go strings are byte sequences: lists of numbers, compared and ordered byte by byte.
use Prim.Native.Nat.{ℕ}
use Prim.Native.Char.{code}
use Prim.Native.String.{String}
use mathlib.Core.Path.{◌≡◌, refl}
use mathlib.Core.Logic.{◌↔◌, ◌≢◌}
use mathlib.Core.Option.{Option, none, some}
use mathlib.Core.Bool.{Bool, true, false, ◌&&◌, ◌||◌}
use mathlib.Core.List.{List, [], ◌∷◌, ◌++◌}
use native.Mathlib.Omega.{arith}
use potluck.Prelude.Tests.{ltb, ◌==◌, ==_iff, if◌then◌else◌}
use potluck.Prelude.Lists.{All, any}

abbrev pub Text : Type 0
Text = List ℕ

-- The bytes of an ASCII literal.
abbrev pub bytes : String → Text
bytes String.[] = []
bytes (String.◌∷◌ c s) = code c ∷ bytes s

unfoldable pub text_eq : Text → Text → Bool
text_eq [] [] = true
text_eq [] (b ∷ t) = false
text_eq (a ∷ s) [] = false
text_eq (a ∷ s) (b ∷ t) = a == b && text_eq s t

-- `s < t` on Go strings.
unfoldable pub text_lt : Text → Text → Bool
text_lt s [] = false
text_lt [] (b ∷ t) = true
text_lt (a ∷ s) (b ∷ t) = ltb a b || a == b && text_lt s t

-- `strings.Join` with a comma.
unfoldable pub join : List Text → Text
join [] = []
join (w ∷ []) = w
join (w ∷ v ∷ ws) = w ++ b',' ∷ join (v ∷ ws)

-- `strings.HasPrefix`, and `strings.TrimPrefix`.
unfoldable pub has_prefix : Text → Text → Bool
has_prefix s [] = true
has_prefix [] (b ∷ p) = false
has_prefix (a ∷ s) (b ∷ p) = a == b && has_prefix s p

unfoldable pub strip_prefix? : Text → Text → Option Text
strip_prefix? s [] = some s
strip_prefix? [] (b ∷ p) = none
strip_prefix? (a ∷ s) (b ∷ p) = if a == b then strip_prefix? s p else none

strip_prefix?-append : (p s : Text) → strip_prefix? (p ++ s) p ≡ some s
unfolding strip_prefix?
strip_prefix?-append [] [] = refl
strip_prefix?-append [] (b ∷ s) = refl
strip_prefix?-append (b ∷ p) s = rw ((==_iff b b).1 refl, strip_prefix?-append p s)

unfoldable pub trim_prefix : Text → Text → Text
unfolding strip_prefix?
trim_prefix s p = elim (strip_prefix? s p) [ none ↦ s | some rest ↦ rest ]

pub trim_prefix-append : (p s : Text) → trim_prefix (p ++ s) p ≡ s
unfolding trim_prefix
trim_prefix-append p s = rw (strip_prefix?-append p s, trim_prefix)

-- The first part and the others.
unfoldable pub split_parts : ℕ → Text → Text × List Text
split_parts c [] = ([], [])
split_parts c (b ∷ s) =
    let (part, parts) = split_parts c s in if b == c then ([], part ∷ parts) else (b ∷ part, parts)

-- `strings.Split` by one byte.
unfoldable pub split_on : ℕ → Text → List Text
unfolding split_parts
split_on c s = let (part, parts) = split_parts c s in part ∷ parts

-- The byte `c` does not occur.
abbrev pub Lacks : ℕ → Text → Type 0
Lacks c = All (λ b. (b == c) ≡ false)

pub lacks : (c : ℕ) (s : Text) → any (λ b. b == c) s ≡ false → Lacks c s
lacks c [] h = tt
lacks c (b ∷ s) h = (ground arith, lacks c s (ground arith))

split_parts-whole : (c : ℕ) (s : Text) → Lacks c s → split_parts c s ≡ (s, [])
unfolding split_parts
split_parts-whole c [] h = refl
split_parts-whole c (b ∷ s) h = rw (h.0, split_parts-whole c s h.1)

split_parts-append :
    (c : ℕ) (s t : Text) → Lacks c s → split_parts c (s ++ c ∷ t) ≡ (s, split_on c t)
unfolding split_parts split_on
split_parts-append c [] t h = rw ((==_iff c c).1 refl)
split_parts-append c (b ∷ s) t h = rw (h.0, split_parts-append c s t h.1)

pub split_on-whole : (c : ℕ) (s : Text) → Lacks c s → split_on c s ≡ s ∷ []
unfolding split_on
split_on-whole c s h = rw (split_parts-whole c s h)

pub split_on-append : (c : ℕ) (s t : Text) → Lacks c s → split_on c (s ++ c ∷ t) ≡ s ∷ split_on c t
unfolding split_on
split_on-append c s t h = rw (split_parts-append c s t h)

pub text_eq_iff : (s t : Text) → (text_eq s t ≡ true) ↔ (s ≡ t)
unfolding text_eq
text_eq_iff [] [] = (λ _. refl, λ _. refl)
text_eq_iff [] (b ∷ t) = (λ e. cc, λ e. cc)
text_eq_iff (a ∷ s) [] = (λ e. cc, λ e. cc)
text_eq_iff (a ∷ s) (b ∷ t) =
    (λ e. ground (arith, text_eq_iff s t), λ e. ground (arith, text_eq_iff s t))

pub text_eq_refl : (s : Text) → text_eq s s ≡ true
text_eq_refl s = (text_eq_iff s s).1 refl

pub ne_of_text_eq : (s t : Text) → text_eq s t ≡ false → s ≢ t
ne_of_text_eq s t h e = ground (arith, text_eq_iff s t)

pub text_eq_of_ne : (s t : Text) → s ≢ t → text_eq s t ≡ false
text_eq_of_ne s t h = ground (arith, text_eq_iff s t)

pub text_lt_asymmetric : (s t : Text) → text_lt s t ≡ true → text_lt t s ≡ false
unfolding text_lt
text_lt_asymmetric s [] h = ground arith
text_lt_asymmetric [] (b ∷ t) h = refl
text_lt_asymmetric (a ∷ s) (b ∷ t) h = ground (arith, text_lt_asymmetric s t)

pub text_lt_transitive :
    (s t u : Text) → text_lt t s ≡ false → text_lt u t ≡ false → text_lt u s ≡ false
unfolding text_lt
text_lt_transitive [] t u h k = refl
text_lt_transitive (a ∷ s) [] u h k = ground arith
text_lt_transitive (a ∷ s) (b ∷ t) [] h k = ground arith
text_lt_transitive (a ∷ s) (b ∷ t) (c ∷ u) h k = ground (arith, text_lt_transitive s t u)

-- Texts neither of which is less than the other are equal.
pub text_lt_total : (s t : Text) → text_lt s t ≡ false → text_lt t s ≡ false → s ≡ t
unfolding text_lt
text_lt_total [] [] h k = refl
text_lt_total [] (b ∷ t) h k = cc
text_lt_total (a ∷ s) [] h k = cc
text_lt_total (a ∷ s) (b ∷ t) h k = ground (arith, text_lt_total s t)
