-- ===== src/Prelude/Lists.antt =====
-- Lists: native lengths, loops that keep the elements passing a test, and quantifiers over them.
use Prim.Native.Nat.{ℕ, zero, suc, ◌≤◌}
use mathlib.Core.Path.{ap, ◌≡◌, refl, sym, subst}
use mathlib.Core.Logic.{◌↔◌, inl, inr}
use mathlib.Core.Logic.Or
use mathlib.Core.Bool.{Bool, true, false, ◌||◌, Bool-set}
use mathlib.Core.Option.{Option, none, some}
use mathlib.Core.HLevel.{×_prop}
use mathlib.Core.List.{
  List, [], ◌∷◌, ◌++◌, map, Mem, Mem-prop, mem-cons, mem-cons_self, mem-cons_of_mem, not-mem-nil,
}
use native.Mathlib.Omega.{arith}
use potluck.Prelude.Tests.{if◌then◌else◌, Bool-cases}

module _ {ℓ} {A : Type ℓ} where
  abbrev pub length : List A → ℕ
  length [] = 0
  length (x ∷ xs) = suc (length xs)

  abbrev pub take : ℕ → List A → List A
  take zero xs = []
  take (suc n) [] = []
  take (suc n) (x ∷ xs) = x ∷ take n xs

  abbrev pub reverse_aux : List A → List A → List A
  reverse_aux [] ys = ys
  reverse_aux (x ∷ xs) ys = reverse_aux xs (x ∷ ys)

  abbrev pub reverse : List A → List A
  reverse xs = reverse_aux xs []

  abbrev pub get_elem? : List A → ℕ → Option A
  get_elem? [] i = none
  get_elem? (x ∷ xs) zero = some x
  get_elem? (x ∷ xs) (suc i) = get_elem? xs i

  pub length-take-le : (n : ℕ) (xs : List A) → length (take n xs) ≤ n
  length-take-le zero xs = omega arith
  length-take-le (suc n) [] = omega arith
  length-take-le (suc n) (x ∷ xs) = omega (arith, length-take-le n xs)

  pub take_of_length-le : (n : ℕ) (xs : List A) → length xs ≤ n → take n xs ≡ xs
  take_of_length-le zero [] h = refl
  take_of_length-le zero (x ∷ xs) h = absurd (omega arith)
  take_of_length-le (suc n) [] h = refl
  take_of_length-le (suc n) (x ∷ xs) h = rw (take_of_length-le n xs (omega arith))

  -- `for _, x := range xs { if p(x) { out = append(out, x) } }`
  abbrev pub filter : (A → Bool) → List A → List A
  filter p [] = []
  filter p (x ∷ xs) = if p x then x ∷ filter p xs else filter p xs

  -- `for _, x := range xs { if p(x) { return true } }; return false`
  abbrev pub any : (A → Bool) → List A → Bool
  any p [] = false
  any p (x ∷ xs) = p x || any p xs

  -- Every element satisfies `P`: by recursion, so that it computes to a tuple.
  abbrev pub All {κ} : (A → Type κ) → List A → Type κ
  All P [] = Unit
  All P (x ∷ xs) = P x × All P xs

  pub All_of_mem {κ} : (P : A → Type κ) (xs : List A) → ((x : A) → Mem x xs → P x) → All P xs
  All_of_mem P [] h = tt
  All_of_mem P (x ∷ xs) h = (h x mem-cons_self, All_of_mem P xs (λ y m. h y (mem-cons_of_mem x m)))

  pub All-mem {κ} :
      (P : A → Type κ) (xs : List A) (x : A) → ((y : A) → IsProp (P y)) → All P xs → Mem x xs → P x
  All-mem P [] x prop h m = absurd (not-mem-nil m)
  All-mem P (y ∷ ys) x prop h m =
      Or.elim (prop x) (mem-cons.0 m) (λ e. subst P (sym e) h.0) (All-mem P ys x prop h.1)

  pub All_map {κ μ} :
      (P : A → Type κ) (Q : A → Type μ) (xs : List A) → ((x : A) → P x → Q x) → All P xs → All Q xs
  All_map P Q [] f h = tt
  All_map P Q (x ∷ xs) f h = (f x h.0, All_map P Q xs f h.1)

  mem-filter_cons :
      (p : A → Bool) (x y : A) (xs : List A)
      → (Mem x (filter p xs) ↔ (Mem x xs × (p x ≡ true)))
      → Mem x (filter p (y ∷ xs)) ↔ (Mem x (y ∷ xs) × (p x ≡ true))
  mem-filter_cons p x y xs ih = elim (Bool-cases (p y)) [
    | inl kept ↦ rw kept (
      λ m.
          Or.elim (×_prop Mem-prop (Bool-set _ _)) (mem-cons.0 m)
            (λ e. (mem-cons.1 (Or.inl e), subst (λ z. p z ≡ true) (sym e) kept))
            (λ t. (mem-cons_of_mem y (ih.0 t).0, (ih.0 t).1)),
      λ (m, passes).
          Or.elim Mem-prop (mem-cons.0 m) (λ e. mem-cons.1 (Or.inl e))
            (λ t. mem-cons_of_mem y (ih.1 (t, passes))),
    )
    | inr dropped ↦ rw dropped (
      λ m. (mem-cons_of_mem y (ih.0 m).0, (ih.0 m).1),
      λ (m, passes).
          Or.elim Mem-prop (mem-cons.0 m)
            (λ e. absurd (ground (arith, subst (λ z. p z ≡ true) e passes)))
            (λ t. ih.1 (t, passes)),
    )
  ]

  pub mem-filter :
      (p : A → Bool) (x : A) (xs : List A) → Mem x (filter p xs) ↔ (Mem x xs × (p x ≡ true))
  mem-filter p x [] = (λ m. absurd (not-mem-nil m), λ (m, _). m)
  mem-filter p x (y ∷ xs) = mem-filter_cons p x y xs (mem-filter p x xs)

  pub filter-All : (p : A → Bool) (xs : List A) → All (λ x. p x ≡ true) (filter p xs)
  filter-All p xs = All_of_mem _ (filter p xs) (λ x m. ((mem-filter p x xs).0 m).1)

  pub any_of_mem : (p : A → Bool) (xs : List A) (x : A) → Mem x xs → p x ≡ true → any p xs ≡ true
  any_of_mem p [] x m h = absurd (not-mem-nil m)
  any_of_mem p (y ∷ xs) x m h =
      Or.elim (Bool-set _ _) (mem-cons.0 m) (λ e. ground (arith, subst (λ z. p z ≡ true) e h))
        (λ t. ground (arith, any_of_mem p xs x t h))

  pub mem_of_any :
      (p : A → Bool) (xs : List A) → any p xs ≡ true → (x : A) × Mem x xs × (p x ≡ true)
  mem_of_any p [] h = absurd (ground arith)
  mem_of_any p (y ∷ xs) h = elim (Bool-cases (p y)) [
    | inl hit ↦ (y, mem-cons_self, hit)
    | inr miss ↦ let (x, m, e) = mem_of_any p xs (rw miss at h) in (x, mem-cons_of_mem y m, e)
  ]

  pub All-append {κ} : (P : A → Type κ) (xs ys : List A) → All P xs → All P ys → All P (xs ++ ys)
  All-append P [] ys hx hy = hy
  All-append P (x ∷ xs) ys hx hy = (hx.0, All-append P xs ys hx.1 hy)

  pub All-filter {κ} :
      (P : A → Type κ) (p : A → Bool) (xs : List A) → All P xs → All P (filter p xs)
  All-filter P p [] h = tt
  All-filter P p (x ∷ xs) h = elim (Bool-cases (p x)) [
    | inl kept ↦ rw kept (h.0, All-filter P p xs h.1)
    | inr dropped ↦ rw dropped (All-filter P p xs h.1)
  ]

  -- What the filter keeps has passed its test besides.
  pub All-filter_passes {κ μ} :
      (P : A → Type κ) (Q : A → Type μ) (p : A → Bool) (xs : List A)
      → ((x : A) → P x → p x ≡ true → Q x)
      → All P xs
      → All Q (filter p xs)
  All-filter_passes P Q p [] f h = tt
  All-filter_passes P Q p (x ∷ xs) f h = elim (Bool-cases (p x)) [
    | inl kept ↦ rw kept (f x h.0 kept, All-filter_passes P Q p xs f h.1)
    | inr dropped ↦ rw dropped (All-filter_passes P Q p xs f h.1)
  ]

pub All-map {ℓ μ κ} :
    {A : Type ℓ} {B : Type μ} (P : B → Type κ) (f : A → B) (xs : List A)
    → All (λ x. P (f x)) xs
    → All P (map f xs)
All-map P f [] h = tt
All-map P f (x ∷ xs) h = (h.0, All-map P f xs h.1)

pub append_assoc {ℓ} : {A : Type ℓ} (xs ys zs : List A) → (xs ++ ys) ++ zs ≡ xs ++ (ys ++ zs)
append_assoc [] ys zs = refl
append_assoc (x ∷ xs) ys zs = ap (◌∷◌ x) (append_assoc xs ys zs)

pub append_nil {ℓ} : {A : Type ℓ} (xs : List A) → xs ++ [] ≡ xs
append_nil [] = refl
append_nil (x ∷ xs) = ap (◌∷◌ x) (append_nil xs)
