-- ===== src/Prelude/Sort.antt =====
-- Go's `sort` package. `insertion_sort` is what `sort.SliceStable` computes (a stable sort has one
-- result), and what `sort.Strings` computes on distinct texts.

use mathlib.Core.List.Perm
use mathlib.Core.Path.{◌≡◌, refl, ap, ◌∙◌}
use mathlib.Core.Bool.{Bool, true, false, Bool-set}
use mathlib.Core.Logic.{inl, inr}
use mathlib.Core.List.{List, [], ◌∷◌, map, Perm}
use potluck.Prelude.Tests.{if◌then◌else◌, Bool-cases}
use potluck.Prelude.Lists.{All, All_of_mem, All-mem, All_map}

-- What Go asks of a `less` function.
pub record IsLess {ℓ} {A : Type ℓ} (less : A → A → Bool) : Type ℓ where
  pub asymmetric : (a b : A) → less a b ≡ true → less b a ≡ false
  pub transitive : (a b c : A) → less b a ≡ false → less c b ≡ false → less c a ≡ false

module _ {ℓ} {A : Type ℓ} (less : A → A → Bool) where
  unfoldable pub insert : A → List A → List A
  insert x [] = x ∷ []
  insert x (y ∷ ys) = if less y x then y ∷ insert x ys else x ∷ y ∷ ys

  unfoldable pub insertion_sort : List A → List A
  unfolding insert
  insertion_sort [] = []
  insertion_sort (x ∷ xs) = insert x (insertion_sort xs)

  -- No later element is less than an earlier one.
  abbrev pub IsSorted : List A → Type 0
  IsSorted [] = Unit
  IsSorted (x ∷ xs) = All (λ y. less y x ≡ false) xs × IsSorted xs

  insert-perm : (x : A) (xs : List A) → Perm (insert x xs) (x ∷ xs)
  unfolding insert
  insert-perm x [] = Perm.rfl
  insert-perm x (y ∷ ys) = elim (Bool-cases (less y x)) [
    | inl before ↦ rw before (Perm.trans (Perm.cons y (insert-perm x ys)) (Perm.swap x y ys))
    | inr after ↦ rw after Perm.rfl
  ]

  pub insertion_sort-perm : (xs : List A) → Perm (insertion_sort xs) xs
  unfolding insertion_sort
  insertion_sort-perm [] = Perm.rfl
  insertion_sort-perm (x ∷ xs) =
      Perm.trans (insert-perm x (insertion_sort xs)) (Perm.cons x (insertion_sort-perm xs))

  All-perm :
      (y : A) {xs ys : List A}
      → Perm xs ys
      → All (λ z. less z y ≡ false) xs
      → All (λ z. less z y ≡ false) ys
  All-perm y {xs} {ys} p h = All_of_mem _ ys λ z m.
      All-mem (λ u. less u y ≡ false) xs z (λ u. Bool-set _ _) h (Perm.subset (Perm.symm p) z m)

  module _ (order : IsLess less) where
    insert-IsSorted : (x : A) (xs : List A) → IsSorted xs → IsSorted (insert x xs)
    unfolding insert
    insert-IsSorted x [] h = (tt, tt)
    insert-IsSorted x (y ∷ ys) h = elim (Bool-cases (less y x)) [
      | inl before ↦ rw before (
        All-perm y (Perm.symm (insert-perm x ys)) (order.asymmetric y x before, h.0),
        insert-IsSorted x ys h.1,
      )
      | inr after ↦
          rw after ((after, All_map _ _ ys (λ z le. order.transitive x y z after le) h.0), h)
    ]

    pub insertion_sort-IsSorted : (xs : List A) → IsSorted (insertion_sort xs)
    unfolding insertion_sort
    insertion_sort-IsSorted [] = tt
    insertion_sort-IsSorted (x ∷ xs) =
        insert-IsSorted x (insertion_sort xs) (insertion_sort-IsSorted xs)

-- To sort by a key is to sort the keys.
module _ {ℓ κ} {A : Type ℓ} {B : Type κ} (key : A → B) (less : B → B → Bool) where
  abbrev by_key : A → A → Bool
  by_key a b = less (key a) (key b)

  map-insert : (x : A) (l : List A) → map key (insert by_key x l) ≡ insert less (key x) (map key l)
  unfolding insert
  map-insert x [] = refl
  map-insert x (y ∷ ys) = elim (Bool-cases (less (key y) (key x))) [
    | inl before ↦ rw before (ap (◌∷◌ (key y)) (map-insert x ys))
    | inr after ↦ rw after refl
  ]

  pub map-insertion_sort :
      (l : List A)
      → map key (insertion_sort (λ a b. less (key a) (key b)) l) ≡ insertion_sort less (map key l)
  unfolding insertion_sort
  map-insertion_sort [] = refl
  map-insertion_sort (x ∷ xs) =
      map-insert x (insertion_sort by_key xs) ∙ ap (insert less (key x)) (map-insertion_sort xs)

-- `sort.Slice` may order equal elements as it likes: any function with these two laws.
pub record SliceSort {ℓ} (A : Type ℓ) : Type ℓ where
  pub sort : (A → A → Bool) → List A → List A
  pub sort-perm : (less : A → A → Bool) (xs : List A) → Perm (sort less xs) xs
  pub sort-IsSorted :
      (less : A → A → Bool) → IsLess less → (xs : List A) → IsSorted less (sort less xs)

-- One such function.
abbrev pub stable_slice_sort {ℓ} : {A : Type ℓ} → SliceSort A
stable_slice_sort = record {
  sort = insertion_sort;
  sort-perm = insertion_sort-perm;
  sort-IsSorted = insertion_sort-IsSorted;
}
