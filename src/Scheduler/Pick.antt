-- ===== src/Scheduler/Pick.antt =====
-- scheduler.go: `Pick` returns the best node, and fails only if no node can serve.
use mathlib.Core.List.Perm
use potluck.Prelude.{
  ℕ, ◌≡◌, refl, ap, ◌⊎◌, inl, inr, Bool, true, false, List, [], ◌∷◌, ◌++◌, filter, All, All-append,
  All_map, Text, Option, none, some, if◌then◌else◌, Bool-cases, Option-cases, arith, subst, Perm,
}
use potluck.Prelude.Results.{ok, err}
use potluck.Prelude.Sort.{IsLess, insert, insertion_sort, insertion_sort-perm}
use potluck.Registry.{NodeState}
use potluck.Scheduler.{better, serves, pick, pool_models}

-- `n` stands in the list with everything before it worse and nothing after it better.
pub record IsBest {ℓ} {A : Type ℓ} (less : A → A → Bool) (n : A) (l : List A) : Type ℓ where
  pub ahead : List A
  pub behind : List A
  pub split : l ≡ ahead ++ n ∷ behind
  pub worse : All (λ m. less n m ≡ true) ahead
  pub not_better : All (λ m. less m n ≡ false) behind

abbrev head? {ℓ} : {A : Type ℓ} → List A → Option A
head? [] = none
head? (x ∷ xs) = some x

module _ {ℓ} {A : Type ℓ} (less : A → A → Bool) (order : IsLess less) where
  head?-insert :
      (x : A) (l : List A)
      → head? (insert less x l)
        ≡ some (elim (head? l) [ none ↦ x | some y ↦ if less y x then y else x ])
  unfolding insert
  head?-insert x [] = refl
  head?-insert x (y ∷ ys) = ground arith

  All-not_less :
      (x y : A) (l : List A)
      → less y x ≡ false
      → All (λ m. less m y ≡ false) l
      → All (λ m. less m x ≡ false) l
  All-not_less x y l h = All_map _ _ l (λ m k. order.transitive x y m h k)

  All-less : (y : A) (l : List A) → All (λ m. less y m ≡ true) l → All (λ m. less m y ≡ false) l
  All-less y l = All_map _ _ l (λ m h. order.asymmetric y m h)

  IsBest-cons_worse :
      (x y : A) (l : List A) → less y x ≡ true → IsBest less y l → IsBest less y (x ∷ l)
  IsBest-cons_worse x y l h b = record {
    ahead = x ∷ b.ahead;
    behind = b.behind;
    split = ap (◌∷◌ x) b.split;
    worse = (h, b.worse);
    not_better = b.not_better;
  }

  IsBest-cons_self :
      (x y : A) (l : List A) → less y x ≡ false → IsBest less y l → IsBest less x (x ∷ l)
  IsBest-cons_self x y l h b = record {
    ahead = [];
    behind = l;
    split = refl;
    worse = tt;
    not_better = All-not_less x y l h (
        rw b.split (
          All-append _ b.ahead (y ∷ b.behind) (All-less y b.ahead b.worse)
            (not_less_self y, b.not_better)));
  }
    where
      not_less_self : (z : A) → less z z ≡ false
      not_less_self z = elim (Bool-cases (less z z)) [ inl h ↦ order.asymmetric z z h | inr h ↦ h ]

  -- The head of a stable sort is the first of the best elements.
  insertion_sort-IsBest :
      (l : List A) (n : A) → head? (insertion_sort less l) ≡ some n → IsBest less n l
  unfolding insertion_sort
  insertion_sort-IsBest [] n h = absurd (ground arith)
  insertion_sort-IsBest (x ∷ []) n h = record {
    ahead = [];
    behind = [];
    split = ground arith;
    worse = tt;
    not_better = tt;
  }
  insertion_sort-IsBest (x ∷ y ∷ ys) n h =
      let l = y ∷ ys in
      let first = head?-insert x (insertion_sort less l) in
      elim (Option-cases (head? (insertion_sort less l))) [
        | inl nothing ↦ absurd (ground (arith, head?-insert y (insertion_sort less ys)))
        | inr (z, found) ↦
            let b = insertion_sort-IsBest (y ∷ ys) z found in
            elim (Bool-cases (less z x)) [
              | inl after ↦
                  let e : z ≡ n = ground arith in
                  subst (λ k. IsBest less k (x ∷ l)) e (IsBest-cons_worse x z l after b)
              | inr before ↦
                  let e : x ≡ n = ground arith in
                  subst (λ k. IsBest less k (x ∷ l)) e (IsBest-cons_self x z l before b)
            ]
      ]

-- Where an element that passes `p` stands in the unfiltered list.
pub record IsPlaced {ℓ} {A : Type ℓ} (p : A → Bool) (P Q : A → Type 0) (n : A) (l : List A)
    : Type ℓ where
  pub ahead : List A
  pub behind : List A
  pub split : l ≡ ahead ++ n ∷ behind
  pub passes : p n ≡ true
  pub before : All (λ m. p m ≡ true → P m) ahead
  pub after : All (λ m. p m ≡ true → Q m) behind

module _ {ℓ} {A : Type ℓ} (p : A → Bool) (P Q : A → Type 0) (n : A) where
  All-of_filter : (l : List A) → All Q (filter p l) → All (λ m. p m ≡ true → Q m) l
  All-of_filter [] h = tt
  All-of_filter (x ∷ xs) h = elim (Bool-cases (p x)) [
    | inl kept ↦
        let k : All Q (x ∷ filter p xs) = rw kept at h in ((λ _. k.0), All-of_filter xs k.1)
    | inr dropped ↦ ((λ e. absurd (ground arith)), All-of_filter xs (rw dropped at h))
  ]

  IsPlaced-cons :
      (x : A) (l : List A) → (p x ≡ true → P x) → IsPlaced p P Q n l → IsPlaced p P Q n (x ∷ l)
  IsPlaced-cons x l h w = record {
    ahead = x ∷ w.ahead;
    behind = w.behind;
    split = ap (◌∷◌ x) w.split;
    passes = w.passes;
    before = (h, w.before);
    after = w.after;
  }

  IsPlaced-of_filter :
      (l ahead behind : List A)
      → filter p l ≡ ahead ++ n ∷ behind
      → All P ahead
      → All Q behind
      → IsPlaced p P Q n l
  IsPlaced-of_filter [] [] behind e hp hq = cc
  IsPlaced-of_filter [] (a ∷ ahead) behind e hp hq = cc
  IsPlaced-of_filter (x ∷ xs) [] behind e hp hq = elim (Bool-cases (p x)) [
    | inl kept ↦
        let e' : x ∷ filter p xs ≡ n ∷ behind = rw kept at e in
        let here : x ≡ n = cc in
        let rest : filter p xs ≡ behind = cc in
        record {
          ahead = [];
          behind = xs;
          split = rw here;
          passes = rw here at kept;
          before = tt;
          after = All-of_filter xs (rw rest hq);
        }
    | inr dropped ↦
        IsPlaced-cons x xs (λ k. absurd (ground arith))
          (IsPlaced-of_filter xs [] behind (rw dropped at e) hp hq)
  ]
  IsPlaced-of_filter (x ∷ xs) (a ∷ ahead) behind e hp hq = elim (Bool-cases (p x)) [
    | inl kept ↦
        let e' : x ∷ filter p xs ≡ a ∷ ahead ++ n ∷ behind = rw kept at e in
        let here : a ≡ x = cc in
        let rest : filter p xs ≡ ahead ++ n ∷ behind = cc in
        IsPlaced-cons x xs (λ _. subst P here hp.0)
          (IsPlaced-of_filter xs ahead behind rest hp.1 hq)
    | inr dropped ↦
        IsPlaced-cons x xs (λ k. absurd (ground arith))
          (IsPlaced-of_filter xs (a ∷ ahead) behind (rw dropped at e) hp hq)
  ]

better-IsLess : (model : Text) → IsLess (better model)
unfolding better
better-IsLess model = record {
  asymmetric = λ a b h. ground arith;
  transitive = λ a b c h k. ground arith;
}

-- `n` serves the model; every node ahead of it in the pool that serves is worse, and none behind
-- it is better.
abbrev pub IsPicked : ℕ → Text → List NodeState → NodeState → Type 0
IsPicked now model nodes n =
    IsPlaced (serves now model) (λ m. better model n m ≡ true) (λ m. better model m n ≡ false) n
      nodes

filter-nil {ℓ} :
    {A : Type ℓ} (p : A → Bool) (l : List A) → filter p l ≡ [] → All (λ m. p m ≡ false) l
filter-nil p [] h = tt
filter-nil p (x ∷ xs) h = elim (Bool-cases (p x)) [
  | inl kept ↦ let e : x ∷ filter p xs ≡ [] = rw kept at h in cc
  | inr dropped ↦ (dropped, filter-nil p xs (rw dropped at h))
]

nil_of_insertion_sort {ℓ} :
    {A : Type ℓ} (less : A → A → Bool) (l : List A) → insertion_sort less l ≡ [] → l ≡ []
nil_of_insertion_sort less l h =
    Perm.eq-nil (Perm.symm (subst (λ k. Perm k l) h (insertion_sort-perm less l)))

-- `Pick` returns the first of the best nodes that serve the model, by the ranking of `better`; it
-- fails only if no node serves it, and then names the model and all that the pool can serve.
pub pick_lem :
    (now : ℕ) (nodes : List NodeState) (model : Text)
    → ((n : NodeState) × (pick now nodes model ≡ ok n) × IsPicked now model nodes n)
      ⊎ ((pick now nodes model ≡ err (record { model = model; available = pool_models now nodes }))
          × All (λ n. serves now model n ≡ false) nodes)
unfolding pick
pick_lem now nodes model = decided (insertion_sort (better model) served) refl
  where
    served : List NodeState
    served = filter (serves now model) nodes

    decided :
        (sorted : List NodeState)
        → insertion_sort (better model) served ≡ sorted
        → ((n : NodeState) × (pick now nodes model ≡ ok n) × IsPicked now model nodes n)
          ⊎ ((pick now nodes model
                ≡ err (record { model = model; available = pool_models now nodes }))
              × All (λ n. serves now model n ≡ false) nodes)
    decided [] e =
        inr (rw (e, pick), filter-nil (serves now model) nodes (nil_of_insertion_sort _ _ e))
    decided (n ∷ rest) e =
        let b = insertion_sort-IsBest (better model) (better-IsLess model) served n (ap head? e) in
        inl (
          n,
          rw (e, pick),
          IsPlaced-of_filter _ _ _ n nodes b.ahead b.behind b.split b.worse b.not_better,
        )
