-- ===== src/Prelude/Dict.antt =====
-- Go's `map[string]V`, as the list of its entries; the code never depends on their order.
use mathlib.Core.Path.{◌≡◌, refl}
use mathlib.Core.Bool.{Bool, true, false, not}
use mathlib.Core.List.{List, [], ◌∷◌}
use mathlib.Core.Option.{Option, none, some}
use native.Mathlib.Omega.{arith}
use mathlib.Core.Logic.{inl, inr}
use potluck.Prelude.Tests.{if◌then◌else◌, Bool-cases}
use potluck.Prelude.Lists.{filter, any, All, All-filter}
use potluck.Prelude.Texts.{Text, text_eq, text_eq_iff}

module _ {ℓ} {V : Type ℓ} where
  -- `m[key] = v`
  unfoldable pub store : Text → V → List (Text × V) → List (Text × V)
  unfolding text_eq
  store key v [] = (key, v) ∷ []
  store key v ((j, w) ∷ rest) = if text_eq j key then (key, v) ∷ rest else (j, w) ∷ store key v rest

  -- `v, ok := m[key]`
  unfoldable pub find : Text → List (Text × V) → Option V
  unfolding text_eq
  find key [] = none
  find key ((j, w) ∷ rest) = if text_eq j key then some w else find key rest

  -- `delete(m, key)`
  unfoldable pub erase : Text → List (Text × V) → List (Text × V)
  unfolding text_eq
  erase key m = filter (λ (e : Text × V). not (text_eq e.0 key)) m

  -- No key stands twice.
  abbrev pub IsDistinct : List (Text × V) → Type ℓ
  IsDistinct [] = Unit
  IsDistinct ((j, w) ∷ rest) = (find j rest ≡ none) × IsDistinct rest

  pub find-store :
      (key : Text) (v : V) (j : Text) (m : List (Text × V))
      → find j (store key v m) ≡ (if text_eq key j then some v else find j m)
  unfolding find store
  find-store key v j [] = refl
  find-store key v j ((k, w) ∷ rest) =
      ground (arith, text_eq_iff k key, text_eq_iff k j, text_eq_iff key j, find-store key v j rest)

  pub find-filter-none :
      (p : Text × V → Bool) (j : Text) (m : List (Text × V))
      → find j m ≡ none
      → find j (filter p m) ≡ none
  unfolding find
  find-filter-none p j [] h = refl
  find-filter-none p j ((k, w) ∷ rest) h = ground (arith, find-filter-none p j rest)

  pub find-filter :
      (p : Text × V → Bool) (j : Text) (m : List (Text × V))
      → IsDistinct m
      → find j (filter p m)
        ≡ (elim (find j m) [ none ↦ none | some w ↦ if p (j, w) then some w else none ])
  unfolding find
  find-filter p j [] d = refl
  find-filter p j ((k, w) ∷ rest) d =
      ground (arith, text_eq_iff k j, find-filter p j rest d.1, find-filter-none p j rest)

  pub find-erase :
      (key j : Text) (m : List (Text × V))
      → find j (erase key m) ≡ (if text_eq j key then none else find j m)
  unfolding find erase
  find-erase key j [] = ground arith
  find-erase key j ((k, w) ∷ rest) =
      ground (arith, text_eq_iff k key, text_eq_iff k j, text_eq_iff j key, find-erase key j rest)

  pub store-IsDistinct :
      (key : Text) (v : V) (m : List (Text × V)) → IsDistinct m → IsDistinct (store key v m)
  unfolding find store
  store-IsDistinct key v [] d = (refl, tt)
  store-IsDistinct key v ((k, w) ∷ rest) d = ground (
    arith,
    text_eq_iff k key,
    text_eq_iff key k,
    find-store key v k rest,
    store-IsDistinct key v rest d.1,
  )

  pub filter-IsDistinct :
      (p : Text × V → Bool) (m : List (Text × V)) → IsDistinct m → IsDistinct (filter p m)
  filter-IsDistinct p [] d = tt
  filter-IsDistinct p ((k, w) ∷ rest) d =
      ground (arith, find-filter-none p k rest, filter-IsDistinct p rest d.1)

  pub erase-IsDistinct :
      (key : Text) (m : List (Text × V)) → IsDistinct m → IsDistinct (erase key m)
  unfolding erase
  erase-IsDistinct key m d = filter-IsDistinct (λ e. not (text_eq e.0 key)) m d

  -- Some value of the map passes the test.
  abbrev pub any_value : (V → Bool) → List (Text × V) → Bool
  any_value q = any (λ (e : Text × V). q e.1)

  abbrev pub passes : (V → Bool) → Option V → Bool
  passes q none = false
  passes q (some v) = q v

  pub any_value-store :
      (q : V → Bool) (key : Text) (v : V) (m : List (Text × V))
      → (passes q (find key m) ≡ true → q v ≡ true)
      → any_value q m ≡ true
      → any_value q (store key v m) ≡ true
  unfolding find store
  any_value-store q key v [] h e = ground arith
  any_value-store q key v ((k, w) ∷ rest) h e =
      ground (arith, text_eq_iff k key, any_value-store q key v rest)

  pub any_value-store_self :
      (q : V → Bool) (key : Text) (v : V) (m : List (Text × V))
      → q v ≡ true
      → any_value q (store key v m) ≡ true
  unfolding store
  any_value-store_self q key v [] h = ground arith
  any_value-store_self q key v ((k, w) ∷ rest) h =
      ground (arith, any_value-store_self q key v rest h)

  pub any_value-erase :
      (q : V → Bool) (key : Text) (m : List (Text × V))
      → passes q (find key m) ≡ false
      → IsDistinct m
      → any_value q m ≡ true
      → any_value q (erase key m) ≡ true
  unfolding find erase
  any_value-erase q key [] h d e = ground arith
  any_value-erase q key ((k, w) ∷ rest) h d e =
      ground (arith, text_eq_iff k key, any_value-erase q key rest)

  pub All-store {κ} :
      (P : Text × V → Type κ) (key : Text) (v : V) (m : List (Text × V))
      → P (key, v)
      → All P m
      → All P (store key v m)
  unfolding store
  All-store P key v [] h a = (h, tt)
  All-store P key v ((k, w) ∷ rest) h a = elim (Bool-cases (text_eq k key)) [
    | inl same ↦ rw same (h, a.1)
    | inr other ↦ rw other (a.0, All-store P key v rest h a.1)
  ]

  pub All-erase {κ} :
      (P : Text × V → Type κ) (key : Text) (m : List (Text × V)) → All P m → All P (erase key m)
  unfolding erase
  All-erase P key m a = All-filter P (λ (e : Text × V). not (text_eq e.0 key)) m a
