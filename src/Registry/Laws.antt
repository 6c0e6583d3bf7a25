-- ===== src/Registry/Laws.antt =====
-- registry.go: what can be read after each operation, and that entries stay keyed by their IDs.

use potluck.Prelude.{
  ℕ, ◌≡◌, refl, inl, inr, Bool, not, List, [], ◌∷◌, filter, Text, text_eq, text_eq_iff, none, some,
  if◌then◌else◌, Option-cases, arith,
}
use potluck.Prelude.Dict.{
  store, find, find-store, find-filter, find-filter-none, find-erase, IsDistinct,
}
use potluck.Registry.State.{NodeState}
use potluck.Registry.{Registry, upsert, touch, remove, expired, prune, get}

-- Every entry stands under its state's ID, and no ID twice.
abbrev pub IsKeyed : List (Text × NodeState) → Type 0
IsKeyed [] = Unit
IsKeyed ((j, n) ∷ rest) = (n.id ≡ j) × (find j rest ≡ none) × IsKeyed rest

abbrev pub IsValid : Registry → Type 0
IsValid r = IsKeyed r.nodes

IsKeyed→IsDistinct : (l : List (Text × NodeState)) → IsKeyed l → IsDistinct l
IsKeyed→IsDistinct [] v = tt
IsKeyed→IsDistinct ((j, n) ∷ rest) v = (v.1, IsKeyed→IsDistinct rest v.2)

store-IsKeyed :
    (id : Text) (s : NodeState) (l : List (Text × NodeState))
    → s.id ≡ id
    → IsKeyed l
    → IsKeyed (store id s l)
unfolding store find
store-IsKeyed id s [] e v = (e, refl, tt)
store-IsKeyed id s ((k, n) ∷ rest) e v = ground (
  arith,
  text_eq_iff k id,
  text_eq_iff id k,
  find-store id s k rest,
  store-IsKeyed id s rest e v.2,
)

filter-IsKeyed :
    (p : Text × NodeState → Bool) (l : List (Text × NodeState)) → IsKeyed l → IsKeyed (filter p l)
filter-IsKeyed p [] v = tt
filter-IsKeyed p ((k, n) ∷ rest) v =
    ground (arith, find-filter-none p k rest, filter-IsKeyed p rest v.2)

pub upsert-IsValid : (now : ℕ) (s : NodeState) (r : Registry) → IsValid r → IsValid (upsert now s r)
unfolding upsert
upsert-IsValid now s r v = store-IsKeyed s.id (record s { updated_at = now }) r.nodes refl v

pub find-id :
    (j : Text) (l : List (Text × NodeState)) (n : NodeState)
    → IsKeyed l
    → find j l ≡ some n
    → n.id ≡ j
unfolding find
find-id j [] n v h = cc
find-id j ((k, m) ∷ rest) n v h = ground (arith, text_eq_iff k j, find-id j rest n v.2)

pub touch-IsValid : (now : ℕ) (id : Text) (r : Registry) → IsValid r → IsValid (touch now id r)
unfolding touch
touch-IsValid now id r v = elim (Option-cases (find id r.nodes)) [
  | inl absent ↦ rw (absent, touch) v
  | inr (n, found) ↦
      rw (found, touch)
        (store-IsKeyed id (record n { updated_at = now }) r.nodes (find-id id r.nodes n v found) v)
]

pub remove-IsValid : (id : Text) (r : Registry) → IsValid r → IsValid (remove id r)
unfolding remove
remove-IsValid id r v = filter-IsKeyed _ r.nodes v

pub prune-IsValid : (now ttl : ℕ) (r : Registry) → IsValid r → IsValid (prune now ttl r).0
unfolding prune
prune-IsValid now ttl r v = filter-IsKeyed _ r.nodes v

pub get-upsert :
    (now : ℕ) (s : NodeState) (r : Registry) (j : Text)
    → get j (upsert now s r)
      ≡ (if text_eq s.id j then some (record s { updated_at = now }) else get j r)
unfolding get upsert
get-upsert now s r j = find-store s.id (record s { updated_at = now }) j r.nodes

pub get-touch :
    (now : ℕ) (id : Text) (r : Registry) (j : Text)
    → get j (touch now id r) ≡ (elim (get j r) [
      | none ↦ none
      | some n ↦ if text_eq id j then some (record n { updated_at = now }) else some n
    ])
unfolding get touch
get-touch now id r j = elim (Option-cases (find id r.nodes)) [
  | inl absent ↦ rw (absent, touch) (ground (arith, text_eq_iff id j, absent))
  | inr (n, found) ↦
      rw (found, touch)
        (ground
          (arith, text_eq_iff id j, found, find-store id (record n { updated_at = now }) j r.nodes))
]

pub get-remove :
    (id : Text) (r : Registry) (j : Text)
    → get j (remove id r) ≡ (if text_eq j id then none else get j r)
unfolding get remove
get-remove id r j = find-erase id j r.nodes

pub get-prune :
    (now ttl : ℕ) (r : Registry) (j : Text)
    → IsValid r
    → get j (prune now ttl r).0
      ≡ (elim (get j r) [ none ↦ none | some n ↦ if expired now ttl n then none else some n ])
unfolding get prune
get-prune now ttl r j v =
    ground
      (arith, find-filter (λ e. not (expired now ttl e.1)) j r.nodes (IsKeyed→IsDistinct r.nodes v))
