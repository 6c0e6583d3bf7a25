-- ===== src/Registry/Snapshot.antt =====
-- registry.go: what `Prune` reports and what `Snapshot` lists.
use mathlib.Core.Bool.{false≢true}
use mathlib.Core.List.Perm
use mathlib.Core.List.{mem-cons, mem-cons_of_mem, not-mem-nil}
use mathlib.Core.Logic.Or
use potluck.Prelude.{
  ℕ, ◌≡◌, refl, sym, ap, ◌∙◌, ◌↔◌, inl, inr, Bool, true, false, List, [], ◌∷◌, map, Mem, filter,
  Text, text_eq, text_eq_iff, text_lt_asymmetric, text_lt_transitive, Option, none, some,
  if◌then◌else◌, Bool-cases, arith, Bool-set,
}
use potluck.Prelude.Dict.{find}
use potluck.Prelude.Sort.{IsLess, IsSorted, SliceSort}
use potluck.Registry.State.{NodeState}
use potluck.Registry.{Registry, expired, prune, before, snapshot, get}
use potluck.Registry.Laws.{IsKeyed, IsValid, get-prune}

before-IsLess : IsLess before
unfolding before
before-IsLess = record {
  asymmetric = λ a b h. ground (arith, text_lt_asymmetric a.name b.name);
  transitive = λ a b c h k. ground (arith, text_lt_transitive a.name b.name c.name);
}

State-prop : {o : Option NodeState} {n : NodeState} → IsProp (o ≡ some n)
State-prop = hlevel

abbrev states : List (Text × NodeState) → List NodeState
states l = map (λ e. e.1) l

mem_of_find :
    (j : Text) (l : List (Text × NodeState)) (n : NodeState) → find j l ≡ some n → Mem n (states l)
unfolding find
mem_of_find j [] n h = cc
mem_of_find j ((k, m) ∷ rest) n h = elim (Bool-cases (text_eq k j)) [
  | inl here ↦ let e : n ≡ m = ground arith in mem-cons.1 (Or.inl e)
  | inr there ↦ mem-cons_of_mem m (mem_of_find j rest n (rw there at h))
]

find_of_mem :
    (l : List (Text × NodeState)) (n : NodeState)
    → IsKeyed l
    → Mem n (states l)
    → find n.id l ≡ some n
unfolding find
find_of_mem [] n v m = absurd (not-mem-nil m)
find_of_mem ((k, s) ∷ rest) n v m =
    Or.elim State-prop (mem-cons.0 m)
      (λ e. ground (arith, ap (λ (x : NodeState). x.id) e, text_eq_iff k n.id))
      (λ t. ground (arith, text_eq_iff k n.id, find_of_mem rest n v.2 t))

-- `Snapshot` lists the state of every known ID and no other, the node itself first and then by
-- name.
pub snapshot_lists :
    (slice : SliceSort NodeState) (r : Registry)
    → IsValid r
    → ((n : NodeState) → Mem n (snapshot slice r) ↔ (get n.id r ≡ some n))
      × IsSorted before (snapshot slice r)
unfolding snapshot get
snapshot_lists slice r v =
    let same = slice.sort-perm before (states r.nodes) in
    (
      λ n. (
        λ m. find_of_mem r.nodes n v (Perm.subset same n m),
        λ h. Perm.subset (Perm.symm same) n (mem_of_find n.id r.nodes n h),
      ),
      slice.sort-IsSorted before before-IsLess (states r.nodes),
    )

abbrev pub is_expired : ℕ → ℕ → Option NodeState → Bool
is_expired now ttl none = false
is_expired now ttl (some n) = expired now ttl n

mem-removed :
    (now ttl : ℕ) (j : Text) (l : List (Text × NodeState))
    → IsKeyed l
    → Mem j (map (λ e. e.0) (filter (λ e. expired now ttl e.1) l))
      ↔ (is_expired now ttl (find j l) ≡ true)
unfolding find
mem-removed now ttl j [] v = (λ m. absurd (not-mem-nil m), λ h. cc)
mem-removed now ttl j ((k, n) ∷ rest) v =
    let ih = mem-removed now ttl j rest v.2 in
    elim (Bool-cases (text_eq k j)) [
      | inl here ↦
          let e : j ≡ k = sym ((text_eq_iff k j).0 here) in
          elim (Bool-cases (expired now ttl n)) [
            | inl old ↦ rw (here, old) ((λ _. refl), (λ _. mem-cons.1 (Or.inl e)))
            | inr fresh ↦
                rw (here, fresh) ((λ m. absurd (absent e (ih.0 m))), (λ h. absurd (false≢true h)))
          ]
      | inr there ↦ elim (Bool-cases (expired now ttl n)) [
        | inl old ↦
            rw (there, old)
              (
                (λ m.
                    Or.elim (Bool-set _ _) (mem-cons.0 m)
                      (λ e. absurd (false≢true (sym there ∙ (text_eq_iff k j).1 (sym e)))) ih.0),
                (λ h. mem-cons_of_mem k (ih.1 h)),
              )
        | inr fresh ↦ rw (there, fresh) ih
      ]
    ]
  where
    absent : j ≡ k → ¬ (is_expired now ttl (find j rest) ≡ true)
    absent e h =
        false≢true (sym (ap (is_expired now ttl) (ap (λ (i : Text). find i rest) e ∙ v.1)) ∙ h)

mem-prune :
    (now ttl : ℕ) (r : Registry) (j : Text)
    → IsValid r
    → Mem j (prune now ttl r).1 ↔ (is_expired now ttl (get j r) ≡ true)
unfolding prune get
mem-prune now ttl r j v = mem-removed now ttl j r.nodes v

get-prune_self :
    (now ttl : ℕ) (r : Registry) (j : Text) (n : NodeState)
    → IsValid r
    → get j r ≡ some n
    → n.self ≡ true
    → get j (prune now ttl r).0 ≡ some n
unfolding expired
get-prune_self now ttl r j n v found own = ground (arith, get-prune now ttl r j v)

-- `Prune` reports exactly the IDs whose state has expired; the node itself is never among them,
-- and afterwards `Get` answers none for these IDs and what it answered before for all others.
pub prune_reports :
    (now ttl : ℕ) (r : Registry) (j : Text)
    → IsValid r
    → (Mem j (prune now ttl r).1 ↔ (is_expired now ttl (get j r) ≡ true))
      × (get j (prune now ttl r).0 ≡ (if is_expired now ttl (get j r) then none else get j r))
      × ((n : NodeState) → get j r ≡ some n → n.self ≡ true → get j (prune now ttl r).0 ≡ some n)
prune_reports now ttl r j v = (
  mem-prune now ttl r j v,
  ground (arith, get-prune now ttl r j v),
  λ n found own. get-prune_self now ttl r j n v found own,
)
