-- ===== src/Scheduler/Listing.antt =====
-- scheduler.go: `PoolModels` lists each servable model once, in order, and each can be picked.
use mathlib.Core.List.Perm
use mathlib.Core.List.{Nodup-cons, Nodup-nil, mem-cast}
use mathlib.Core.Bool.{false≢true}
use potluck.Prelude.{
  ℕ, ◌≡◌, refl, sym, ◌∙◌, ◌↔◌, inl, inr, Bool, true, false, ◌&&◌, ◌||◌, ◌≢◌, List, [], ◌∷◌, Mem,
  Nodup, Perm, All, All-mem, All_of_mem, any, any_of_mem, mem_of_any, Text, text_eq, text_eq_iff,
  text_eq_refl, text_lt, text_lt_asymmetric, text_lt_transitive, text_lt_total, Bool-cases,
  Bool-set, arith, subst,
}
use potluck.Prelude.Results.{ok}
use potluck.Prelude.Sort.{
  IsLess, IsSorted, insertion_sort, insertion_sort-perm, insertion_sort-IsSorted,
}
use potluck.Registry.{Model, NodeState, has_model, same_model}
use potluck.Scheduler.{eligible, serves, mark_models, mark_nodes, pick, pool_models}
use potluck.Scheduler.Pick.{IsPicked, pick_lem}

-- Some eligible node has pulled a model of this name.
abbrev pub IsOffered : ℕ → List NodeState → Text → Type 0
IsOffered now nodes name =
    (n : NodeState) × Mem n nodes
    × (eligible now n ≡ true)
    × (m : Model) × Mem m n.models
    × (m.name ≡ name)

pub text_lt-IsLess : IsLess text_lt
text_lt-IsLess = record { asymmetric = text_lt_asymmetric; transitive = text_lt_transitive }

-- Each element is less than all that follow.
abbrev pub IsAscending : List Text → Type 0
IsAscending [] = Unit
IsAscending (s ∷ ss) = All (λ t. text_lt s t ≡ true) ss × IsAscending ss

less_of_ne : (s t : Text) → s ≢ t → text_lt t s ≡ false → text_lt s t ≡ true
less_of_ne s t differ after = elim (Bool-cases (text_lt s t)) [
  | inl less ↦ less
  | inr more ↦ absurd (differ (text_lt_total s t more after))
]

pub IsSorted→IsAscending : (l : List Text) → Nodup l → IsSorted text_lt l → IsAscending l
IsSorted→IsAscending [] d h = tt
IsSorted→IsAscending (s ∷ ss) d h = (
  All_of_mem _ ss (λ t m.
      less_of_ne s t (λ e. (Nodup-cons.0 d).0 (mem-cast e m))
        (All-mem (λ y. text_lt y s ≡ false) ss t (λ _. Bool-set _ _) h.0 m)),
  IsSorted→IsAscending ss (Nodup-cons.0 d).1 h.1,
)

mark_models-Nodup : (ms : List Model) (seen : List Text) → Nodup seen → Nodup (mark_models ms seen)
unfolding mark_models
mark_models-Nodup [] seen d = d
mark_models-Nodup (m ∷ ms) seen d = elim (Bool-cases (any (λ s. text_eq s m.name) seen)) [
  | inl known ↦ rw known (mark_models-Nodup ms seen d)
  | inr fresh ↦ rw fresh (
      mark_models-Nodup ms (m.name ∷ seen) (
        Nodup-cons.1
          ((λ h. false≢true (sym fresh ∙ any_of_mem _ seen m.name h (text_eq_refl m.name))), d)))
]

mark_nodes-Nodup :
    (now : ℕ) (ns : List NodeState) (seen : List Text) → Nodup seen → Nodup (mark_nodes now ns seen)
unfolding mark_nodes
mark_nodes-Nodup now [] seen d = d
mark_nodes-Nodup now (n ∷ ns) seen d = elim (Bool-cases (eligible now n)) [
  | inl yes' ↦
      rw yes'
        (mark_nodes-Nodup now ns (mark_models n.models seen) (mark_models-Nodup n.models seen d))
  | inr no' ↦ rw no' (mark_nodes-Nodup now ns seen d)
]

abbrev pub has : Text → List Text → Bool
has t = any (λ s. text_eq s t)

pub has_iff : (t : Text) (l : List Text) → (has t l ≡ true) ↔ Mem t l
has_iff t l = (
  (λ h. let (s, m, e) = mem_of_any _ l h in mem-cast (sym ((text_eq_iff s t).0 e)) m),
  (λ m. any_of_mem _ l t m (text_eq_refl t)),
)

abbrev pub names : NodeState → Text → Bool
names n t = any (λ m. text_eq m.name t) n.models

has-mark_models :
    (ms : List Model) (seen : List Text) (t : Text)
    → has t (mark_models ms seen) ≡ (any (λ m. text_eq m.name t) ms || has t seen)
unfolding mark_models
has-mark_models [] seen t = refl
has-mark_models (m ∷ ms) seen t = elim (Bool-cases (has m.name seen)) [
  | inl known ↦
      rw (known, has-mark_models ms seen t)
        (known_name (λ e. subst (λ s. has s seen ≡ true) ((text_eq_iff m.name t).0 e) known))
  | inr fresh ↦ rw (fresh, has-mark_models ms (m.name ∷ seen) t) (ground arith)
]
  where
    known_name :
        (text_eq m.name t ≡ true → has t seen ≡ true)
        → (any (λ n. text_eq n.name t) ms || has t seen)
          ≡ (text_eq m.name t || any (λ n. text_eq n.name t) ms || has t seen)
    known_name h = ground arith

has-mark_nodes :
    (now : ℕ) (ns : List NodeState) (seen : List Text) (t : Text)
    → has t (mark_nodes now ns seen) ≡ (any (λ n. eligible now n && names n t) ns || has t seen)
unfolding mark_nodes
has-mark_nodes now [] seen t = refl
has-mark_nodes now (n ∷ ns) seen t = ground (
  arith,
  has-mark_nodes now ns seen t,
  has-mark_nodes now ns (mark_models n.models seen) t,
  has-mark_models n.models seen t,
)

pub has-perm : (t : Text) {l k : List Text} → Perm l k → has t l ≡ has t k
has-perm t {l} {k} same =
    let onto : has t l ≡ true → has t k ≡ true =
      λ h. (has_iff t k).1 (Perm.subset same t ((has_iff t l).0 h)) in
    let back : has t k ≡ true → has t l ≡ true =
      λ h. (has_iff t l).1 (Perm.subset (Perm.symm same) t ((has_iff t k).0 h)) in
    ground arith

pub has-pool_models :
    (now : ℕ) (nodes : List NodeState) (t : Text)
    → has t (pool_models now nodes) ≡ any (λ n. eligible now n && names n t) nodes
unfolding pool_models
has-pool_models now nodes t =
    has-perm t (insertion_sort-perm text_lt (mark_nodes now nodes []))
    ∙ has-mark_nodes now nodes [] t
    ∙ ground arith

marked_iff :
    (now : ℕ) (nodes : List NodeState) (t : Text)
    → (has t (mark_nodes now nodes []) ≡ true) ↔ IsOffered now nodes t
marked_iff now nodes t = rw (has-mark_nodes now nodes [] t) (
  (λ h.
      let (n, m, e) = mem_of_any (λ k. eligible now k && names k t) nodes (ground arith) in
      let (model, held, named) = mem_of_any (λ k. text_eq k.name t) n.models (ground arith) in
      (n, m, (ground arith), model, held, (text_eq_iff model.name t).0 named)),
  (λ (n, m, e, model, held, named).
      let offers : names n t ≡ true =
        any_of_mem _ n.models model held ((text_eq_iff model.name t).1 named) in
      let k : any (λ k. eligible now k && names k t) nodes ≡ true =
        any_of_mem _ nodes n m (ground arith) in
      ground arith),
)

-- `PoolModels` lists exactly the models that some eligible node has pulled, each of them once and
-- in ascending order.
pub pool_models_lists :
    (now : ℕ) (nodes : List NodeState)
    → ((t : Text) → Mem t (pool_models now nodes) ↔ IsOffered now nodes t)
      × IsAscending (pool_models now nodes)
unfolding pool_models
pool_models_lists now nodes =
    let marked = mark_nodes now nodes [] in
    let same = insertion_sort-perm text_lt marked in
    (
      λ t. (
        λ m. (marked_iff now nodes t).0 ((has_iff t marked).1 (Perm.subset same t m)),
        λ offered.
            Perm.subset (Perm.symm same) t
              ((has_iff t marked).0 ((marked_iff now nodes t).1 offered)),
      ),
      IsSorted→IsAscending (insertion_sort text_lt marked)
          (Perm.nodup (Perm.symm same) (mark_nodes-Nodup now nodes [] Nodup-nil))
          (insertion_sort-IsSorted text_lt text_lt-IsLess marked),
    )

has_model_of_name :
    (n : NodeState) (t : Text) (m : Model) → Mem m n.models → m.name ≡ t → has_model n t ≡ true
unfolding has_model same_model
has_model_of_name n t m held named =
    any_of_mem (λ k. same_model k.name t) n.models m held
      (ground (arith, (text_eq_iff m.name t).1 named))

-- A model that `PoolModels` lists is served: `Pick` returns a node for it.
pub pick_of_listed :
    (now : ℕ) (nodes : List NodeState) (t : Text)
    → Mem t (pool_models now nodes)
    → (n : NodeState) × (pick now nodes t ≡ ok n) × IsPicked now t nodes n
unfolding serves
pick_of_listed now nodes t m =
    let (n, held, e, model, pulled, named) = ((pool_models_lists now nodes).0 t).0 m in
    elim (pick_lem now nodes t) [
      | inl found ↦ found
      | inr (_, nobody) ↦
          let refused : serves now t n ≡ false =
            All-mem (λ k. serves now t k ≡ false) nodes n (λ _. Bool-set _ _) nobody held in
          absurd (ground (arith, has_model_of_name n t model pulled named))
    ]
