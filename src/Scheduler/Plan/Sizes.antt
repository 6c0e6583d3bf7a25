-- ===== src/Scheduler/Plan/Sizes.antt =====
-- splitplan.go, lines 30 to 41: the size of the model is the largest that a holder reports.
use mathlib.Core.List.{mem-cons_self, mem-cons_of_mem}
use potluck.Prelude.{
  ℕ, ◌≡◌, refl, sym, ◌∙◌, Mem, subst, ◌⊎◌, inl, inr, ◌≤◌, true, false, ◌&&◌, List, [], ◌∷◌, All,
  All_map, Text, arith, Bool-cases, ltb, if◌then◌else◌,
}
use potluck.Registry.{Model, NodeState, same_model}
use potluck.Scheduler.{serves}
use potluck.Scheduler.Plan.{largest_size, held_size}

-- Every model of the name is at most this large.
abbrev pub AtMost : Text → ℕ → List Model → Type 0
AtMost model size = All (λ m. same_model m.name model ≡ true → m.size ≤ size)

largest_size-le :
    (model : Text) (ms : List Model) (size : ℕ)
    → (size ≤ largest_size model ms size) × AtMost model (largest_size model ms size) ms
unfolding largest_size
largest_size-le model [] size = (omega arith, tt)
largest_size-le model (m ∷ ms) size =
    let next = if same_model m.name model && ltb size m.size then m.size else size in
    let (grows, rest) = largest_size-le model ms next in (ground arith, ((λ e. ground arith), rest))

-- Every node that serves reports at most this size.
abbrev pub HeldAtMost : ℕ → Text → ℕ → List NodeState → Type 0
HeldAtMost now model size = All (λ n. serves now model n ≡ true → AtMost model size n.models)

AtMost-mono :
    (model : Text) (ms : List Model) (a b : ℕ) → a ≤ b → AtMost model a ms → AtMost model b ms
AtMost-mono model ms a b le = All_map _ _ ms (λ m h e. omega (arith, h e))

held_size_holds :
    (now : ℕ) (model : Text) (n : NodeState) (ns : List NodeState) (size : ℕ)
    → serves now model n ≡ true
    → held_size now model (n ∷ ns) size ≡ held_size now model ns (largest_size model n.models size)
unfolding held_size
held_size_holds now model n ns size e = rw e

held_size_lacks :
    (now : ℕ) (model : Text) (n : NodeState) (ns : List NodeState) (size : ℕ)
    → serves now model n ≡ false
    → held_size now model (n ∷ ns) size ≡ held_size now model ns size
unfolding held_size
held_size_lacks now model n ns size e = rw e

held_size_nil : (now : ℕ) (model : Text) (size : ℕ) → held_size now model [] size ≡ size
unfolding held_size
held_size_nil now model size = refl

held_size-le :
    (now : ℕ) (model : Text) (ns : List NodeState) (size : ℕ)
    → (size ≤ held_size now model ns size) × HeldAtMost now model (held_size now model ns size) ns
held_size-le now model [] size = (omega (arith, held_size_nil now model size), tt)
held_size-le now model (n ∷ ns) size = elim (Bool-cases (serves now model n)) [
  | inl holds ↦
      let (grows, rest) = held_size-le now model ns (largest_size model n.models size) in
      let (grown, below) = largest_size-le model n.models size in
      subst (λ k. (size ≤ k) × HeldAtMost now model k (n ∷ ns))
        (sym (held_size_holds now model n ns size holds))
        (omega arith, ((λ _. AtMost-mono model n.models _ _ grows below), rest))
  | inr lacks ↦
      let (grows, rest) = held_size-le now model ns size in
      subst (λ k. (size ≤ k) × HeldAtMost now model k (n ∷ ns))
        (sym (held_size_lacks now model n ns size lacks))
        (grows, ((λ e. absurd (ground arith)), rest))
]

-- A model of the name with this size is among those given.
abbrev pub IsReported : ℕ → Text → List NodeState → ℕ → Type 0
IsReported now model nodes size =
    (n : NodeState) × Mem n nodes
    × (serves now model n ≡ true)
    × (m : Model) × Mem m n.models
    × (same_model m.name model ≡ true)
    × (m.size ≡ size)

largest_size-attained :
    (model : Text) (ms : List Model) (size : ℕ)
    → (largest_size model ms size ≡ size)
      ⊎ ((m : Model) × Mem m ms
          × (same_model m.name model ≡ true)
          × (m.size ≡ largest_size model ms size))
unfolding largest_size
largest_size-attained model [] size = inl refl
largest_size-attained model (m ∷ ms) size =
    elim (Bool-cases (same_model m.name model && ltb size m.size)) [
      | inl larger ↦ rw larger (elim (largest_size-attained model ms m.size) [
        | inl same ↦ inr (m, mem-cons_self, (ground arith), sym same)
        | inr (k, held, named, same) ↦ inr (k, mem-cons_of_mem m held, named, same)
      ])
      | inr passed ↦ rw passed (elim (largest_size-attained model ms size) [
        | inl same ↦ inl same
        | inr (k, held, named, same) ↦ inr (k, mem-cons_of_mem m held, named, same)
      ])
    ]

IsReported-cons :
    (now : ℕ) (model : Text) (n : NodeState) (ns : List NodeState) (size : ℕ)
    → IsReported now model ns size
    → IsReported now model (n ∷ ns) size
IsReported-cons now model n ns size (k, held, serving, m, pulled, named, e) =
    (k, mem-cons_of_mem n held, serving, m, pulled, named, e)

held_size-attained :
    (now : ℕ) (model : Text) (ns : List NodeState) (size : ℕ)
    → (held_size now model ns size ≡ size) ⊎ IsReported now model ns (held_size now model ns size)
unfolding held_size
held_size-attained now model [] size = inl refl
held_size-attained now model (n ∷ ns) size = elim (Bool-cases (serves now model n)) [
  | inl holds ↦
      rw holds (elim (held_size-attained now model ns (largest_size model n.models size)) [
        | inl same ↦ elim (largest_size-attained model n.models size) [
          | inl kept ↦ inl (same ∙ kept)
          | inr (m, held, named, e) ↦ inr (n, mem-cons_self, holds, m, held, named, e ∙ sym same)
        ]
        | inr found ↦ inr (IsReported-cons now model n ns _ found)
      ])
  | inr lacks ↦ rw lacks (elim (held_size-attained now model ns size) [
    | inl same ↦ inl same
    | inr found ↦ inr (IsReported-cons now model n ns _ found)
  ])
]

-- `size` is the largest size at which a serving node reports the model, or 0 if none does.
pub record IsModelSize (now : ℕ) (model : Text) (nodes : List NodeState) (size : ℕ) : Type 0 where
  pub bound : HeldAtMost now model size nodes
  pub attained : (size ≡ 0) ⊎ IsReported now model nodes size

pub held_size-IsModelSize :
    (now : ℕ) (model : Text) (nodes : List NodeState)
    → IsModelSize now model nodes (held_size now model nodes 0)
held_size-IsModelSize now model nodes = record {
  bound = (held_size-le now model nodes 0).1;
  attained = held_size-attained now model nodes 0;
}
