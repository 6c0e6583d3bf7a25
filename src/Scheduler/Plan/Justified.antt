-- ===== src/Scheduler/Plan/Justified.antt =====
-- splitplan.go: what every decision of `PlanSplit` rests on.
use mathlib.Core.List.{mem-cons_self, not-mem-nil}
use mathlib.Core.List.Perm
use mathlib.Core.Bool.{false≢true}
use native.Mathlib.Bridge.{le_prop}
use potluck.Prelude.{
  ℕ, ◌≡◌, refl, sym, ◌∙◌, subst, inl, inr, ◌≤◌, true, false, ◌||◌, List, [], ◌∷◌, Mem, length,
  filter, mem-filter, any, any_of_mem, mem_of_any, All, All-mem, All_map, arith, Text, Bool-cases,
  leb, leb→le, leb-false→lt, ltb-false→le, ◌==◌,
}
use potluck.Prelude.Sort.{SliceSort, IsLess, IsSorted}
use potluck.Registry.{NodeState}
use potluck.Scheduler.{serves}
use potluck.Scheduler.Plan.{held_size, more_memory, share, candidates, split_from, plan_split}
use potluck.Scheduler.Plan.Sizes.{IsModelSize, held_size-IsModelSize}
use potluck.Scheduler.Plan.Recruits.{recruit-IsRecruited}
use potluck.Split.{need}
use potluck.Scheduler.Plan.Spec.{FitsNowhere, IsDriver, nobody_drives, NeedsNoSplit, IsJustified}
use potluck.Scheduler.Plan.Workers.{conclude-IsJustified}

more_memory-IsLess : IsLess more_memory
more_memory-IsLess = record {
  asymmetric = λ a b h. ground arith;
  transitive = λ a b c h k. ground arith;
}

module _ (now : ℕ) (nodes : List NodeState) (model : Text) (slice : SliceSort NodeState) where
  abbrev drivers : List NodeState
  drivers = slice.sort more_memory (filter (λ n. n.split.driver) (filter (serves now model) nodes))

  drivers_iff :
      (n : NodeState)
      → (Mem n drivers → Mem n nodes × (serves now model n ≡ true) × (n.split.driver ≡ true))
        × (Mem n nodes → serves now model n ≡ true → n.split.driver ≡ true → Mem n drivers)
  drivers_iff n =
      let holders = filter (serves now model) nodes in
      let able = λ (k : NodeState). k.split.driver in
      let same = slice.sort-perm more_memory (filter able holders) in
      (
        λ m.
            let (held, drives) = (mem-filter able n holders).0 (Perm.subset same n m) in
            let (listed, serving) = (mem-filter (serves now model) n nodes).0 held in
            (listed, serving, drives),
        λ listed serving drives. Perm.subset (Perm.symm same) n (
            (mem-filter able n holders).1
              ((mem-filter (serves now model) n nodes).1 (listed, serving), drives)),
      )

  first_IsDriver :
      (driver : NodeState) (rest : List NodeState)
      → drivers ≡ driver ∷ rest
      → IsDriver now nodes model driver
  first_IsDriver driver rest e =
      let (listed, serving, drives) =
        (drivers_iff driver).0 (subst (Mem driver) (sym e) mem-cons_self) in
      record {
        listed = listed;
        serving = serving;
        able = drives;
        largest = λ n at s d.
            All-mem (λ (k : NodeState). k.resources.mem_available ≤ driver.resources.mem_available)
              (driver ∷ rest) n (λ _. le_prop) bounds (subst (Mem n) e ((drivers_iff n).1 at s d));
      }
    where
      sorted : IsSorted more_memory (driver ∷ rest)
      sorted = subst (IsSorted more_memory) e (slice.sort-IsSorted more_memory more_memory-IsLess _)

      bounds : All (λ k. k.resources.mem_available ≤ driver.resources.mem_available) (driver ∷ rest)
      bounds = (omega arith, All_map _ _ rest (λ k h. ltb-false→le _ _ h) sorted.0)

  split_from-IsJustified :
      (size : ℕ) (ds : List NodeState)
      → drivers ≡ ds
      → IsModelSize now model nodes size
      → FitsNowhere now nodes model (need size)
      → IsJustified now nodes model (split_from slice now nodes model size (need size) ds)
  unfolding split_from
  split_from-IsJustified size [] e sized nowhere = nobody_drives size sized nowhere λ n at s.
      elim (Bool-cases n.split.driver) [
        | inl drives ↦ absurd (not-mem-nil (subst (Mem n) e ((drivers_iff n).1 at s drives)))
        | inr idle ↦ idle
      ]
  split_from-IsJustified size (driver ∷ rest) e sized nowhere =
      conclude-IsJustified now nodes model slice size driver _ sized nowhere
        (first_IsDriver driver rest e)
        (recruit-IsRecruited (need size) (candidates slice now nodes model driver) []
          (share driver))

  length-eq-zero : (l : List NodeState) → (length l == 0) ≡ true → l ≡ []
  length-eq-zero [] h = refl
  length-eq-zero (n ∷ ns) h = absurd (ground arith)

  nothing_known :
      (size : ℕ)
      → IsModelSize now model nodes size
      → (length (filter (serves now model) nodes) == 0 || size == 0) ≡ true
      → NeedsNoSplit now nodes model
  nothing_known size sized h = elim (Bool-cases (length (filter (serves now model) nodes) == 0)) [
    | inl nobody ↦ inl (λ n at. elim (Bool-cases (serves now model n)) [
      | inl s ↦ absurd (
          not-mem-nil (
            subst (Mem n) (length-eq-zero _ nobody)
              ((mem-filter (serves now model) n nodes).1 (at, s))))
      | inr s ↦ s
    ])
    | inr somebody ↦
        let zero_size : size ≡ 0 = ground arith in
        inr (inl (subst (IsModelSize now model nodes) zero_size sized))
  ]

  fits_whole :
      (size : ℕ)
      → IsModelSize now model nodes size
      → any (λ n. leb (need size) (share n)) (filter (serves now model) nodes) ≡ true
      → NeedsNoSplit now nodes model
  fits_whole size sized h =
      let (n, held, fits) = mem_of_any _ (filter (serves now model) nodes) h in
      let (listed, serving) = (mem-filter (serves now model) n nodes).0 held in
      inr (inr (size, sized, n, listed, serving, leb→le _ _ fits))

  fits_nowhere :
      (needed : ℕ)
      → any (λ n. leb needed (share n)) (filter (serves now model) nodes) ≡ false
      → FitsNowhere now nodes model needed
  fits_nowhere needed h n at s = elim (Bool-cases (leb needed (share n))) [
    | inl fits ↦ absurd (
        false≢true (
          sym h
          ∙ any_of_mem (λ k. leb needed (share k)) (filter (serves now model) nodes) n
              ((mem-filter (serves now model) n nodes).1 (at, s)) fits))
    | inr short ↦ leb-false→lt _ _ short
  ]

  -- What each decision of `PlanSplit` rests on. It asks for no split only if no serving node is known,
  -- the model's size is 0 or some serving node can run it alone. A plan has the serving driver
  -- with the most memory, eligible workers other than it, enough memory together, and no worker
  -- that was not needed when it was recruited. It gives up only if the model fits no serving node
  -- whole, and no serving node can drive, or the driver with the most memory and all eligible workers
  -- other than it add up, as uint64s, to less than what is needed.
  pub plan_split-IsJustified : IsJustified now nodes model (plan_split slice now nodes model)
  unfolding plan_split
  plan_split-IsJustified =
      let size = held_size now model nodes 0 in
      let holders = filter (serves now model) nodes in
      let sized = held_size-IsModelSize now model nodes in
      elim (Bool-cases (length holders == 0 || size == 0)) [
        | inl unknown ↦ rw unknown (nothing_known size sized unknown)
        | inr known ↦ rw known (elim (Bool-cases (any (λ n. leb (need size) (share n)) holders)) [
          | inl fits ↦ rw fits (fits_whole size sized fits)
          | inr nowhere ↦
              rw nowhere
                (split_from-IsJustified size drivers refl sized (fits_nowhere (need size) nowhere))
        ])
      ]
