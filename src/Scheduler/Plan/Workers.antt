-- ===== src/Scheduler/Plan/Workers.antt =====
-- splitplan.go, lines 71 to 94: the candidates and the end of `PlanSplit`.
use mathlib.Core.List.{mem-append_left, append-nil}
use native.Mathlib.Nat.{le_trans}
use mathlib.Core.List.Perm
use potluck.Prelude.{
  ℕ, ◌/◌, ◌^◌, ◌≡◌, refl, sym, ◌∙◌, ap, subst, ◌≢◌, inl, inr, ◌≤◌, ◌<◌, true, not, ◌&&◌, List, [],
  ◌++◌, Mem, length, filter, mem-filter, arith, Text, text_eq, text_eq_iff, Bool-cases, ltb, ltb→lt,
  ltb-false→le,
}
use potluck.Prelude.Sort.{SliceSort}
use potluck.Registry.{NodeState}
use potluck.Scheduler.{eligible}
use potluck.Scheduler.Plan.{too_small, more_memory, share, conclude, candidates}
use potluck.Scheduler.Plan.Sizes.{IsModelSize}
use potluck.Scheduler.Plan.Recruits.{total_u64, total, total_u64-le, IsLean, IsRecruited}
use potluck.Split.{need}
use potluck.Scheduler.Plan.Spec.{
  FitsNowhere, IsDriver, IsWorker, IsRefused, largest_too_small, IsJustified,
}

module _ (now : ℕ) (nodes : List NodeState) (model : Text) (slice : SliceSort NodeState) where
  worker_test :
      (n driver : NodeState)
      → (eligible now n && n.split.worker && not (text_eq n.id driver.id)) ≡ true
      → (eligible now n ≡ true) × (n.split.worker ≡ true) × (n.id ≢ driver.id)
  worker_test n driver h =
      (ground arith, ground arith, (λ e. ground (arith, (text_eq_iff n.id driver.id).1 e)))

  worker_passes :
      (n driver : NodeState)
      → IsWorker now nodes model driver n
      → (eligible now n && n.split.worker && not (text_eq n.id driver.id)) ≡ true
  worker_passes n driver w =
      let e = w.fresh in
      let a = w.able in
      let o = w.other in
      elim (Bool-cases (text_eq n.id driver.id)) [
        | inl same ↦ absurd (o ((text_eq_iff n.id driver.id).0 same))
        | inr differ ↦ rw (e, a, differ)
      ]

  candidates_iff :
      (driver n : NodeState)
      → (Mem n (candidates slice now nodes model driver) → IsWorker now nodes model driver n)
        × (IsWorker now nodes model driver n → Mem n (candidates slice now nodes model driver))
  unfolding candidates
  candidates_iff driver n =
      let test =
        λ (k : NodeState). eligible now k && k.split.worker && not (text_eq k.id driver.id) in
      let same = slice.sort-perm more_memory (filter test nodes) in
      (
        λ m.
            let (listed, passes) = (mem-filter test n nodes).0 (Perm.subset same n m) in
            record {
              listed = listed;
              fresh = (worker_test n driver passes).0;
              able = (worker_test n driver passes).1;
              other = (worker_test n driver passes).2;
            },
        λ w.
            Perm.subset (Perm.symm same) n
              ((mem-filter test n nodes).1 (w.listed, worker_passes n driver w)),
      )

  pub conclude-IsJustified :
      (size : ℕ) (driver : NodeState) (r : List NodeState × ℕ)
      → IsModelSize now model nodes size
      → FitsNowhere now nodes model (need size)
      → IsDriver now nodes model driver
      → IsRecruited (need size) (candidates slice now nodes model driver) [] (share driver) r
      → IsJustified now nodes model (conclude model size (need size) driver r)
  unfolding conclude
  conclude-IsJustified size driver (workers, capacity) sized nowhere d r =
      elim (Bool-cases (ltb capacity (need size))) [
        | inl short ↦ rw short (too_small_IsRefused (ltb→lt _ _ short))
        | inr met ↦ rw met (record {
          size = sized;
          needed = refl;
          too_big = nowhere;
          driver = d;
          workers = λ n m.
              (candidates_iff driver n).0
                (subst (Mem n) (sym r.split) (mem-append_left r.left (subst (Mem n) r.workers m)));
          enough = le_trans (ltb-false→le _ _ met) (
              subst (λ k. capacity ≤ total (share driver) k) (sym r.workers)
                (subst (λ k. k ≤ total (share driver) r.taken) (sym r.sum)
                  (total_u64-le (share driver) r.taken)));
          lean = subst (IsLean (need size) (share driver)) (sym r.workers) r.lean;
        })
      ]
    where
      too_small_IsRefused :
          capacity < need size
          → IsRefused now nodes model (
              too_small model (need size / 2 ^ 30) (capacity / 2 ^ 30) driver.name (length workers))
      too_small_IsRefused short =
          let done : r.left ≡ [] = elim r.stopped [
            | inl met ↦ absurd (omega arith)
            | inr none_left ↦ none_left
          ] in
          let all : candidates slice now nodes model driver ≡ workers =
            r.split ∙ ap (◌++◌ r.taken) done ∙ append-nil r.taken ∙ sym r.workers in
          let sum : total_u64 (share driver) workers ≡ capacity =
            ap (total_u64 (share driver)) r.workers ∙ sym r.sum in
          subst
            (λ k.
              IsRefused now nodes model
                (too_small model (need size / 2 ^ 30) (k / 2 ^ 30) driver.name (length workers)))
            sum
            (largest_too_small size driver workers sized nowhere d
              (λ n w. subst (Mem n) all ((candidates_iff driver n).1 w))
              (subst (λ k. k < need size) (sym sum) short))
