-- ===== src/Scheduler/Plan.antt =====
-- internal/scheduler/splitplan.go: how to run a model that fits on no single node.
pub mod Sizes
pub mod Recruits
pub mod Spec
mod Workers
pub mod Justified
pub mod Missed
use potluck.Prelude.{
  ℕ, ◌+◌, ◌/◌, ◌%◌, ◌^◌, Bool, true, false, not, ◌&&◌, ◌||◌, List, [], ◌∷◌, ◌++◌, length, filter,
  any, Text, text_eq, ltb, leb, ◌==◌, if◌then◌else◌,
}
use potluck.Prelude.Sort.{SliceSort}
use potluck.Registry.{Model, NodeState, same_model}
use potluck.Scheduler.{eligible, serves}
use potluck.Split.{need, usable}

pub record Plan : Type 0 where
  pub driver : NodeState
  pub workers : List NodeState
  pub model_size : ℕ
  pub need : ℕ

-- The two error texts, by what they print: sizes are in GiB.
pub data PlanError : Type 0 where
  no_driver : (model : Text) (size : ℕ) → PlanError
  too_small : (model : Text) (need capacity : ℕ) (driver : Text) (workers : ℕ) → PlanError

-- `(nil, nil)`, `(plan, nil)` and `(nil, err)`.
pub data Decision : Type 0 where
  not_needed : Decision
  split_over : Plan → Decision
  impossible : PlanError → Decision

pub largest_size : Text → List Model → ℕ → ℕ
unfolding same_model
largest_size model [] size = size
largest_size model (m ∷ ms) size =
    largest_size model ms (if same_model m.name model && ltb size m.size then m.size else size)

pub held_size : ℕ → Text → List NodeState → ℕ → ℕ
unfolding largest_size serves
held_size now model [] size = size
held_size now model (n ∷ ns) size =
    held_size now model ns (if serves now model n then largest_size model n.models size else size)

abbrev pub more_memory : NodeState → NodeState → Bool
more_memory a b = ltb b.resources.mem_available a.resources.mem_available

abbrev pub share : NodeState → ℕ
share n = usable n.resources.mem_available

-- uint64 addition.
abbrev pub add_u64 : ℕ → ℕ → ℕ
add_u64 a b = (a + b) % 2 ^ 64

-- The loop over the candidates, with `workers` and `capacity` as it leaves them.
pub recruit : ℕ → List NodeState → List NodeState → ℕ → List NodeState × ℕ
unfolding usable
recruit needed [] workers capacity = (workers, capacity)
recruit needed (n ∷ ns) workers capacity =
    let rest = recruit needed ns (workers ++ n ∷ []) (add_u64 capacity (share n)) in
    if leb needed capacity then (workers, capacity) else rest

-- The end of `PlanSplit`, once the loop is done.
pub conclude : Text → ℕ → ℕ → NodeState → List NodeState × ℕ → Decision
conclude model size needed driver (workers, capacity) =
    if ltb capacity needed
    then impossible
        (too_small model (needed / 2 ^ 30) (capacity / 2 ^ 30) driver.name (length workers))
    else split_over
        (record { driver = driver; workers = workers; model_size = size; need = needed })

module _ (slice : SliceSort NodeState) (now : ℕ) (nodes : List NodeState) (model : Text) where
  -- Largest memory first, the driver itself left out.
  pub candidates : NodeState → List NodeState
  unfolding eligible text_eq
  candidates driver =
      slice.sort more_memory
        (filter (λ n. eligible now n && n.split.worker && not (text_eq n.id driver.id)) nodes)

  pub split_from : ℕ → ℕ → List NodeState → Decision
  unfolding recruit conclude candidates
  split_from size needed [] = impossible (no_driver model (size / 2 ^ 30))
  split_from size needed (driver ∷ _) =
      conclude model size needed driver (recruit needed (candidates driver) [] (share driver))

  unfoldable pub plan_split : Decision
  unfolding held_size split_from need
  plan_split =
      let holders = filter (serves now model) nodes in
      let size = held_size now model nodes 0 in
      let needed = need size in
      let drivers = slice.sort more_memory (filter (λ n. n.split.driver) holders) in
      if length holders == 0 || size == 0
      then not_needed
      else if any (λ n. leb needed (share n)) holders
      then not_needed
      else split_from size needed drivers
