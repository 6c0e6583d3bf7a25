-- ===== src/Scheduler/Plan/Spec.antt =====
-- splitplan.go: what makes each decision of `PlanSplit` right.
use potluck.Prelude.{ℕ, ◌/◌, ◌^◌, ◌≡◌, ◌≢◌, ◌⊎◌, ◌≤◌, ◌<◌, true, false, List, Mem, length, Text}
use potluck.Registry.{NodeState}
use potluck.Scheduler.{eligible, serves}
use potluck.Scheduler.Plan.{
  Plan, PlanError, no_driver, too_small, Decision, not_needed, split_over, impossible, share,
}
use potluck.Scheduler.Plan.Sizes.{IsModelSize}
use potluck.Scheduler.Plan.Recruits.{total_u64, total, IsLean}
use potluck.Split.{need}

module _ (now : ℕ) (nodes : List NodeState) (model : Text) where
  -- No serving node could run the model alone.
  abbrev pub FitsNowhere : ℕ → Type 0
  FitsNowhere needed = (n : NodeState) → Mem n nodes → serves now model n ≡ true → share n < needed

  -- A serving node with llama-server, and none such has more free memory.
  pub record IsDriver (driver : NodeState) : Type 0 where
    pub listed : Mem driver nodes
    pub serving : serves now model driver ≡ true
    pub able : driver.split.driver ≡ true
    pub largest :
        (n : NodeState)
        → Mem n nodes
        → serves now model n ≡ true
        → n.split.driver ≡ true
        → n.resources.mem_available ≤ driver.resources.mem_available

  -- An eligible node with rpc-server, other than the driver.
  pub record IsWorker (driver n : NodeState) : Type 0 where
    pub listed : Mem n nodes
    pub fresh : eligible now n ≡ true
    pub able : n.split.worker ≡ true
    pub other : n.id ≢ driver.id

  -- What makes a plan right.
  pub record IsPlan (p : Plan) : Type 0 where
    pub size : IsModelSize now model nodes p.model_size
    pub needed : p.need ≡ need p.model_size
    pub too_big : FitsNowhere p.need
    pub driver : IsDriver p.driver
    pub workers : (n : NodeState) → Mem n p.workers → IsWorker p.driver n
    pub enough : p.need ≤ total (share p.driver) p.workers
    pub lean : IsLean p.need (share p.driver) p.workers

  -- Why no plan was made: nobody can drive, or the largest driver and all nodes that could be its workers
  -- add up to too little, as uint64s. It is not said that no other driver would do.
  pub data IsRefused : PlanError → Type 0 where
    nobody_drives :
        (size : ℕ)
        → IsModelSize now model nodes size
        → FitsNowhere (need size)
        → ((n : NodeState) → Mem n nodes → serves now model n ≡ true → n.split.driver ≡ false)
        → IsRefused (no_driver model (size / 2 ^ 30))
    largest_too_small :
        (size : ℕ) (driver : NodeState) (workers : List NodeState)
        → IsModelSize now model nodes size
        → FitsNowhere (need size)
        → IsDriver driver
        → ((n : NodeState) → IsWorker driver n → Mem n workers)
        → total_u64 (share driver) workers < need size
        → IsRefused (
            too_small model
              (need size / 2 ^ 30)
              (total_u64 (share driver) workers / 2 ^ 30)
              driver.name
              (length workers))

  -- Why no split is needed: the model is unknown, or some node runs it whole.
  abbrev pub NeedsNoSplit : Type 0
  NeedsNoSplit =
      ((n : NodeState) → Mem n nodes → serves now model n ≡ false)
      ⊎ (IsModelSize now model nodes 0
          ⊎ ((size : ℕ) × IsModelSize now model nodes size
              × (n : NodeState) × Mem n nodes
              × (serves now model n ≡ true)
              × (need size ≤ share n)))

  abbrev pub IsJustified : Decision → Type 0
  IsJustified not_needed = NeedsNoSplit
  IsJustified (split_over p) = IsPlan p
  IsJustified (impossible e) = IsRefused e
