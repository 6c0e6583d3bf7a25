-- ===== src/Scheduler/Tests.antt =====
-- Decisions on a small pool, and the scheduler's theorems at concrete inputs.
use mathlib.Core.List.{mem-cons_self, mem-cons_of_mem}
use native.Mathlib.Bridge.{le_prop}
use potluck.Split.{need, usable}
use potluck.Scheduler.Plan.Sizes.{IsModelSize, held_size-IsModelSize}
use potluck.Scheduler.Plan.Missed.{IsLoneWorker, IsAble, plan_split_misses}
use potluck.Prelude.{
  ◌<◌, All-mem, true, inl, inr, arith, ◌*◌, ◌≡◌, refl, ◌↔◌, ◌⊎◌, false, [], ◌∷◌, Mem, All, Text,
  bytes,
}
use potluck.Prelude.Results.{ok, err}
use potluck.Prelude.Sort.{insertion_sort, stable_slice_sort}
use potluck.Samples.{gib, model, second, small, big, laptop, mini, desktop, pool}
use potluck.Registry.{NodeState}
use potluck.Scheduler.{serves, pick, pool_models, pool_model_details}
use potluck.Scheduler.Pick.{IsPicked, pick_lem}
use potluck.Scheduler.Listing.{IsOffered, IsAscending, pool_models_lists}
use potluck.Scheduler.Collected.{names_of}
use potluck.Scheduler.Details.{IsHosted, pool_model_details_lists}
use potluck.Scheduler.Plan.{share, PlanError, impossible, split_over, plan_split}
use potluck.Scheduler.Plan.Spec.{FitsNowhere, IsJustified}
use potluck.Scheduler.Plan.Justified.{plan_split-IsJustified}

program : Unit {0}
unfolding pick pool_models pool_model_details plan_split insertion_sort
program = tt

-- Both the laptop and the desktop have the small model: the desktop has more memory.
first_choice : pick (101 * second) pool small ≡ ok desktop
unfolding program
first_choice = refl

-- Twenty seconds after the last update the node is stale.
nobody_fresh : pick (120 * second) pool small ≡ err (record { model = small; available = [] })
unfolding program
nobody_fresh = refl

pool_models_test :
    pool_models (101 * second) pool ≡ bytes "llama3.2:latest" ∷ bytes "llama3:70b" ∷ []
unfolding program
pool_models_test = refl

-- 50 GiB are needed: 6.4 from the laptop, 38.4 from the desktop and 12.8 from the mini.
plan_big :
    plan_split stable_slice_sort (101 * second) pool big
    ≡ split_over (record {
      driver = laptop;
      workers = desktop ∷ mini ∷ [];
      model_size = 42949672960;
      need = 53687091200;
    })
unfolding program
plan_big = refl

plan_split-IsJustified_example :
    IsJustified (101 * second) pool big (plan_split stable_slice_sort (101 * second) pool big)
plan_split-IsJustified_example = plan_split-IsJustified (101 * second) pool big stable_slice_sort

pick_lem_example :
    ((n : NodeState) × (pick (101 * second) pool small ≡ ok n)
      × IsPicked (101 * second) small pool n)
    ⊎ ((pick (101 * second) pool small
          ≡ err (record { model = small; available = pool_models (101 * second) pool }))
        × All (λ n. serves (101 * second) small n ≡ false) pool)
pick_lem_example = pick_lem (101 * second) pool small

pool_models_lists_example :
    ((t : Text) → Mem t (pool_models (101 * second) pool) ↔ IsOffered (101 * second) pool t)
    × IsAscending (pool_models (101 * second) pool)
pool_models_lists_example = pool_models_lists (101 * second) pool

pool_model_details_lists_example :
    (names_of (pool_model_details (101 * second) pool) ≡ pool_models (101 * second) pool)
    × All (IsHosted (101 * second) pool) (pool_model_details (101 * second) pool)
pool_model_details_lists_example = pool_model_details_lists (101 * second) pool

-- The laptop and the mini both hold a model of 9 GiB and can drive. Only the laptop has rpc-server.
abbrev wide : NodeState
wide = record laptop {
  models = model (bytes "wide") (9 * gib) ∷ [];
  resources = record laptop.resources { mem_available = 10 * gib };
  split = record laptop.split { worker = true; driver = true };
}

abbrev narrow : NodeState
narrow = record mini {
  models = model (bytes "wide") (9 * gib) ∷ [];
  resources = record mini.resources { mem_available = 9 * gib };
  split = record mini.split { worker = false; driver = true };
}

lone_worker : IsLoneWorker (101 * second) (wide ∷ narrow ∷ []) (bytes "wide") wide
unfolding program
lone_worker = record {
  listed = mem-cons_self;
  fresh = refl;
  able = refl;
  serving = refl;
  drives = refl;
  others = (inl refl, (inr (refl, inr (inr (omega arith))), tt));
}

wide-size : IsModelSize (101 * second) (bytes "wide") (wide ∷ narrow ∷ []) (9 * gib)
unfolding program
wide-size = held_size-IsModelSize (101 * second) (bytes "wide") (wide ∷ narrow ∷ [])

wide-FitsNowhere : FitsNowhere (101 * second) (wide ∷ narrow ∷ []) (bytes "wide") (need (9 * gib))
unfolding need usable
wide-FitsNowhere n at serving =
    All-mem (λ k. share k < need (9 * gib)) (wide ∷ narrow ∷ []) n (λ _. le_prop)
      (omega arith, (omega arith, tt)) at

plan_split_misses_example :
    ((e : PlanError) × (plan_split stable_slice_sort
          (101 * second)
          (wide ∷ narrow ∷ [])
          (bytes "wide")
        ≡ impossible e))
    × IsAble (101 * second) (wide ∷ narrow ∷ []) (bytes "wide") (record {
      driver = narrow;
      workers = wide ∷ [];
      model_size = 9 * gib;
      need = need (9 * gib);
    })
unfolding program need usable
plan_split_misses_example =
    plan_split_misses (101 * second) (wide ∷ narrow ∷ []) (bytes "wide") stable_slice_sort wide
      narrow (9 * gib) lone_worker wide-size (omega arith) wide-FitsNowhere
      (mem-cons_of_mem _ mem-cons_self) refl refl (λ e. cc) (omega arith)
