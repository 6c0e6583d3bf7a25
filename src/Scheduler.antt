-- ===== src/Scheduler.antt =====
-- internal/scheduler/scheduler.go: which node serves a request, and what the pool can serve.
pub mod Pick
pub mod Listing
pub mod Ascending
pub mod Collected
pub mod Details
pub mod Plan
mod Tests
use mathlib.Core.Bool.{beq}
use potluck.Prelude.{
  ℕ, ◌-◌, ◌*◌, ◌≡◌, Bool, ◌&&◌, List, [], ◌∷◌, ◌++◌, map, filter, any, Text, text_eq, text_lt, ltb,
  ◌==◌, if◌then◌else◌,
}
use potluck.Prelude.Int.{ltb_ℤ, eqb_ℤ}
use potluck.Prelude.Results.{Result, ok, err}
use potluck.Prelude.Sort.{insertion_sort}
use potluck.Registry.{Model, NodeState, has_model, has_loaded}

-- 20 seconds, in nanoseconds.
abbrev pub stale_after : ℕ
stale_after = 20 * 1000000000

pub record ErrNoNode : Type 0 where
  pub model : Text
  pub available : List Text

-- `time.Since` is the time passed since `updated_at`, read at `now`; a time ahead of the clock is
-- fresh, as in the source, where the difference is negative.
unfoldable pub eligible : ℕ → NodeState → Bool
eligible now n = n.sharing && n.ollama_ok && ltb (now - n.updated_at) stale_after

mark_models : List Model → List Text → List Text
unfolding text_eq
mark_models [] seen = seen
mark_models (m ∷ ms) seen =
    mark_models ms (if any (λ s. text_eq s m.name) seen then seen else m.name ∷ seen)

mark_nodes : ℕ → List NodeState → List Text → List Text
unfolding mark_models eligible
mark_nodes now [] seen = seen
mark_nodes now (n ∷ ns) seen =
    mark_nodes now ns (if eligible now n then mark_models n.models seen else seen)

unfoldable pub pool_models : ℕ → List NodeState → List Text
unfolding mark_nodes insertion_sort text_lt
pool_models now nodes = insertion_sort text_lt (mark_nodes now nodes [])

-- The comparison of `Pick`: loaded first, then fewest in flight, then most memory.
unfoldable pub better : Text → NodeState → NodeState → Bool
unfolding has_loaded
better model a b =
    let al = has_loaded a model in
    let bl = has_loaded b model in
    if beq al bl
    then (if eqb_ℤ a.active b.active
        then ltb b.resources.mem_available a.resources.mem_available
        else ltb_ℤ a.active b.active)
    else al

unfoldable pub serves : ℕ → Text → NodeState → Bool
unfolding eligible has_model
serves now model n = eligible now n && has_model n model

unfoldable pub pick : ℕ → List NodeState → Text → Result ErrNoNode NodeState
unfolding serves better insertion_sort pool_models
pick now nodes model = elim (insertion_sort (better model) (filter (serves now model) nodes)) [
  | [] ↦ err (record { model = model; available = pool_models now nodes })
  | n ∷ _ ↦ ok n
]

pub record ModelDetail : Type 0 where
  pub model : Model
  pub nodes : List Text

-- `byName[m.Name]`, created on first sight, with the node's name appended.
pub add_detail : Text → Model → List ModelDetail → List ModelDetail
unfolding text_eq
add_detail node m [] = record { model = m; nodes = node ∷ [] } ∷ []
add_detail node m (d ∷ ds) =
    if text_eq d.model.name m.name
    then record d { nodes = d.nodes ++ node ∷ [] } ∷ ds
    else d ∷ add_detail node m ds

pub add_models : Text → List Model → List ModelDetail → List ModelDetail
unfolding add_detail
add_models node [] ds = ds
add_models node (m ∷ ms) ds = add_models node ms (add_detail node m ds)

pub add_nodes : ℕ → List NodeState → List ModelDetail → List ModelDetail
unfolding add_models eligible
add_nodes now [] ds = ds
add_nodes now (n ∷ ns) ds =
    add_nodes now ns (if eligible now n then add_models n.name n.models ds else ds)

unfoldable pub pool_model_details : ℕ → List NodeState → List ModelDetail
unfolding add_nodes insertion_sort text_lt
pool_model_details now nodes =
    insertion_sort (λ a b. text_lt a.model.name b.model.name)
      (map (λ (d : ModelDetail). record d { nodes = insertion_sort text_lt d.nodes })
        (add_nodes now nodes []))
