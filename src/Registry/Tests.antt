-- ===== src/Registry/Tests.antt =====
-- Runs of the registry, and its theorems at concrete inputs.
use potluck.Prelude.{ℕ, ◌*◌, ◌≡◌, refl, ◌↔◌, List, [], ◌∷◌, map, Mem, Text, bytes, none, some}
use potluck.Prelude.Sort.{IsSorted, insertion_sort, stable_slice_sort}
use potluck.Samples.{second, laptop, mini, desktop}
use potluck.Registry.{NodeState, Registry, new, upsert, touch, prune, before, snapshot, get}
use potluck.Registry.Laws.{IsValid}
use potluck.Registry.Refinement.{Call, upserts, touches, prunes, run, promises, run-promises}
use potluck.Registry.Snapshot.{snapshot_lists}

-- The laptop, which is the node itself, and two peers; one peer falls silent and is pruned.
abbrev history : List (ℕ × Call)
history =
    (100 * second, upserts laptop)
    ∷ (101 * second, upserts mini)
    ∷ (120 * second, upserts desktop)
    ∷ (130 * second, touches laptop.id)
    ∷ (150 * second, prunes (40 * second))
    ∷ []

abbrev met : Registry
met = record { nodes = (laptop.id, laptop) ∷ (mini.id, mini) ∷ (desktop.id, desktop) ∷ [] }

met-IsValid : IsValid met
unfolding get
met-IsValid = (refl, refl, (refl, refl, (refl, refl, tt)))

program : Unit {0}
unfolding insertion_sort run promises new upsert touch prune snapshot get
program = tt

history_keeps :
    get desktop.id (run history new) ≡ some (record desktop { updated_at = 120 * second })
unfolding program
history_keeps = refl

history_drops : get mini.id (run history new) ≡ none
unfolding program
history_drops = refl

sorted_names :
    map (λ (n : NodeState). n.name) (snapshot stable_slice_sort met)
    ≡ bytes "laptop" ∷ bytes "desktop" ∷ bytes "mini" ∷ []
unfolding program
sorted_names = refl

run-promises_example :
    IsValid (run history new)
    × ((j : Text) → get j (run history new) ≡ promises history (λ _. none) j)
run-promises_example = run-promises history

snapshot_lists_example :
    ((n : NodeState) → Mem n (snapshot stable_slice_sort met) ↔ (get n.id met ≡ some n))
    × IsSorted before (snapshot stable_slice_sort met)
snapshot_lists_example = snapshot_lists stable_slice_sort met met-IsValid
