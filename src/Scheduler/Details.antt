-- ===== src/Scheduler/Details.antt =====
-- scheduler.go: `PoolModelDetails` describes the models that `PoolModels` lists, in the same order.
use mathlib.Core.List.Perm
use mathlib.Core.List.{Nodup-cons, Nodup-nil}
use potluck.Prelude.{
  ℕ, ◌≡◌, refl, sym, ap, ◌∙◌, true, false, List, [], ◌∷◌, map, Nodup, All, All-mem, All_of_mem,
  All_map, All-map, Text, text_eq, text_eq_iff, text_eq_refl, text_lt, arith,
}
use potluck.Prelude.Sort.{
  insertion_sort, insertion_sort-perm, insertion_sort-IsSorted, map-insertion_sort,
}
use potluck.Registry.{NodeState}
use potluck.Scheduler.{pool_models, ModelDetail, add_nodes, pool_model_details}
use potluck.Scheduler.Listing.{
  IsSorted→IsAscending, text_lt-IsLess, has, has_iff, has-pool_models, has-perm, pool_models_lists,
}
use potluck.Scheduler.Ascending.{ascending_unique}
use potluck.Scheduler.Collected.{
  names_of, hosts, nodes_of, nodes_of-add_nodes, has-add_nodes, add_nodes-Nodup,
}

-- The details before they are sorted, with their nodes sorted.
abbrev described : ℕ → List NodeState → List ModelDetail
described now nodes =
    map (λ (d : ModelDetail). record d { nodes = insertion_sort text_lt d.nodes })
      (add_nodes now nodes [])

names_of-map :
    (f : List Text → List Text) (ds : List ModelDetail)
    → names_of (map (λ (d : ModelDetail). record d { nodes = f d.nodes }) ds) ≡ names_of ds
names_of-map f [] = refl
names_of-map f (d ∷ ds) = ap (◌∷◌ d.model.name) (names_of-map f ds)

names_of-details :
    (now : ℕ) (nodes : List NodeState)
    → names_of (pool_model_details now nodes)
      ≡ insertion_sort text_lt (names_of (add_nodes now nodes []))
unfolding pool_model_details
names_of-details now nodes =
    map-insertion_sort (λ (d : ModelDetail). d.model.name) text_lt (described now nodes)
    ∙ ap (insertion_sort text_lt) (names_of-map (insertion_sort text_lt) (add_nodes now nodes []))

names_same :
    (now : ℕ) (nodes : List NodeState)
    → names_of (pool_model_details now nodes) ≡ pool_models now nodes
names_same now nodes =
    let raw = names_of (add_nodes now nodes []) in
    let same = insertion_sort-perm text_lt raw in
    names_of-details now nodes
    ∙ ascending_unique (insertion_sort text_lt raw) (pool_models now nodes)
        (IsSorted→IsAscending (insertion_sort text_lt raw)
          (Perm.nodup (Perm.symm same) (add_nodes-Nodup now nodes [] Nodup-nil))
          (insertion_sort-IsSorted text_lt text_lt-IsLess raw))
        (pool_models_lists now nodes).1
        (λ t.
          has-perm t same
          ∙ has-add_nodes now nodes [] t
          ∙ (ground (arith, has-pool_models now nodes t)))

other_names :
    (t : Text) (ds : List ModelDetail)
    → has t (names_of ds) ≡ false
    → All (λ (d : ModelDetail). text_eq t d.model.name ≡ false) ds
other_names t [] h = tt
other_names t (d ∷ ds) h = (
  ground (arith, text_eq_iff d.model.name t, text_eq_iff t d.model.name),
  other_names t ds (ground arith),
)

behind :
    (d : ModelDetail) (ds ks : List ModelDetail)
    → All (λ (k : ModelDetail). text_eq d.model.name k.model.name ≡ false) ks
    → All (λ (k : ModelDetail). nodes_of k.model.name ds ≡ k.nodes) ks
    → All (λ (k : ModelDetail). nodes_of k.model.name (d ∷ ds) ≡ k.nodes) ks
behind d ds [] other h = tt
behind d ds (k ∷ ks) other h = (rw other.0 h.0, behind d ds ks other.1 h.1)

-- Where no name stands twice, a detail is the first of its name.
nodes_of-All :
    (ds : List ModelDetail)
    → Nodup (names_of ds)
    → All (λ (d : ModelDetail). nodes_of d.model.name ds ≡ d.nodes) ds
nodes_of-All [] distinct = tt
nodes_of-All (d ∷ ds) distinct =
    let seen : has d.model.name (names_of ds) ≡ true → ⊥ =
      λ h. (Nodup-cons.0 distinct).0 ((has_iff d.model.name (names_of ds)).0 h) in
    (
      rw (text_eq_refl d.model.name) refl,
      behind d ds ds (other_names d.model.name ds (ground arith))
          (nodes_of-All ds (Nodup-cons.0 distinct).1),
    )

-- The nodes of a detail are those that host its model, sorted.
abbrev pub IsHosted : ℕ → List NodeState → ModelDetail → Type 0
IsHosted now nodes d = d.nodes ≡ insertion_sort text_lt (hosts now d.model.name nodes)

IsHosted-prop : (now : ℕ) (nodes : List NodeState) (d : ModelDetail) → IsProp (IsHosted now nodes d)
IsHosted-prop now nodes d = hlevel

described-IsHosted :
    (now : ℕ) (nodes : List NodeState) → All (IsHosted now nodes) (described now nodes)
described-IsHosted now nodes = All-map (IsHosted now nodes) _ (add_nodes now nodes []) (
    All_map _ _ (add_nodes now nodes [])
      (λ d e. ap (insertion_sort text_lt) (sym e ∙ nodes_of-add_nodes now nodes [] d.model.name))
      (nodes_of-All (add_nodes now nodes []) (add_nodes-Nodup now nodes [] Nodup-nil)))

-- `PoolModelDetails` describes exactly the models that `PoolModels` lists, each once and in the same
-- order, and names with each the eligible nodes that have pulled it, in order, a node as often as it
-- has a model of that name.
pub pool_model_details_lists :
    (now : ℕ) (nodes : List NodeState)
    → (names_of (pool_model_details now nodes) ≡ pool_models now nodes)
      × All (IsHosted now nodes) (pool_model_details now nodes)
unfolding pool_model_details
pool_model_details_lists now nodes =
    let sorted =
      insertion_sort-perm (λ a b. text_lt a.model.name b.model.name) (described now nodes) in
    (
      names_same now nodes,
      All_of_mem (IsHosted now nodes) (pool_model_details now nodes) (λ d m.
          All-mem (IsHosted now nodes) (described now nodes) d (IsHosted-prop now nodes)
            (described-IsHosted now nodes) (Perm.subset sorted d m)),
    )
