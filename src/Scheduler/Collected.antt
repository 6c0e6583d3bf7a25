-- ===== src/Scheduler/Collected.antt =====
-- scheduler.go: what the loops of `PoolModelDetails` collect, before it is sorted.
use mathlib.Core.List.{Nodup-cons, Nodup-nil, append_assoc, append-nil, not-mem-nil}
use potluck.Prelude.{
  ℕ, ◌≡◌, refl, sym, ap, ◌∙◌, inl, inr, true, false, ◌&&◌, ◌||◌, List, [], ◌∷◌, ◌++◌, map, filter,
  Mem, Nodup, any, Text, text_eq, text_eq_iff, Bool-cases, arith, if◌then◌else◌, if_cases,
}
use potluck.Registry.{Model, NodeState}
use potluck.Scheduler.{eligible, ModelDetail, add_detail, add_models, add_nodes}
use potluck.Scheduler.Listing.{has, has_iff, names}

-- The names of the models described, in order.
abbrev pub names_of : List ModelDetail → List Text
names_of = map (λ (d : ModelDetail). d.model.name)

-- The node, once for each of the models of this name that it has pulled.
abbrev pub hosted : Text → Text → List Model → List Text
hosted t node ms = map (λ (m : Model). node) (filter (λ (m : Model). text_eq m.name t) ms)

-- The names of the eligible nodes that have pulled a model of this name, in the order of the nodes.
abbrev pub hosts : ℕ → Text → List NodeState → List Text
hosts now t [] = []
hosts now t (n ∷ ns) = (if eligible now n then hosted t n.name n.models else []) ++ hosts now t ns

-- The nodes of the first detail of this name.
abbrev pub nodes_of : Text → List ModelDetail → List Text
nodes_of t [] = []
nodes_of t (d ∷ ds) = if text_eq d.model.name t then d.nodes else nodes_of t ds

has-add_detail :
    (node : Text) (m : Model) (ds : List ModelDetail) (t : Text)
    → has t (names_of (add_detail node m ds)) ≡ (text_eq m.name t || has t (names_of ds))
unfolding add_detail
has-add_detail node m [] t = ground arith
has-add_detail node m (d ∷ ds) t =
    ground (arith, text_eq_iff d.model.name m.name, has-add_detail node m ds t)

fresh_name :
    (d : ModelDetail) (node : Text) (m : Model) (ds : List ModelDetail)
    → text_eq d.model.name m.name ≡ false
    → ¬ Mem d.model.name (names_of ds)
    → ¬ Mem d.model.name (names_of (add_detail node m ds))
fresh_name d node m ds other fresh h =
    let seen : has d.model.name (names_of (add_detail node m ds)) ≡ true =
      (has_iff d.model.name (names_of (add_detail node m ds))).1 h in
    let back : has d.model.name (names_of ds) ≡ true → ⊥ =
      λ e. fresh ((has_iff d.model.name (names_of ds)).0 e) in
    ground (
      arith,
      has-add_detail node m ds d.model.name,
      text_eq_iff m.name d.model.name,
      text_eq_iff d.model.name m.name,
    )

add_detail-Nodup :
    (node : Text) (m : Model) (ds : List ModelDetail)
    → Nodup (names_of ds)
    → Nodup (names_of (add_detail node m ds))
unfolding add_detail
add_detail-Nodup node m [] distinct = Nodup-cons.1 (not-mem-nil, Nodup-nil)
add_detail-Nodup node m (d ∷ ds) distinct = elim (Bool-cases (text_eq d.model.name m.name)) [
  | inl same ↦ rw same distinct
  | inr other ↦ rw other (
      Nodup-cons.1 (
        fresh_name d node m ds other (Nodup-cons.0 distinct).0,
        add_detail-Nodup node m ds (Nodup-cons.0 distinct).1,
      ))
]

nodes_of-add_detail :
    (node : Text) (m : Model) (ds : List ModelDetail) (t : Text)
    → nodes_of t (add_detail node m ds) ≡ nodes_of t ds ++ hosted t node (m ∷ [])
unfolding add_detail
nodes_of-add_detail node m [] t = ground arith
nodes_of-add_detail node m (d ∷ ds) t = ground (
  arith,
  text_eq_iff d.model.name m.name,
  text_eq_iff d.model.name t,
  text_eq_iff m.name t,
  nodes_of-add_detail node m ds t,
  append-nil d.nodes,
  append-nil (nodes_of t ds),
)

hosted-cons :
    (t node : Text) (m : Model) (ms : List Model)
    → hosted t node (m ∷ []) ++ hosted t node ms ≡ hosted t node (m ∷ ms)
hosted-cons t node m ms = ground arith

nodes_of-add_models :
    (node : Text) (ms : List Model) (ds : List ModelDetail) (t : Text)
    → nodes_of t (add_models node ms ds) ≡ nodes_of t ds ++ hosted t node ms
unfolding add_models
nodes_of-add_models node [] ds t = sym (append-nil (nodes_of t ds))
nodes_of-add_models node (m ∷ ms) ds t =
    nodes_of-add_models node ms (add_detail node m ds) t
    ∙ ap (λ l. l ++ hosted t node ms) (nodes_of-add_detail node m ds t)
    ∙ append_assoc (nodes_of t ds) (hosted t node (m ∷ [])) (hosted t node ms)
    ∙ ap (◌++◌ (nodes_of t ds)) (hosted-cons t node m ms)

pub nodes_of-add_nodes :
    (now : ℕ) (ns : List NodeState) (ds : List ModelDetail) (t : Text)
    → nodes_of t (add_nodes now ns ds) ≡ nodes_of t ds ++ hosts now t ns
unfolding add_nodes
nodes_of-add_nodes now [] ds t = sym (append-nil (nodes_of t ds))
nodes_of-add_nodes now (n ∷ ns) ds t = elim (Bool-cases (eligible now n)) [
  | inl yes' ↦ rw yes' (
      nodes_of-add_nodes now ns (add_models n.name n.models ds) t
      ∙ ap (λ l. l ++ hosts now t ns) (nodes_of-add_models n.name n.models ds t)
      ∙ append_assoc (nodes_of t ds) (hosted t n.name n.models) (hosts now t ns))
  | inr no' ↦ rw no' (nodes_of-add_nodes now ns ds t)
]

has-add_models :
    (node : Text) (ms : List Model) (ds : List ModelDetail) (t : Text)
    → has t (names_of (add_models node ms ds))
      ≡ (any (λ m. text_eq m.name t) ms || has t (names_of ds))
unfolding add_models
has-add_models node [] ds t = refl
has-add_models node (m ∷ ms) ds t =
    ground (arith, has-add_models node ms (add_detail node m ds) t, has-add_detail node m ds t)

pub has-add_nodes :
    (now : ℕ) (ns : List NodeState) (ds : List ModelDetail) (t : Text)
    → has t (names_of (add_nodes now ns ds))
      ≡ (any (λ n. eligible now n && names n t) ns || has t (names_of ds))
unfolding add_nodes
has-add_nodes now [] ds t = refl
has-add_nodes now (n ∷ ns) ds t = ground (
  arith,
  has-add_nodes now ns ds t,
  has-add_nodes now ns (add_models n.name n.models ds) t,
  has-add_models n.name n.models ds t,
)

add_models-Nodup :
    (node : Text) (ms : List Model) (ds : List ModelDetail)
    → Nodup (names_of ds)
    → Nodup (names_of (add_models node ms ds))
unfolding add_models
add_models-Nodup node [] ds distinct = distinct
add_models-Nodup node (m ∷ ms) ds distinct =
    add_models-Nodup node ms (add_detail node m ds) (add_detail-Nodup node m ds distinct)

pub add_nodes-Nodup :
    (now : ℕ) (ns : List NodeState) (ds : List ModelDetail)
    → Nodup (names_of ds)
    → Nodup (names_of (add_nodes now ns ds))
unfolding add_nodes
add_nodes-Nodup now [] ds distinct = distinct
add_nodes-Nodup now (n ∷ ns) ds distinct =
    add_nodes-Nodup now ns (if eligible now n then add_models n.name n.models ds else ds) (
      if_cases (λ l. Nodup (names_of l)) (eligible now n) _ _
        (λ _. add_models-Nodup n.name n.models ds distinct) (λ _. distinct))
