-- ===== src/Agent/Pooled.antt =====
-- agent.go, `handlePool`: the sums over the nodes that the dashboard shows.
use potluck.Prelude.{
  ℕ, ◌+◌, ◌-◌, ◌%◌, ◌^◌, ◌<◌, ◌≡◌, refl, ap, ◌∙◌, Bool, true, false, List, [], ◌∷◌, length, filter,
  ltb, if◌then◌else◌, arith,
}
use potluck.Prelude.Sort.{SliceSort}
use potluck.Registry.{NodeState, snapshot}
use potluck.Scheduler.{stale_after, pool_models, pool_model_details}
use potluck.Scheduler.Collected.{names_of}
use potluck.Scheduler.Details.{pool_model_details_lists}
use potluck.Agent.{Agent, PoolView, count_node, count_nodes, handle_pool}

-- Heard of within the last twenty seconds, whether it shares or not.
abbrev pub fresh_nodes : ℕ → List NodeState → List NodeState
fresh_nodes now = filter (λ (n : NodeState). ltb (now - n.updated_at) stale_after)

abbrev pub sum_of : (NodeState → ℕ) → List NodeState → ℕ
sum_of f [] = 0
sum_of f (n ∷ ns) = f n + sum_of f ns

abbrev pub total_of : NodeState → ℕ
total_of n = n.resources.mem_total

abbrev pub available_of : NodeState → ℕ
available_of n = n.resources.mem_available

-- What a view has become once these nodes have been counted.
record IsCounted (fs : List NodeState) (v r : PoolView) : Type 0 where
  online : r.online_nodes ≡ v.online_nodes + length fs
  all_mem : r.total_mem ≡ (v.total_mem + sum_of total_of fs) % 2 ^ 64
  free_mem : r.available_mem ≡ (v.available_mem + sum_of available_of fs) % 2 ^ 64
  same_nodes : r.nodes ≡ v.nodes
  same_models : r.models ≡ v.models

abbrev Fits : PoolView → Type 0
Fits v = (v.total_mem < 2 ^ 64) × (v.available_mem < 2 ^ 64)

count_node-IsCounted :
    (n : NodeState) (fs : List NodeState) (v r : PoolView)
    → IsCounted fs (count_node n v) r
    → IsCounted (n ∷ fs) v r
unfolding count_node
count_node-IsCounted n fs v r c = record {
  online = omega (arith, c.online);
  all_mem = omega (arith, c.all_mem);
  free_mem = omega (arith, c.free_mem);
  same_nodes = c.same_nodes;
  same_models = c.same_models;
}

count_node-Fits : (n : NodeState) (v : PoolView) → Fits (count_node n v)
unfolding count_node
count_node-Fits n v = (omega arith, omega arith)

-- One round, by whether the node is fresh.
IsCounted-next :
    (n : NodeState) (fs : List NodeState) (v : PoolView) (rest : PoolView → PoolView)
    → ((u : PoolView) → Fits u → IsCounted fs u (rest u))
    → Fits v
    → (b : Bool) → IsCounted (if b then n ∷ fs else fs) v (rest (if b then count_node n v else v))
IsCounted-next n fs v rest counts fits true =
    count_node-IsCounted n fs v (rest (count_node n v))
      (counts (count_node n v) (count_node-Fits n v))
IsCounted-next n fs v rest counts fits false = counts v fits

count_nodes-IsCounted :
    (now : ℕ) (ns : List NodeState) (v : PoolView)
    → Fits v
    → IsCounted (fresh_nodes now ns) v (count_nodes now ns v)
unfolding count_nodes
count_nodes-IsCounted now [] v fits = record {
  online = omega arith;
  all_mem = omega (arith, fits.0);
  free_mem = omega (arith, fits.1);
  same_nodes = refl;
  same_models = refl;
}
count_nodes-IsCounted now (n ∷ ns) v fits =
    IsCounted-next n (fresh_nodes now ns) v (count_nodes now ns) (count_nodes-IsCounted now ns) fits
      (ltb (now - n.updated_at) stale_after)

-- What the dashboard is to show of the nodes of a snapshot.
pub record IsPooled (now : ℕ) (nodes : List NodeState) (v : PoolView) : Type 0 where
  pub shown : v.nodes ≡ nodes
  pub online : v.online_nodes ≡ length (fresh_nodes now nodes)
  pub all_mem : v.total_mem ≡ sum_of total_of (fresh_nodes now nodes) % 2 ^ 64
  pub free_mem : v.available_mem ≡ sum_of available_of (fresh_nodes now nodes) % 2 ^ 64
  pub listed : names_of v.models ≡ pool_models now nodes

-- `handlePool` shows every node of the snapshot, counts those that were heard of within twenty seconds
-- and sums up their memory, as a uint64 wraps, and lists the models that `PoolModels` lists.
pub handle_pool-IsPooled :
    (slice : SliceSort NodeState) (now : ℕ) (a : Agent)
    → IsPooled now (snapshot slice a.reg) (handle_pool slice now a)
unfolding handle_pool
handle_pool-IsPooled slice now a =
    let nodes = snapshot slice a.reg in
    let c =
      count_nodes-IsCounted now nodes
        (record {
          pool = a.cfg.pool;
          self = a.id;
          nodes = nodes;
          models = pool_model_details now nodes;
          requests = a.gateway.history;
          total_mem = 0;
          available_mem = 0;
          online_nodes = 0;
        })
        (omega arith, omega arith) in
    record {
      shown = c.same_nodes;
      online = c.online ∙ omega arith;
      all_mem = c.all_mem ∙ (ap (λ m. m % 2 ^ 64) (omega arith));
      free_mem = c.free_mem ∙ (ap (λ m. m % 2 ^ 64) (omega arith));
      listed = ap names_of c.same_models ∙ (pool_model_details_lists now nodes).0;
    }
