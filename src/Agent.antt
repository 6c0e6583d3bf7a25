-- ===== src/Agent.antt =====
-- internal/agent/agent.go: the agent's state, the loops that keep it and what it reports of itself.
pub mod Identity
pub mod Drive
pub mod Serve
pub mod Steps
pub mod Pooled
mod Tests
use potluck.Prelude.{
  ℕ, suc, ◌+◌, ◌-◌, ◌*◌, ◌%◌, ◌^◌, Bool, true, false, not, List, [], ◌∷◌, ◌++◌, length, Text, bytes,
  text_eq, split_on, ltb, ◌==◌, if◌then◌else◌, Option, none, some,
}
use potluck.Prelude.Decimal.{decimal}
use potluck.Prelude.Dict.{store}
use potluck.Prelude.Int.{ℤ}
use potluck.Prelude.Sort.{SliceSort}
use potluck.Discovery.{PeerHint}
use potluck.Gateway.{Gateway, RequestRecord, new_gateway}
use potluck.Registry.{Registry, NodeState, new, upsert, prune, snapshot, get}
use potluck.Resources.{Machine, collect, OllamaState, Fetch}
use potluck.Scheduler.{stale_after, ModelDetail, pool_model_details}
use potluck.Split.{Binaries, detect}
use potluck.Split.Pipeline.{Manager, new_manager, available, infos}
use potluck.Split.Worker.{Worker, new_worker, installed, is_running}

pub record Config : Type 0 where
  pub name : Text
  pub port : ℕ
  pub ollama_url : Text
  pub pool : Text
  pub token : Text
  pub share : Bool
  pub version : Text
  pub rpc_server_bin : Text
  pub llama_server_bin : Text
  pub rpc_port : ℕ
  pub ctx_size : ℕ
  pub models_dir : Text

-- The addresses are those of the peers that mDNS has found, by ID.
pub record Agent : Type 0 where
  pub cfg : Config
  pub id : Text
  pub reg : Registry
  pub gateway : Gateway
  pub addrs : List (Text × Text)
  pub bins : Binaries
  pub worker : Worker
  pub pipelines : Manager

abbrev first_part : List Text → Text
first_part [] = []
first_part (part ∷ parts) = part

-- The name given, or the first part of the host name, or "node".
pub node_name : Option Text → Text → Text
unfolding split_on
node_name hostname name =
    if length name == 0
    then (elim hostname [ none ↦ bytes "node" | some h ↦ first_part (split_on b'.' h) ])
    else name

-- The gateway's base is the URL as given, not as `url.URL.String` prints the parsed one.
pub build_agent : (Text → Option Text) → Option Text → Text → Config → Agent
unfolding node_name new_gateway detect new_worker new_manager new
build_agent look_path hostname id cfg =
    let bins = detect look_path cfg.rpc_server_bin cfg.llama_server_bin in
    record {
      cfg = record cfg { name = node_name hostname cfg.name };
      id = id;
      reg = new;
      gateway = new_gateway id cfg.ollama_url cfg.token;
      addrs = [];
      bins = bins;
      worker = new_worker bins.rpc_server cfg.rpc_port;
      pipelines = new_manager bins.llama_server 11500;
    }

-- `id` is what `loadOrCreateID` answers, and `valid` whether Ollama's URL can be parsed.
unfoldable pub new_agent :
    (Text → Option Text) → Option Text → Option Text → Bool → Config → Option Agent
unfolding build_agent
new_agent look_path hostname none valid cfg = none
new_agent look_path hostname (some id) valid cfg =
    if valid then some (build_agent look_path hostname id cfg) else none

-- What the node says of itself.
pub own_state : Machine → OllamaState → Agent → NodeState
unfolding collect decimal available infos is_running
own_state machine ollama a =
    let res = collect machine in
    record {
      id = a.id;
      name = a.cfg.name;
      version = a.cfg.version;
      pool = a.cfg.pool;
      addr = res.hostname ++ b':' ∷ decimal a.cfg.port;
      sharing = a.cfg.share;
      resources = res;
      ollama_ok = ollama.ok;
      ollama_version = ollama.version;
      models = ollama.models;
      loaded = ollama.loaded;
      active = a.gateway.active;
      total_served = a.gateway.total_served;
      split = record {
        worker = installed a.worker;
        driver = available a.pipelines;
        rpc_port = ℤ.pos a.cfg.rpc_port;
        rpc_running = is_running a.worker;
        pipelines = infos a.pipelines;
      };
      updated_at = 0;
      self = true;
    }

unfoldable pub refresh_self : ℕ → Machine → OllamaState → Agent → Agent
unfolding own_state upsert
refresh_self now machine ollama a = record a { reg = upsert now (own_state machine ollama a) a.reg }

unfoldable pub collect_hint : PeerHint → Agent → Agent
unfolding store
collect_hint h a = record a { addrs = store h.id h.addr a.addrs }

-- The answer of one peer and the time at which it came.
abbrev pub Answers : Type 0
Answers = Text → Option (ℕ × NodeState)

unfoldable pub fetch_state : Fetch → (Text → Option NodeState) → Text → Option NodeState
fetch_state fetch decode addr = elim (fetch (bytes "http://" ++ addr ++ bytes "/api/state")) [
  | none ↦ none
  | some (status, body) ↦ if status == 200 then decode body else none
]

-- The address that was reached takes the place of the one that the peer states.
pub learn : Text → Option (ℕ × NodeState) → Agent → Agent
unfolding upsert
learn addr none a = a
learn addr (some (now, st)) a = record a {
  reg = upsert now (record st { self = false; addr = addr }) a.reg;
}

-- The loop over the targets. Go visits the copied map in some order, which is that of the list.
unfoldable pub poll_each : Answers → List (Text × Text) → Agent → Agent
unfolding learn text_eq
poll_each answers [] a = a
poll_each answers ((id, addr) ∷ targets) a =
    poll_each answers targets (if text_eq id a.id then a else learn addr (answers addr) a)

unfoldable pub prune_peers : ℕ → Agent → Agent
unfolding prune
prune_peers now a = record a { reg = (prune now (stale_after * 2) a.reg).0 }

-- `none` is the answer 503: the state is not ready.
unfoldable pub handle_state : Agent → Option NodeState
unfolding get
handle_state a = get a.id a.reg

pub record PoolView : Type 0 where
  pub pool : Text
  pub self : Text
  pub nodes : List NodeState
  pub models : List ModelDetail
  pub requests : List RequestRecord
  pub total_mem : ℕ
  pub available_mem : ℕ
  pub online_nodes : ℕ

abbrev add_u64 : ℕ → ℕ → ℕ
add_u64 a b = (a + b) % 2 ^ 64

unfoldable pub count_node : NodeState → PoolView → PoolView
count_node n v = record v {
  online_nodes = v.online_nodes + 1;
  total_mem = add_u64 v.total_mem n.resources.mem_total;
  available_mem = add_u64 v.available_mem n.resources.mem_available;
}

-- The loop over the nodes: those that are fresh are counted.
unfoldable pub count_nodes : ℕ → List NodeState → PoolView → PoolView
unfolding count_node
count_nodes now [] v = v
count_nodes now (n ∷ ns) v =
    count_nodes now ns (if ltb (now - n.updated_at) stale_after then count_node n v else v)

unfoldable pub handle_pool : SliceSort NodeState → ℕ → Agent → PoolView
unfolding count_nodes snapshot pool_model_details
handle_pool slice now a =
    let nodes = snapshot slice a.reg in
    count_nodes now nodes (record {
      pool = a.cfg.pool;
      self = a.id;
      nodes = nodes;
      models = pool_model_details now nodes;
      requests = a.gateway.history;
      total_mem = 0;
      available_mem = 0;
      online_nodes = 0;
    })
