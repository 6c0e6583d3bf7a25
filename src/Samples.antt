-- ===== src/Samples.antt =====
-- Small pools for the tests: a laptop, a desktop and a mini, on one network.
use potluck.Prelude.{ℕ, ◌*◌, ◌^◌, Bool, true, false, List, [], ◌∷◌, Text, bytes}
use potluck.Prelude.Int.{pos}
use potluck.Split.{ready}
use potluck.Split.Pipeline.{Manager}
use potluck.Registry.{Resources, Model, SplitState, NodeState}

abbrev pub gib : ℕ
gib = 2 ^ 30

abbrev pub second : ℕ
second = 1000000000

abbrev resources : ℕ → Resources
resources available = record {
  hostname = bytes "host";
  os = bytes "linux";
  arch = bytes "amd64";
  cpu_model = bytes "cpu";
  num_cpu = pos 8;
  mem_total = 64 * gib;
  mem_available = available;
  gpus = [];
}

abbrev pub model : Text → ℕ → Model
model name size = record { name = name; size = size; family = []; parameters = []; quant = [] }

abbrev split_state : Bool → Bool → SplitState
split_state worker driver = record {
  worker = worker;
  driver = driver;
  rpc_port = pos 50752;
  rpc_running = false;
  pipelines = [];
}

abbrev node : Text → ℕ → List Model → Bool → Bool → Bool → NodeState
node name available models worker driver self = record {
  id = name;
  name = name;
  version = bytes "dev";
  pool = bytes "default";
  addr = bytes "10.0.0.1:11444";
  sharing = true;
  resources = resources available;
  ollama_ok = true;
  ollama_version = bytes "0.5";
  models = models;
  loaded = [];
  active = pos 0;
  total_served = 0;
  split = split_state worker driver;
  updated_at = 100 * second;
  self = self;
}

abbrev pub small : Text
small = bytes "llama3.2"

abbrev pub big : Text
big = bytes "llama3:70b"

abbrev pub laptop : NodeState
laptop =
    node (bytes "laptop") (8 * gib)
      (model (bytes "llama3.2:latest") (2 * gib) ∷ model big (40 * gib) ∷ []) false true true

abbrev pub desktop : NodeState
desktop =
    node (bytes "desktop") (48 * gib) (model (bytes "llama3.2:latest") (2 * gib) ∷ []) true false
      false

abbrev pub mini : NodeState
mini = node (bytes "mini") (16 * gib) [] true false false

abbrev pub pool : List NodeState
pool = laptop ∷ mini ∷ desktop ∷ []

-- A manager whose only pipeline has just become ready.
abbrev pub served : Manager
served = record {
  bin = bytes "/usr/bin/llama-server";
  base_port = 50800;
  pipelines =
      (
        big,
        record {
          info = record {
            model = big;
            state = ready;
            workers = bytes "10.0.0.2:50752" ∷ [];
            started_at = 100 * second;
            last_used = 100 * second;
            error_text = [];
          };
          port = 50801;
          cmd = 0;
        },
      )
      ∷ [];
  running = 0 ∷ [];
  next_cmd = 1;
}
