-- ===== src/Agent/Drive.antt =====
-- internal/agent/split.go: a node drives a pipeline over the peers that it recruits.
pub mod Local
use potluck.Prelude.{
  ℕ, Bool, true, false, not, ◌&&◌, List, [], ◌∷◌, ◌++◌, length, Text, bytes, ◌==◌, if◌then◌else◌,
  Option, none, some,
}
use potluck.Prelude.Results.{Result, ok, err}
use potluck.Gateway.Inference.{Upstream}
use potluck.Ollamafs.{Store, BlobError, model_blob_path}
use potluck.Split.Pipeline.{Manager, available}
use potluck.Split.Pipeline.Ensure.{World, Request, EnsureError, ensure}

-- The network: whether a request can be made, its status and body if it is answered, the port in a
-- body as `fmt.Sprint` prints it, and `net.SplitHostPort` and `net.JoinHostPort`.
pub record Net : Type 0 where
  pub valid : Text → Bool
  pub answer : Upstream → Option (ℕ × Text)
  pub port_of : Text → Option Text
  pub host_of : Text → Option Text
  pub join_host_port : Text → Text → Text

unfoldable pub recruit_request : Text → Text → Upstream
recruit_request token addr = record {
  target = bytes "http://" ++ addr ++ bytes "/api/rpc/start";
  model_header = [];
  token_header = token;
  body = [];
}

-- The RPC endpoint, from the port and the host if both can be read.
pub endpoint : Net → Option Text → Option Text → Option Text
endpoint net none host = none
endpoint net (some port) none = none
endpoint net (some port) (some host) = some (net.join_host_port host port)

pub read_answer : Net → Text → Option (ℕ × Text) → Option Text
unfolding endpoint
read_answer net addr none = none
read_answer net addr (some (status, body)) =
    if status == 200 then endpoint net (net.port_of body) (net.host_of addr) else none

-- The endpoint of a peer's rpc-server, or `none` on an error.
unfoldable pub recruit_worker : Net → Text → Text → Option Text
unfolding recruit_request read_answer
recruit_worker net token addr =
    let u = recruit_request token addr in
    if net.valid u.target then read_answer net addr (net.answer u) else none

-- The loop over the workers: one that cannot be recruited is left out.
unfoldable pub recruit_all : Net → Text → List Text → List Text
unfolding recruit_worker
recruit_all net token [] = []
recruit_all net token (addr ∷ addrs) = elim (recruit_worker net token addr) [
  | none ↦ recruit_all net token addrs
  | some rpc ↦ rpc ∷ recruit_all net token addrs
]

pub data LocalError : Type 0 where
  no_driver no_workers : LocalError
  no_weights : BlobError → LocalError
  not_ensured : EnsureError → LocalError

abbrev pub request_for : Text → Text → ℕ → List Text → Request
request_for model gguf ctx_size workers = record {
  model = model;
  gguf = gguf;
  workers = workers;
  ctx_size = ctx_size;
}

pub of_ensure : Result EnsureError ℕ × Manager → Result LocalError ℕ × Manager
of_ensure (ok port, m) = (ok port, m)
of_ensure (err e, m) = (err (not_ensured e), m)

abbrev pub of_ensured :
    Option (Result EnsureError ℕ × Manager) → Option (Result LocalError ℕ × Manager)
unfolding of_ensure
of_ensured none = none
of_ensured (some r) = some (of_ensure r)

-- From the blob on. `recruited` are the endpoints of the recruited workers.
pub with_blob :
    World
    → Text
    → List Text
    → ℕ
    → List Text
    → Manager
    → Result BlobError Text
    → Option (Result LocalError ℕ × Manager)
unfolding of_ensured ensure
with_blob w model addrs ctx_size recruited m (err e) = some (err (no_weights e), m)
with_blob w model addrs ctx_size recruited m (ok gguf) =
    if not (length addrs == 0) && length recruited == 0
    then some (err no_workers, m)
    else of_ensured (ensure w (request_for model gguf ctx_size recruited) m)

-- `none` if `Ensure` has not ended.
unfoldable pub ensure_local :
    Net
    → Store
    → World
    → Text
    → Text
    → ℕ
    → Text
    → List Text
    → Manager
    → Option (Result LocalError ℕ × Manager)
unfolding available model_blob_path recruit_all with_blob
ensure_local net store w models_dir token ctx_size model addrs m =
    if not (available m)
    then some (err no_driver, m)
    else with_blob w model addrs ctx_size (recruit_all net token addrs) m
        (model_blob_path store models_dir model)
