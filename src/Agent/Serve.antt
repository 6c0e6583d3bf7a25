-- ===== src/Agent/Serve.antt =====
-- internal/agent/split.go: the endpoints by which peers use a node's memory and its llama-server.
pub mod Gated
pub mod Answered
use potluck.Prelude.{
  ℕ, Bool, true, false, not, List, [], ◌∷◌, length, Text, ◌==◌, if◌then◌else◌, Option, none, some,
}
use potluck.Prelude.Results.{Result, ok, err}
use potluck.Gateway.Proxy.{refuses}
use potluck.Ollamafs.{Store}
use potluck.Split.Pipeline.{Manager}
use potluck.Split.Pipeline.Ensure.{World}
use potluck.Split.Worker.{
  Worker, Ensured, not_installed, not_started, already_started, started, installed, ensure_worker,
  begin_stop, end_stop,
}
use potluck.Agent.{Agent}
use potluck.Agent.Drive.{Net, LocalError, ensure_local}

-- What `Ensure` needs of the outside: whether the process starts, the devices that `pickDevices`
-- answers, and whether the port accepts a connection in time.
pub record Start : Type 0 where
  pub starts : List Text → Bool
  pub devices : Text
  pub listens : Bool

-- The status of the answer to `Ensure`.
pub start_status : Bool → Ensured → ℕ
start_status listens not_installed = 500
start_status listens not_started = 500
start_status listens already_started = 200
start_status listens started = if listens then 200 else 500

pub started_worker : Start → Agent → Ensured × Worker → ℕ × Agent
unfolding start_status
started_worker s a (e, w) = (start_status s.listens e, record a { worker = w })

-- The status and the agent afterwards. With status 200 goes the worker's port.
unfoldable pub handle_rpc_start : Start → Text → Agent → ℕ × Agent
unfolding refuses started_worker ensure_worker
handle_rpc_start s token_header a =
    if refuses a.cfg.token token_header
    then (401, a)
    else if not (installed a.worker)
    then (501, a)
    else if not a.cfg.share
    then (403, a)
    else started_worker s a (ensure_worker s.starts s.devices a.worker)

-- `Stop`: it kills the process that it has read.
pub stop_cmd : Option ℕ → Worker → Worker
unfolding end_stop
stop_cmd none w = w
stop_cmd (some c) w = end_stop c w

pub stop_worker : Worker → Worker
unfolding begin_stop stop_cmd
stop_worker w = stop_cmd w.cmd (begin_stop w)

unfoldable pub handle_rpc_stop : Text → Agent → ℕ × Agent
unfolding refuses stop_worker
handle_rpc_stop token_header a =
    if refuses a.cfg.token token_header
    then (401, a)
    else (200, record a { worker = stop_worker a.worker })

-- The body of the request: the model and the workers, `none` if it cannot be decoded.
pub record EnsureRequest : Type 0 where
  pub model : Text
  pub workers : List Text

-- The status, the port with status 200, and the agent afterwards.
pub ensured_status : Agent → Result LocalError ℕ × Manager → ℕ × Option ℕ × Agent
ensured_status a (ok port, m) = (200, some port, record a { pipelines = m })
ensured_status a (err e, m) = (502, none, record a { pipelines = m })

pub ensured_answer : Agent → Option (Result LocalError ℕ × Manager) → Option (ℕ × Option ℕ × Agent)
unfolding ensured_status
ensured_answer a none = none
ensured_answer a (some r) = some (ensured_status a r)

pub ensure_decoded :
    Net → Store → World → Option EnsureRequest → Agent → Option (ℕ × Option ℕ × Agent)
unfolding ensured_answer ensure_local
ensure_decoded net store w none a = some (400, none, a)
ensure_decoded net store w (some r) a =
    if length r.model == 0
    then some (400, none, a)
    else ensured_answer a (
        ensure_local net store w a.cfg.models_dir a.cfg.token a.cfg.ctx_size r.model r.workers
          a.pipelines)

-- `none` if `Ensure` has not ended.
unfoldable pub handle_pipeline_ensure :
    Net → Store → World → Text → Option EnsureRequest → Agent → Option (ℕ × Option ℕ × Agent)
unfolding refuses ensure_decoded
handle_pipeline_ensure net store w token_header body a =
    if refuses a.cfg.token token_header
    then some (401, none, a)
    else ensure_decoded net store w body a
