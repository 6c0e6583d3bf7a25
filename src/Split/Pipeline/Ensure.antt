-- ===== src/Split/Pipeline/Ensure.antt =====
-- pipeline.go: `Ensure`, `waitReady` and `freePort`. What the world answers is an argument: the
-- busy ports, whether a process starts, and what each round of polling sees.
pub mod Launch
pub mod Outcome
pub mod Ports
pub mod Waiting
use potluck.Prelude.{
  ℕ, zero, suc, ◌+◌, ◌*◌, Bool, true, false, not, List, [], ◌∷◌, ◌++◌, Text, bytes, join, ltb,
  if◌then◌else◌, Option, none, some,
}
use potluck.Prelude.Decimal.{decimal}
use potluck.Prelude.Dict.{store, find}
use potluck.Prelude.Results.{Result, ok, err}
use potluck.Split.{PipelineState, loading, ready, error, PipelineInfo}
use potluck.Split.Pipeline.{Pipeline, Manager, available, touch, set_state, set_error, stop, reap}

-- The loop of `freePort`, with `rounds` ports left to try.
unfoldable pub first_free : (ℕ → Bool) → ℕ → ℕ → Option ℕ
first_free busy zero p = none
first_free busy (suc rounds) p = if busy p then first_free busy rounds (p + 1) else some p

unfoldable pub free_port : (ℕ → Bool) → ℕ → Option ℕ
unfolding first_free
free_port busy base = first_free busy 100 base

-- 30 minutes, in nanoseconds.
abbrev pub load_deadline : ℕ
load_deadline = 30 * 60 * 1000000000

-- What one round of `waitReady` sees: the time, whether the caller gave up before the request or
-- while it slept, whether the pipeline's process has exited, and whether /health answered 200.
pub record Poll : Type 0 where
  pub at : ℕ
  pub cancelled : Bool
  pub exited : Bool
  pub healthy : Bool
  pub cancelled_asleep : Bool

pub data Wait : Type 0 where
  became_ready gave_up died timed_out : Wait

-- `none` if the loop has not ended after these rounds.
unfoldable pub wait_until : ℕ → List Poll → Option Wait
wait_until deadline [] = none
wait_until deadline (p ∷ ps) =
    let rest = wait_until deadline ps in
    if not (ltb p.at deadline)
    then some timed_out
    else if p.cancelled
    then some gave_up
    else if p.exited
    then some died
    else if p.healthy
    then some became_ready
    else if p.cancelled_asleep
    then some gave_up
    else rest

unfoldable pub wait_ready : ℕ → List Poll → Option Wait
unfolding wait_until
wait_ready now polls = wait_until (now + load_deadline) polls

pub data EnsureError : Type 0 where
  not_installed no_port : EnsureError
  not_started : Text → EnsureError
  not_ready : Wait → EnsureError

-- The arguments of llama-server. `--rpc` is given only with workers.
pub launch_args : Text → Text → ℕ → ℕ → List Text → List Text
unfolding join decimal
launch_args model gguf port ctx_size workers =
    let args =
      bytes "-m"
      ∷ gguf
      ∷ bytes "--host"
      ∷ bytes "127.0.0.1"
      ∷ bytes "--port"
      ∷ decimal port
      ∷ bytes "--alias"
      ∷ model
      ∷ bytes "-ngl"
      ∷ bytes "999"
      ∷ bytes "-c"
      ∷ decimal ctx_size
      ∷ bytes "--no-webui"
      ∷ [] in
    elim workers [ [] ↦ args | w ∷ ws ↦ args ++ bytes "--rpc" ∷ join (w ∷ ws) ∷ [] ]

-- What the outside answers to one call. `starts` is the error of starting the process, if any.
pub record World : Type 0 where
  pub now : ℕ
  pub busy : ℕ → Bool
  pub starts : List Text → Option Text
  pub wait_from : ℕ
  pub polls : List Poll

-- What one call asks for.
pub record Request : Type 0 where
  pub model : Text
  pub gguf : Text
  pub workers : List Text
  pub ctx_size : ℕ

abbrev pub pipeline_for : World → Request → ℕ → ℕ → Pipeline
pipeline_for w r port cmd = record {
  info = record {
    model = r.model;
    state = loading;
    workers = r.workers;
    started_at = w.now;
    last_used = w.now;
    error_text = [];
  };
  port = port;
  cmd = cmd;
}

-- Lines 84 to 117, under the lock: a port, a process and an entry, or an error.
unfoldable pub launch : World → Request → Manager → Result EnsureError (ℕ × Manager)
unfolding free_port launch_args store
launch w r m = elim (free_port w.busy m.base_port) [
  | none ↦ err no_port
  | some port ↦ elim (w.starts (launch_args r.model r.gguf port r.ctx_size r.workers)) [
    | some e ↦ err (not_started e)
    | none ↦ ok (
      port,
      record m {
        pipelines = store r.model (pipeline_for w r port m.next_cmd) m.pipelines;
        running = m.next_cmd ∷ m.running;
        next_cmd = suc m.next_cmd;
      },
    )
  ]
]

-- A process seen to have exited has been reaped: no other call runs meanwhile.
pub after_wait : Wait → Text → ℕ → Manager → Manager
unfolding reap
after_wait died model cmd m = reap model cmd m
after_wait became_ready model cmd m = m
after_wait gave_up model cmd m = m
after_wait timed_out model cmd m = m

-- The gist of the error. The source's text is longer, but `stop` drops the entry that holds it.
unfoldable pub error_text_of : Wait → Text
error_text_of died = bytes "exited during load"
error_text_of gave_up = bytes "context canceled"
error_text_of timed_out = bytes "did not become ready"
error_text_of became_ready = []

-- Lines 132 to 139.
pub settle : Wait → Request → ℕ → ℕ → Manager → Result EnsureError ℕ × Manager
unfolding after_wait error_text_of set_state set_error stop
settle became_ready r port cmd m = (ok port, set_state r.model ready m)
settle e r port cmd m = (
  err (not_ready e),
  stop r.model (set_error r.model (error_text_of e) (after_wait e r.model cmd m)),
)

pub launch_and_wait : World → Request → Manager → Option (Result EnsureError ℕ × Manager)
unfolding launch settle wait_ready
launch_and_wait w r m = elim (launch w r m) [
  | err e ↦ some (err e, m)
  | ok (port, m') ↦ elim (wait_ready w.wait_from w.polls) [
    | none ↦ none
    | some result ↦ some (settle result r port m.next_cmd m')
  ]
]

pub waited : Wait → ℕ → Result EnsureError ℕ
waited became_ready port = ok port
waited e port = err (not_ready e)

-- Lines 67 to 82, for an entry that is there.
pub reuse : World → Request → Manager → Pipeline → Option (Result EnsureError ℕ × Manager)
unfolding touch launch_and_wait waited after_wait stop wait_ready
reuse w r m p =
    let used = touch w.now r.model m in
    elim p.info.state [
      | ready ↦ some (ok p.port, used)
      | loading ↦ elim (wait_ready w.wait_from w.polls) [
        | none ↦ none
        | some result ↦ some (waited result p.port, after_wait result r.model p.cmd used)
      ]
      | error ↦ launch_and_wait w r (stop r.model used)
    ]

-- `none` if `waitReady` has not ended.
unfoldable pub ensure : World → Request → Manager → Option (Result EnsureError ℕ × Manager)
unfolding available reuse launch_and_wait find
ensure w r m =
    if not (available m)
    then some (err not_installed, m)
    else (elim (find r.model m.pipelines) [ none ↦ launch_and_wait w r m | some p ↦ reuse w r m p ])
