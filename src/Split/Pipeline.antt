-- ===== src/Split/Pipeline.antt =====
-- internal/split/pipeline.go: the pipelines that this node drives, by model name.
pub mod Ensure
pub mod Idle
pub mod Tracked
pub mod Laws
pub mod Shared
use potluck.Prelude.{
  ℕ, suc, zero, ◌+◌, ◌-◌, ◌*◌, Bool, true, false, not, ◌&&◌, List, [], ◌∷◌, map, filter, Text,
  bytes, text_eq, ltb, ◌==◌, if◌then◌else◌, Option, none, some,
}
use potluck.Prelude.Dict.{store, find, erase}
use potluck.Split.{PipelineState, loading, ready, error, PipelineInfo}

-- Ten minutes, in nanoseconds.
abbrev pub idle_timeout : ℕ
idle_timeout = 10 * 60 * 1000000000

-- `cmd` names the llama-server process: the pointer by which the source tells pipelines apart.
pub record Pipeline : Type 0 where
  pub info : PipelineInfo
  pub port : ℕ
  pub cmd : ℕ

-- Beside the fields of the source: the llama-server processes that run, and the next one's name.
pub record Manager : Type 0 where
  pub bin : Text
  pub base_port : ℕ
  pub pipelines : List (Text × Pipeline)
  pub running : List ℕ
  pub next_cmd : ℕ

unfoldable pub new_manager : Text → ℕ → Manager
new_manager bin base_port = record {
  bin = bin;
  base_port = base_port;
  pipelines = [];
  running = [];
  next_cmd = 0;
}

unfoldable pub available : Manager → Bool
unfolding text_eq
available m = not (text_eq m.bin (bytes ""))

unfoldable pub infos : Manager → List PipelineInfo
infos m = map (λ (e : Text × Pipeline). e.1.info) m.pipelines

-- Each of the following holds the manager's lock once.
unfoldable pub update : Text → (Pipeline → Pipeline) → Manager → Manager
unfolding store find
update model change m = elim (find model m.pipelines) [
  | none ↦ m
  | some p ↦ record m { pipelines = store model (change p) m.pipelines }
]

abbrev pub used_at : ℕ → Pipeline → Pipeline
used_at now p = record p { info = record p.info { last_used = now } }

abbrev pub in_state : PipelineState → Pipeline → Pipeline
in_state s p = record p { info = record p.info { state = s } }

abbrev pub failed_with : Text → Pipeline → Pipeline
failed_with e p = record p { info = record p.info { state = error; error_text = e } }

unfoldable pub touch : ℕ → Text → Manager → Manager
unfolding update
touch now model m = update model (used_at now) m

abbrev pub is_ready : PipelineState → Bool
is_ready ready = true
is_ready loading = false
is_ready error = false

abbrev pub is_error : PipelineState → Bool
is_error error = true
is_error ready = false
is_error loading = false

unfoldable pub port : Text → Manager → Option ℕ
unfolding find
port model m = elim (find model m.pipelines) [
  | none ↦ none
  | some p ↦ if is_ready p.info.state then some p.port else none
]

unfoldable pub set_state : Text → PipelineState → Manager → Manager
unfolding update
set_state model s m = update model (in_state s) m

unfoldable pub set_error : Text → Text → Manager → Manager
unfolding update
set_error model e m = update model (failed_with e) m

-- A killed process is no longer among those that run.
abbrev pub kill : ℕ → List ℕ → List ℕ
kill cmd = filter (λ c. not (c == cmd))

unfoldable pub stop : Text → Manager → Manager
unfolding find erase
stop model m = elim (find model m.pipelines) [
  | none ↦ m
  | some p ↦ record m { pipelines = erase model m.pipelines; running = kill p.cmd m.running }
]

unfoldable pub stop_each : List Text → Manager → Manager
unfolding stop
stop_each [] m = m
stop_each (model ∷ models) m = stop_each models (stop model m)

abbrev pub models : Manager → List Text
models m = map (λ (e : Text × Pipeline). e.0) m.pipelines

unfoldable pub stop_all : Manager → Manager
unfolding stop_each
stop_all m = stop_each (models m) m

-- The goroutine behind `cmd.Wait`: the process is gone, and its own entry is deleted unless it
-- holds an error.
unfoldable pub reap : Text → ℕ → Manager → Manager
unfolding find erase
reap model cmd m =
    let gone = record m { running = kill cmd m.running } in
    elim (find model m.pipelines) [
      | none ↦ gone
      | some cur ↦
          if cur.cmd == cmd && not (is_error cur.info.state)
          then record gone { pipelines = erase model m.pipelines }
          else gone
    ]

-- One pass of `gcLoop`: the models are chosen under the lock, then stopped one by one.
unfoldable pub is_idle : ℕ → Pipeline → Bool
is_idle now p = is_ready p.info.state && ltb idle_timeout (now - p.info.last_used)

abbrev pub idle_models : ℕ → Manager → List Text
idle_models now m =
    map (λ (e : Text × Pipeline). e.0)
      (filter (λ (e : Text × Pipeline). is_idle now e.1) m.pipelines)

unfoldable pub collect : ℕ → Manager → Manager
unfolding is_idle stop_each
collect now m = stop_each (idle_models now m) m
