-- ===== src/Split/Pipeline/Shared.antt =====
-- pipeline.go: calls of the manager that overlap. A task is what a call has still to do; each of its
-- moves is one section under the lock, one kill, or one round of `waitReady`.
pub mod Tally
pub mod Held
pub mod Moves
pub mod Accounted
pub mod Orphans
pub mod Schedule
use potluck.Prelude.{
  ℕ, ◌+◌, ◌≡◌, Bool, true, false, not, List, [], ◌∷◌, ◌++◌, Text, Option, none, some,
}
use potluck.Prelude.Dict.{find, erase}
use potluck.Prelude.Results.{Result, ok, err}
use potluck.Split.{PipelineState, loading, ready, error}
use potluck.Split.Pipeline.{
  Pipeline, Manager, new_manager, available, touch, set_state, set_error, kill, models, idle_models,
  reap,
}
use potluck.Split.Pipeline.Ensure.{
  World, Request, EnsureError, not_installed, not_ready, Poll, Wait, became_ready, gave_up, died,
  timed_out, wait_until, load_deadline, launch, error_text_of,
}

-- `ensures` to `drops` are the places in `Ensure`: before line 66, between 78 and 79, before 84 when a
-- failed pipeline was stopped, in `waitReady` of line 132 and of line 76 with the port and the
-- deadline, and before lines 137, 133 and 134. `sweeps` is the loop over the models that `gcLoop` or
-- `StopAll` has chosen, and `kills` the end of `stop`, which holds no lock.
pub data Task : Type 0 where
  ensures clears relaunches : Request → Task
  waits joins : Request → ℕ → ℕ → Task
  readies : Request → ℕ → Task
  fails drops : Request → Wait → Task
  sweeps : List Text → Task
  kills : ℕ → Task → Task
  ends : Result EnsureError ℕ → Task

-- What is left after a move: the task, the manager, and the process whose entry was overwritten.
pub record Moved : Type 0 where
  pub task : Task
  pub manager : Manager
  pub displaced : List ℕ

abbrev pub moved : Task → Manager → Moved
moved t m = record { task = t; manager = m; displaced = [] }

-- The section of `stop`: the entry is deleted, and its process is yet to be killed.
pub take_found : Text → Manager → Option Pipeline → Option ℕ × Manager
unfolding erase
take_found model m none = (none, m)
take_found model m (some p) = (some p.cmd, record m { pipelines = erase model m.pipelines })

unfoldable pub take_out : Text → Manager → Option ℕ × Manager
unfolding take_found find
take_out model m = take_found model m (find model m.pipelines)

abbrev pub then_kill : Option ℕ × Manager → Task → Moved
then_kill (none, m) t = moved t m
then_kill (some c, m) t = moved (kills c t) m

abbrev pub cmd_of : Option Pipeline → List ℕ
cmd_of none = []
cmd_of (some p) = p.cmd ∷ []

pub launched : World → Request → Manager → Result EnsureError (ℕ × Manager) → Moved
unfolding find
launched w r m (err e) = moved (ends (err e)) m
launched w r m (ok (port, m')) = record {
  task = waits r port (w.wait_from + load_deadline);
  manager = m';
  displaced = cmd_of (find r.model m.pipelines);
}

-- Lines 84 to 117.
unfoldable pub launch_task : World → Request → Manager → Moved
unfolding launched launch
launch_task w r m = launched w r m (launch w r m)

-- Lines 72 to 79, by the state of the pipeline that is there.
pub state_task : World → Request → ℕ → PipelineState → Task
state_task w r port ready = ends (ok port)
state_task w r port loading = joins r port (w.wait_from + load_deadline)
state_task w r port error = clears r

-- Lines 67 to 82, by what stands under the model.
pub found_task : World → Request → Manager → Option Pipeline → Moved
unfolding launch_task touch state_task
found_task w r m none = launch_task w r m
found_task w r m (some p) = moved (state_task w r p.port p.info.state) (touch w.now r.model m)

-- The answer of `waitReady` after one round, `none` to go on. Whether the process has exited is what
-- `alive` finds in the map.
pub round : Poll → Text → ℕ → Manager → Option Wait
unfolding wait_until find
round p model deadline m =
    wait_until deadline
      (record p { exited = elim (find model m.pipelines) [ none ↦ true | some _ ↦ false ] } ∷ [])

pub waited_task : Request → ℕ → ℕ → Option Wait → Task
waited_task r port deadline none = waits r port deadline
waited_task r port deadline (some became_ready) = readies r port
waited_task r port deadline (some gave_up) = fails r gave_up
waited_task r port deadline (some died) = fails r died
waited_task r port deadline (some timed_out) = fails r timed_out

pub joined_task : Request → ℕ → ℕ → Option Wait → Task
joined_task r port deadline none = joins r port deadline
joined_task r port deadline (some became_ready) = ends (ok port)
joined_task r port deadline (some gave_up) = ends (err (not_ready gave_up))
joined_task r port deadline (some died) = ends (err (not_ready died))
joined_task r port deadline (some timed_out) = ends (err (not_ready timed_out))

-- One move of a task. What the outside answers is an argument, of which a move uses what it needs.
unfoldable pub move : World → Poll → Task → Manager → Moved
unfolding available found_task find take_out launch_task round waited_task joined_task set_state
    set_error error_text_of
move w p (ensures r) m = elim (available m) [
  | false ↦ moved (ends (err not_installed)) m
  | true ↦ found_task w r m (find r.model m.pipelines)
]
move w p (clears r) m = then_kill (take_out r.model m) (relaunches r)
move w p (relaunches r) m = launch_task w r m
move w p (waits r port deadline) m =
    moved (waited_task r port deadline (round p r.model deadline m)) m
move w p (joins r port deadline) m =
    moved (joined_task r port deadline (round p r.model deadline m)) m
move w p (readies r port) m = moved (ends (ok port)) (set_state r.model ready m)
move w p (fails r e) m = moved (drops r e) (set_error r.model (error_text_of e) m)
move w p (drops r e) m = then_kill (take_out r.model m) (ends (err (not_ready e)))
move w p (sweeps []) m = moved (sweeps []) m
move w p (sweeps (model ∷ models)) m = then_kill (take_out model m) (sweeps models)
move w p (kills c t) m = moved t (record m { running = kill c m.running })
move w p (ends result) m = moved (ends result) m

-- The manager, the tasks in flight, and the processes whose entries were overwritten so far.
pub record Shared : Type 0 where
  pub manager : Manager
  pub tasks : List Task
  pub displaced : List ℕ

abbrev pub settled : Shared → List Task → Moved → List Task → Shared
settled s ahead r behind = record {
  manager = r.manager;
  tasks = ahead ++ r.task ∷ behind;
  displaced = r.displaced ++ s.displaced;
}

-- A call begins, a task moves, a process exits, or the goroutine behind `cmd.Wait` sees that it has.
pub data Step (s : Shared) : Shared → Type 0 where
  asks : (r : Request) → Step s (record s { tasks = ensures r ∷ s.tasks })
  collects : (now : ℕ) → Step s (record s { tasks = sweeps (idle_models now s.manager) ∷ s.tasks })
  shuts_down : Step s (record s { tasks = sweeps (models s.manager) ∷ s.tasks })
  touches : (now : ℕ) (model : Text) → Step s (record s { manager = touch now model s.manager })
  moves :
      (w : World) (p : Poll) (ahead : List Task) (t : Task) (behind : List Task)
      → s.tasks ≡ ahead ++ t ∷ behind
      → Step s (settled s ahead (move w p t s.manager) behind)
  exits :
      (c : ℕ)
      → Step s (record s { manager = record s.manager { running = kill c s.manager.running } })
  reaps :
      (model : Text) (c : ℕ)
      → kill c s.manager.running ≡ s.manager.running
      → Step s (record s { manager = reap model c s.manager })

pub data Reachable (bin : Text) (base_port : ℕ) : Shared → Type 0 where
  fresh :
      Reachable bin base_port
        (record { manager = new_manager bin base_port; tasks = []; displaced = [] })
  later : (s s' : Shared) → Reachable bin base_port s → Step s s' → Reachable bin base_port s'
