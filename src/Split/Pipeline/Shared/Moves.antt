-- ===== src/Split/Pipeline/Shared/Moves.antt =====
-- pipeline.go: each move of a task keeps every process held.
use potluck.Prelude.{
  ℕ, ◌+◌, ◌≡◌, refl, Bool, true, false, [], ◌∷◌, Text, Option, none, some, arith, ◌==◌,
}
use potluck.Prelude.Dict.{find}
use potluck.Prelude.Results.{Result, ok, err}
use potluck.Split.{PipelineState, loading, ready, error}
use potluck.Split.Pipeline.{
  kill, Pipeline, Manager, used_at, in_state, failed_with, available, touch, set_state, set_error,
}
use potluck.Split.Pipeline.Ensure.{
  World, Request, EnsureError, not_installed, not_ready, Poll, Wait, became_ready, gave_up, died,
  timed_out, launch, error_text_of,
}
use potluck.Split.Pipeline.Shared.{
  Task, ensures, clears, relaunches, waits, joins, readies, fails, drops, sweeps, kills, ends,
  Moved, take_out, then_kill, cmd_of, launched, launch_task, state_task, found_task, round,
  waited_task, joined_task, move,
}
use potluck.Split.Pipeline.Shared.Tally.{one_if, doom, count}
use potluck.Split.Pipeline.Shared.Held.{
  IsHeld, IsHeld-same, update-IsHeld, opt_count, take_out-IsHeld, kill-IsHeld, launch-IsHeld,
}

module _ (f : ℕ → ℕ) where
  -- What the task is about to kill and what has been overwritten is held too.
  abbrev pub MovedIsHeld : Moved → Type 0
  MovedIsHeld r = IsHeld (λ c. doom c r.task + (count c r.displaced + f c)) r.manager

  -- The task holds nothing.
  abbrev IsFree : Task → Type 0
  IsFree t = (c : ℕ) → doom c t ≡ 0

  free-MovedIsHeld :
      (t : Task) (m : Manager)
      → IsFree t
      → IsHeld f m
      → MovedIsHeld (record { task = t; manager = m; displaced = [] })
  free-MovedIsHeld t m free h =
      IsHeld-same f (λ c. doom c t + (0 + f c)) m (λ c. omega (arith, free c)) h

  unburden : (m : Manager) → IsHeld (λ c. 0 + f c) m → IsHeld f m
  unburden m h = IsHeld-same (λ c. 0 + f c) f m (λ c. omega arith) h

  then_kill-MovedIsHeld :
      (taken : Option ℕ × Manager) (t : Task)
      → IsFree t
      → IsHeld (λ c. opt_count c taken.0 + f c) taken.1
      → MovedIsHeld (then_kill taken t)
  then_kill-MovedIsHeld (none, m) t free h =
      IsHeld-same (λ c. 0 + f c) (λ c. doom c t + (0 + f c)) m (λ c. omega (arith, free c)) h
  then_kill-MovedIsHeld (some d, m) t free h =
      IsHeld-same (λ c. one_if (d == c) + f c) (λ c. one_if (d == c) + doom c t + (0 + f c)) m
        (λ c. omega (arith, free c)) h

  stops-MovedIsHeld :
      (model : Text) (m : Manager) (t : Task)
      → IsFree t
      → IsHeld f m
      → MovedIsHeld (then_kill (take_out model m) t)
  stops-MovedIsHeld model m t free h =
      then_kill-MovedIsHeld (take_out model m) t free (take_out-IsHeld f model m h)

  launched-MovedIsHeld :
      (w : World) (r : Request) (m : Manager) (result : Result EnsureError (ℕ × Manager))
      → launch w r m ≡ result
      → IsHeld f m
      → MovedIsHeld (launched w r m result)
  unfolding launched
  launched-MovedIsHeld w r m (err e) e' h = free-MovedIsHeld (ends (err e)) m (λ c. refl) h
  launched-MovedIsHeld w r m (ok (port, m')) e' h =
      IsHeld-same (λ c. count c (cmd_of (find r.model m.pipelines)) + f c)
        (λ c. 0 + (count c (cmd_of (find r.model m.pipelines)) + f c)) m' (λ c. omega arith)
        (launch-IsHeld f w r m m' port e' h)

  launch_task-MovedIsHeld :
      (w : World) (r : Request) (m : Manager) → IsHeld f m → MovedIsHeld (launch_task w r m)
  unfolding launch_task
  launch_task-MovedIsHeld w r m h = launched-MovedIsHeld w r m (launch w r m) refl h

  touch-IsHeld : (now : ℕ) (model : Text) (m : Manager) → IsHeld f m → IsHeld f (touch now model m)
  unfolding touch
  touch-IsHeld now model m h = update-IsHeld f model (used_at now) m (λ p. refl) h

  state_task-IsFree :
      (w : World) (r : Request) (port : ℕ) (s : PipelineState) → IsFree (state_task w r port s)
  unfolding state_task
  state_task-IsFree w r port ready c = refl
  state_task-IsFree w r port loading c = refl
  state_task-IsFree w r port error c = refl

  waited_task-IsFree :
      (r : Request) (port deadline : ℕ) (o : Option Wait) → IsFree (waited_task r port deadline o)
  unfolding waited_task
  waited_task-IsFree r port deadline none c = refl
  waited_task-IsFree r port deadline (some became_ready) c = refl
  waited_task-IsFree r port deadline (some gave_up) c = refl
  waited_task-IsFree r port deadline (some died) c = refl
  waited_task-IsFree r port deadline (some timed_out) c = refl

  joined_task-IsFree :
      (r : Request) (port deadline : ℕ) (o : Option Wait) → IsFree (joined_task r port deadline o)
  unfolding joined_task
  joined_task-IsFree r port deadline none c = refl
  joined_task-IsFree r port deadline (some became_ready) c = refl
  joined_task-IsFree r port deadline (some gave_up) c = refl
  joined_task-IsFree r port deadline (some died) c = refl
  joined_task-IsFree r port deadline (some timed_out) c = refl

  found_task-MovedIsHeld :
      (w : World) (r : Request) (m : Manager) (found : Option Pipeline)
      → IsHeld f m
      → MovedIsHeld (found_task w r m found)
  unfolding found_task
  found_task-MovedIsHeld w r m none h = launch_task-MovedIsHeld w r m h
  found_task-MovedIsHeld w r m (some p) h =
      free-MovedIsHeld (state_task w r p.port p.info.state) (touch w.now r.model m)
        (state_task-IsFree w r p.port p.info.state) (touch-IsHeld w.now r.model m h)

  ensures-MovedIsHeld :
      (w : World) (p : Poll) (r : Request) (m : Manager) (b : Bool)
      → available m ≡ b
      → IsHeld f m
      → MovedIsHeld (move w p (ensures r) m)
  unfolding move
  ensures-MovedIsHeld w p r m false e h =
      rw (e, move) (free-MovedIsHeld (ends (err not_installed)) m (λ c. refl) h)
  ensures-MovedIsHeld w p r m true e h =
      rw (e, move) (found_task-MovedIsHeld w r m (find r.model m.pipelines) h)

  -- A move keeps every process held that the task did not hold before, and so those that it held.
  pub move-MovedIsHeld :
      (w : World) (p : Poll) (t : Task) (m : Manager)
      → IsHeld (λ c. doom c t + f c) m
      → MovedIsHeld (move w p t m)
  unfolding move set_state set_error
  move-MovedIsHeld w p (ensures r) m h =
      ensures-MovedIsHeld w p r m (available m) refl (unburden m h)
  move-MovedIsHeld w p (clears r) m h =
      stops-MovedIsHeld r.model m (relaunches r) (λ c. refl) (unburden m h)
  move-MovedIsHeld w p (relaunches r) m h = launch_task-MovedIsHeld w r m (unburden m h)
  move-MovedIsHeld w p (waits r port deadline) m h =
      free-MovedIsHeld _ m (waited_task-IsFree r port deadline (round p r.model deadline m))
        (unburden m h)
  move-MovedIsHeld w p (joins r port deadline) m h =
      free-MovedIsHeld _ m (joined_task-IsFree r port deadline (round p r.model deadline m))
        (unburden m h)
  move-MovedIsHeld w p (readies r port) m h =
      free-MovedIsHeld (ends (ok port)) (set_state r.model ready m) (λ c. refl)
        (update-IsHeld f r.model (in_state ready) m (λ q. refl) (unburden m h))
  move-MovedIsHeld w p (fails r e) m h =
      free-MovedIsHeld (drops r e) (set_error r.model (error_text_of e) m) (λ c. refl)
        (update-IsHeld f r.model (failed_with (error_text_of e)) m (λ q. refl) (unburden m h))
  move-MovedIsHeld w p (drops r e) m h =
      stops-MovedIsHeld r.model m (ends (err (not_ready e))) (λ c. refl) (unburden m h)
  move-MovedIsHeld w p (sweeps []) m h = free-MovedIsHeld (sweeps []) m (λ c. refl) (unburden m h)
  move-MovedIsHeld w p (sweeps (model ∷ models)) m h =
      stops-MovedIsHeld model m (sweeps models) (λ c. refl) (unburden m h)
  move-MovedIsHeld w p (kills d t) m h =
      IsHeld-same (λ c. doom c t + f c) (λ c. doom c t + (0 + f c))
        (record m { running = kill d m.running }) (λ c. omega arith)
        (kill-IsHeld (λ c. doom c t + f c) d m
          (IsHeld-same (λ c. one_if (d == c) + doom c t + f c)
            (λ c. one_if (d == c) + (doom c t + f c)) m (λ c. omega arith) h))
  move-MovedIsHeld w p (ends result) m h =
      free-MovedIsHeld (ends result) m (λ c. refl) (unburden m h)
