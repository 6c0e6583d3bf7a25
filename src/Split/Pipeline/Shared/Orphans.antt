-- ===== src/Split/Pipeline/Shared/Orphans.antt =====
-- pipeline.go, lines 78 to 84: a process whose entry a relaunch has overwritten.
use potluck.Prelude.{
  ℕ, ◌≤◌, ◌≡◌, ◌≢◌, refl, sym, ap, ◌∙◌, subst, inl, inr, Bool, true, false, not, ◌&&◌, List, [],
  ◌∷◌, ◌++◌, Text, ◌==◌, if_cases, Option, none, some, Option-cases, arith,
}
use potluck.Prelude.Dict.{find}
use potluck.Prelude.Results.{Result, ok, err}
use potluck.Split.Pipeline.{
  Pipeline, Manager, update, touch, set_state, set_error, available, reap, kill, is_error,
}
use potluck.Split.Pipeline.Ensure.{World, Request, EnsureError, Poll, launch}
use potluck.Split.Pipeline.Ensure.Launch.{launch-IsLaunched}
use potluck.Split.Pipeline.Shared.{
  Task, ensures, clears, relaunches, waits, joins, readies, fails, drops, sweeps, kills, ends,
  take_found, take_out, then_kill, launched, launch_task, found_task, move, Shared, settled, Step,
  asks, collects, shuts_down, touches, moves, exits, reaps, Reachable,
}
use potluck.Split.Pipeline.Shared.Tally.{
  tally, doom, dooms, dooms-append, count, count-append, has_cmd, has_cmd-kill,
}
use potluck.Split.Pipeline.Shared.Accounted.{IsAccounted, Reachable-IsAccounted}

-- The process runs on.
abbrev IsAlive : ℕ → Manager → Type 0
IsAlive c m = has_cmd c m.running ≡ true

update-IsAlive :
    (c : ℕ) (model : Text) (change : Pipeline → Pipeline) (m : Manager)
    → IsAlive c m
    → IsAlive c (update model change m)
unfolding update
update-IsAlive c model change m h = elim (Option-cases (find model m.pipelines)) [
  | inl absent ↦ rw (absent, update) h
  | inr (p, found) ↦ rw (found, update) h
]

launched-IsAlive :
    (c : ℕ) (w : World) (r : Request) (m : Manager) (result : Result EnsureError (ℕ × Manager))
    → launch w r m ≡ result
    → IsAlive c m
    → IsAlive c (launched w r m result).manager
unfolding launched
launched-IsAlive c w r m (err e) e' h = h
launched-IsAlive c w r m (ok (port, m')) e' h =
    let l = launch-IsLaunched w r m m' port e' in subst (IsAlive c) (sym l.result) (ground arith)

found_task-IsAlive :
    (c : ℕ) (w : World) (r : Request) (m : Manager) (found : Option Pipeline)
    → IsAlive c m
    → IsAlive c (found_task w r m found).manager
unfolding found_task launch_task touch
found_task-IsAlive c w r m none h = launched-IsAlive c w r m (launch w r m) refl h
found_task-IsAlive c w r m (some p) h = update-IsAlive c r.model _ m h

ensures-IsAlive :
    (c : ℕ) (w : World) (p : Poll) (r : Request) (m : Manager) (b : Bool)
    → available m ≡ b
    → IsAlive c m
    → IsAlive c (move w p (ensures r) m).manager
unfolding move
ensures-IsAlive c w p r m false e h = rw (e, move) h
ensures-IsAlive c w p r m true e h =
    rw (e, move) (found_task-IsAlive c w r m (find r.model m.pipelines) h)

stops-IsAlive :
    (c : ℕ) (model : Text) (m : Manager) (t : Task)
    → IsAlive c m
    → IsAlive c (then_kill (take_out model m) t).manager
unfolding take_out take_found
stops-IsAlive c model m t h = elim (Option-cases (find model m.pipelines)) [
  | inl absent ↦ rw (absent, take_out, take_found) h
  | inr (p, found) ↦ rw (found, take_out, take_found) h
]

-- Only the task that is about to kill a process stops it.
move-IsAlive :
    (c : ℕ) (w : World) (p : Poll) (t : Task) (m : Manager)
    → doom c t ≡ 0
    → IsAlive c m
    → IsAlive c (move w p t m).manager
unfolding move set_state set_error launch_task
move-IsAlive c w p (ensures r) m spared h = ensures-IsAlive c w p r m (available m) refl h
move-IsAlive c w p (clears r) m spared h = stops-IsAlive c r.model m (relaunches r) h
move-IsAlive c w p (relaunches r) m spared h = launched-IsAlive c w r m (launch w r m) refl h
move-IsAlive c w p (waits r port deadline) m spared h = h
move-IsAlive c w p (joins r port deadline) m spared h = h
move-IsAlive c w p (readies r port) m spared h = update-IsAlive c r.model _ m h
move-IsAlive c w p (fails r e) m spared h = update-IsAlive c r.model _ m h
move-IsAlive c w p (drops r e) m spared h = stops-IsAlive c r.model m _ h
move-IsAlive c w p (sweeps []) m spared h = h
move-IsAlive c w p (sweeps (model ∷ models)) m spared h = stops-IsAlive c model m (sweeps models) h
move-IsAlive c w p (kills d t) m spared h = ground (arith, has_cmd-kill c d m.running)
move-IsAlive c w p (ends result) m spared h = h

-- The step is not that the process exits by itself.
abbrev pub IsSpared : ℕ → {s s' : Shared} → Step s s' → Type 0
IsSpared c (exits d) = c ≢ d
IsSpared c (asks r) = Unit
IsSpared c (collects now) = Unit
IsSpared c shuts_down = Unit
IsSpared c (touches now model) = Unit
IsSpared c (moves w p ahead t behind e) = Unit
IsSpared c (reaps model d gone) = Unit

-- A process that runs, and whose entry has been overwritten.
abbrev pub IsOrphan : ℕ → Shared → Type 0
IsOrphan c s = (1 ≤ count c s.displaced) × (has_cmd c s.manager.running ≡ true)

exits-IsAlive : (c d : ℕ) (m : Manager) → c ≢ d → IsAlive c m → has_cmd c (kill d m.running) ≡ true
exits-IsAlive c d m other h = ground (arith, has_cmd-kill c d m.running)

reap-IsAlive :
    (c : ℕ) (model : Text) (d : ℕ) (m : Manager)
    → kill d m.running ≡ m.running
    → IsAlive c m
    → IsAlive c (reap model d m)
unfolding reap
reap-IsAlive c model d m gone h =
    let same : has_cmd c (kill d m.running) ≡ true = ap (has_cmd c) gone ∙ h in
    elim (Option-cases (find model m.pipelines)) [
      | inl absent ↦ rw (absent, reap) same
      | inr (p, found) ↦
          rw (found, reap)
            (if_cases (IsAlive c) (p.cmd == d && not (is_error p.info.state)) _ _ (λ _. same)
              (λ _. same))
    ]

moves-IsOrphan :
    (c : ℕ) (s : Shared) (w : World) (p : Poll) (ahead : List Task) (t : Task) (behind : List Task)
    → s.tasks ≡ ahead ++ t ∷ behind
    → IsAccounted s
    → IsOrphan c s
    → IsOrphan c (settled s ahead (move w p t s.manager) behind)
moves-IsOrphan c s w p ahead t behind e a (lost, runs) =
    let spared : doom c t ≡ 0 =
      omega (arith, a.once c, dooms-append c ahead (t ∷ behind), ap (dooms c) e) in
    (
      omega (arith, count-append c (move w p t s.manager).displaced s.displaced),
      move-IsAlive c w p t s.manager spared runs,
    )

Step-IsOrphan :
    (c : ℕ) {s s' : Shared} (step : Step s s')
    → IsSpared c step
    → IsAccounted s
    → IsOrphan c s
    → IsOrphan c s'
unfolding touch
Step-IsOrphan c (asks r) spared a o = o
Step-IsOrphan c (collects now) spared a o = o
Step-IsOrphan c shuts_down spared a o = o
Step-IsOrphan c {s} (touches now model) spared a (lost, runs) =
    (lost, update-IsAlive c model _ s.manager runs)
Step-IsOrphan c {s} (moves w p ahead t behind e) spared a o =
    moves-IsOrphan c s w p ahead t behind e a o
Step-IsOrphan c {s} (exits d) spared a (lost, runs) =
    (lost, exits-IsAlive c d s.manager spared runs)
Step-IsOrphan c {s} (reaps model d gone) spared a (lost, runs) =
    (lost, reap-IsAlive c model d s.manager gone runs)

-- A process that runs although its entry was overwritten runs until it exits by itself: no call of
-- `Ensure`, `gcLoop` or `StopAll`, begun or yet to begin, stops it, and no entry of the map is its.
pub displaced_lasts :
    (bin : Text) (base_port : ℕ) (c : ℕ) {s s' : Shared} (step : Step s s')
    → Reachable bin base_port s
    → IsSpared c step
    → IsOrphan c s
    → IsOrphan c s' × (tally c s.manager.pipelines ≡ 0)
displaced_lasts bin base_port c {s} step r spared o =
    let a = Reachable-IsAccounted bin base_port s r in
    (Step-IsOrphan c step spared a o, omega (arith, a.once c, o.0))
