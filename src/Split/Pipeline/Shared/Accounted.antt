-- ===== src/Split/Pipeline/Shared/Accounted.antt =====
-- pipeline.go: however the calls overlap, each running llama-server is accounted for.
use potluck.Prelude.{ℕ, ◌+◌, ◌≡◌, refl, ap, List, ◌∷◌, ◌++◌, Text, arith}
use potluck.Split.Pipeline.{new_manager, used_at, touch}
use potluck.Split.Pipeline.Ensure.{World, Poll}
use potluck.Split.Pipeline.Shared.{
  Task, move, Shared, settled, Step, asks, collects, shuts_down, touches, moves, exits, reaps,
  Reachable, fresh, later,
}
use potluck.Split.Pipeline.Shared.Tally.{doom, dooms, dooms-append, count, count-append}
use potluck.Split.Pipeline.Shared.Held.{
  IsHeld, IsHeld-same, update-IsHeld, exit-IsHeld, reap-IsHeld,
}
use potluck.Split.Pipeline.Shared.Moves.{move-MovedIsHeld}

-- What a process is held by beside the entries: a task that is about to kill it, or an entry that was
-- overwritten.
abbrev pub elsewhere : Shared → ℕ → ℕ
elsewhere s c = dooms c s.tasks + count c s.displaced

abbrev pub IsAccounted : Shared → Type 0
IsAccounted s = IsHeld (elsewhere s) s.manager

moves-IsAccounted :
    (s : Shared) (w : World) (p : Poll) (ahead : List Task) (t : Task) (behind : List Task)
    → s.tasks ≡ ahead ++ t ∷ behind
    → IsAccounted s
    → IsAccounted (settled s ahead (move w p t s.manager) behind)
moves-IsAccounted s w p ahead t behind e h =
    let others : ℕ → ℕ = λ c. dooms c ahead + dooms c behind + count c s.displaced in
    let r = move w p t s.manager in
    IsHeld-same (λ c. doom c r.task + (count c r.displaced + others c)) _ r.manager
      (λ c.
        omega
          (arith, dooms-append c ahead (r.task ∷ behind), count-append c r.displaced s.displaced))
      (move-MovedIsHeld others w p t s.manager (
        IsHeld-same (elsewhere s) (λ c. doom c t + others c) s.manager
          (λ c. omega (arith, dooms-append c ahead (t ∷ behind), ap (dooms c) e)) h))

Step-IsAccounted : (s s' : Shared) → Step s s' → IsAccounted s → IsAccounted s'
unfolding touch
Step-IsAccounted s _ (asks r) h = IsHeld-same (elsewhere s) _ s.manager (λ c. omega arith) h
Step-IsAccounted s _ (collects now) h = IsHeld-same (elsewhere s) _ s.manager (λ c. omega arith) h
Step-IsAccounted s _ shuts_down h = IsHeld-same (elsewhere s) _ s.manager (λ c. omega arith) h
Step-IsAccounted s _ (touches now model) h =
    update-IsHeld (elsewhere s) model (used_at now) s.manager (λ p. refl) h
Step-IsAccounted s _ (moves w p ahead t behind e) h = moves-IsAccounted s w p ahead t behind e h
Step-IsAccounted s _ (exits c) h = exit-IsHeld (elsewhere s) c s.manager h
Step-IsAccounted s _ (reaps model c gone) h = reap-IsHeld (elsewhere s) model c s.manager h

-- However the calls of `Ensure`, `gcLoop` and `StopAll` overlap with each other and with processes
-- that exit, every llama-server that runs is held exactly once: by an entry of the map, by a call that
-- is about to kill it, or by an entry that a relaunch has overwritten.
pub Reachable-IsAccounted :
    (bin : Text) (base_port : ℕ) (s : Shared) → Reachable bin base_port s → IsAccounted s
unfolding new_manager
Reachable-IsAccounted bin base_port _ fresh = record {
  distinct = tt;
  unborn = λ c old. refl;
  once = λ c. omega arith;
  covered = λ c runs. cc;
}
Reachable-IsAccounted bin base_port s' (later s _ r step) =
    Step-IsAccounted s s' step (Reachable-IsAccounted bin base_port s r)
