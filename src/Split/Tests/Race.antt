-- ===== src/Split/Tests/Race.antt =====
-- Three calls of `Ensure` that overlap, and the theorems of calls that overlap at concrete inputs.
use potluck.Prelude.{◌*◌, ◌≡◌, refl, Bool, true, false, List, [], ◌∷◌, bytes, none, arith}
use potluck.Samples.{second, big}
use potluck.Split.Pipeline.{models, new_manager}
use potluck.Split.Pipeline.Ensure.{Poll, World, Request}
use potluck.Split.Pipeline.Shared.{Shared, sweeps, move, shuts_down}
use potluck.Split.Pipeline.Shared.Accounted.{IsAccounted, Reachable-IsAccounted}
use potluck.Split.Pipeline.Shared.Tally.{tally}
use potluck.Split.Pipeline.Shared.Orphans.{IsOrphan, displaced_lasts}
use potluck.Split.Pipeline.Shared.Schedule.{Turn, begin, go, Run, run}

abbrev request : Request
request = record { model = big; gguf = bytes "/blobs/sha256-1"; workers = []; ctx_size = 4096 }

abbrev world : World
world = record {
  now = 100 * second;
  busy = λ p. false;
  starts = λ args. none;
  wait_from = 100 * second;
  polls = [];
}

abbrev poll : Bool → Poll
poll cancelled = record {
  at = 101 * second;
  cancelled = cancelled;
  exited = false;
  healthy = false;
  cancelled_asleep = false;
}

-- The client of the first call is gone while its pipeline loads. Before the call drops it, two others
-- find it failed. They stop it and launch one each.
abbrev race : List Turn
race =
    begin request
    ∷ go 0 world (poll false)
    ∷ go 0 world (poll true)
    ∷ go 0 world (poll false)
    ∷ begin request
    ∷ go 0 world (poll false)
    ∷ begin request
    ∷ go 0 world (poll false)
    ∷ go 0 world (poll false)
    ∷ go 0 world (poll false)
    ∷ go 1 world (poll false)
    ∷ go 0 world (poll false)
    ∷ go 1 world (poll false)
    ∷ []

abbrev after_race : Run (bytes "/usr/bin/llama-server") 11500
after_race = run (bytes "/usr/bin/llama-server") 11500 race

program : Unit {0}
unfolding run move new_manager
program = tt

two_run : (after_race.last.manager.running ≡ 2 ∷ 1 ∷ []) × (after_race.last.displaced ≡ 1 ∷ [])
unfolding program
two_run = (refl, refl)

Reachable-IsAccounted_example : IsAccounted after_race.last
Reachable-IsAccounted_example =
    Reachable-IsAccounted (bytes "/usr/bin/llama-server") 11500 after_race.last after_race.reached

lost-IsOrphan : IsOrphan 1 after_race.last
unfolding program
lost-IsOrphan = (omega arith, refl)

-- The agent shuts down.
abbrev shut : Shared
shut = record after_race.last {
  tasks = sweeps (models after_race.last.manager) ∷ after_race.last.tasks;
}

displaced_lasts_example : IsOrphan 1 shut × (tally 1 after_race.last.manager.pipelines ≡ 0)
displaced_lasts_example =
    displaced_lasts (bytes "/usr/bin/llama-server") 11500 1 {s = after_race.last} {s' = shut}
      shuts_down after_race.reached tt lost-IsOrphan
