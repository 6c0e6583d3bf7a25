-- ===== src/Split/Tests.antt =====
-- Pipelines on a small node, and the theorems of pipeline.go, split.go and
-- worker.go at concrete inputs.
mod Race
mod Reached
mod Logged
use potluck.Prelude.{
  Option, Text, has_prefix, ◌++◌, ℕ, zero, suc, ◌+◌, ◌*◌, ◌/◌, ◌<◌, ◌≡◌, refl, Bool, true, false,
  List, [], ◌∷◌, length, bytes, leb, arith, none, some, if◌then◌else◌,
}
use potluck.Prelude.Dict.{find}
use potluck.Prelude.Results.{Result, ok}
use mathlib.Core.List.{mem-cons_self}
use potluck.Split.Worker.{
  Worker, new_worker, ensure_worker, begin_stop, end_stop, reap_worker, ensures, reaps, reads,
  kills, Reachable, fresh, later,
}
use potluck.Split.Worker.Single.{IsSingle, Reachable-IsSingle}
use potluck.Prelude.Int.{ℤ, pos}
use potluck.Split.Worker.Devices.{pick_devices}
use potluck.Split.Worker.Devices.Chosen.{preferred, pick_devices_lem}
use potluck.Samples.{gib, second, big, served}
use potluck.Split.{need, usable}
use potluck.Split.Memory.{estimates_exact}
use potluck.Split.Pipeline.{Manager, new_manager, port, is_idle, collect, stop_all}
use potluck.Split.Pipeline.Tracked.{
  IsTracked, new_manager-IsTracked, collects, apply, apply-IsTracked,
}
use potluck.Split.Pipeline.Idle.{find-collect, stop_all_lem, collect_slow_load}
use potluck.Split.Pipeline.Ensure.{Poll, World, Request, EnsureError, ensure, free_port}
use potluck.Split.Pipeline.Shared.{ensures}
use potluck.Split.Pipeline.Ensure.Outcome.{IsSettled}
use potluck.Split.Pipeline.Ensure.Ports.{IsFirstFree, free_port_lem}
use potluck.Split.Pipeline.Ensure.Waiting.{IsSpaced, ensure_lem}

abbrev poll : ℕ → Bool → Poll
poll at healthy = record {
  at = at;
  cancelled = false;
  exited = false;
  healthy = healthy;
  cancelled_asleep = false;
}

-- A load of so many seconds: /health is polled every second.
abbrev load : ℕ → ℕ → List Poll
load zero at = poll at true ∷ []
load (suc n) at = poll at false ∷ load n (at + second)

length-load : (n at : ℕ) → length (load n at) ≡ n + 1
length-load zero at = refl
length-load (suc n) at = omega (arith, length-load n (at + second))

load-IsSpaced : (n at : ℕ) → IsSpaced at (load n at)
load-IsSpaced zero at = (omega arith, tt)
load-IsSpaced (suc n) at = (omega arith, load-IsSpaced n (at + second))

-- Port 50800 is taken; the load takes this many seconds.
abbrev world : ℕ → World
world seconds = record {
  now = 100 * second;
  busy = λ p. leb p 50800;
  starts = λ args. none;
  wait_from = 100 * second;
  polls = load seconds (100 * second);
}

abbrev request : Request
request = record {
  model = big;
  gguf = bytes "/blobs/sha256-1";
  workers = bytes "10.0.0.2:50752" ∷ [];
  ctx_size = 4096;
}

abbrev empty : Manager
empty = new_manager (bytes "/usr/bin/llama-server") 50800

empty-IsTracked : IsTracked empty
empty-IsTracked = new_manager-IsTracked (bytes "/usr/bin/llama-server") 50800

program : Unit {0}
unfolding ensure new_manager find port collect
program = tt

slow_load : ensure (world 660) request empty ≡ some (ok 50801, served)
unfolding program
slow_load = refl

serving : port big served ≡ some 50801
unfolding program
serving = refl

collect_slow_load_example : port big (collect (770 * second) served) ≡ none
collect_slow_load_example =
    collect_slow_load (world 660) request empty served 50801 (770 * second) empty-IsTracked
      slow_load serving (omega arith)

-- /health answers in the first round.
abbrev quick : World
quick = record (world 1900) { polls = poll (100 * second) true ∷ load 1900 (101 * second) }

quick_load : ensure quick request empty ≡ some (ok 50801, served)
unfolding program
quick_load = refl

enough : 1800 < length quick.polls
enough = omega (arith, length-load 1900 (101 * second))

ensure_lem_example :
    (result : Result EnsureError ℕ) × (m' : Manager) × (ensure quick request empty
      ≡ some (result, m'))
    × IsSettled quick request empty result (find big m'.pipelines)
    × IsTracked m'
ensure_lem_example =
    ensure_lem quick request enough (omega arith, load-IsSpaced 1900 (101 * second)) empty
      empty-IsTracked

served-IsTracked : IsTracked served
unfolding find
served-IsTracked = record {
  distinct = (refl, tt);
  named = (refl, tt);
  below = (omega arith, tt);
  owned = (refl, tt);
}

find-collect_example :
    find big (collect (300 * second) served).pipelines ≡ (elim (find big served.pipelines) [
      | none ↦ none
      | some p ↦ if is_idle (300 * second) p then none else some p
    ])
find-collect_example = find-collect (300 * second) served big served-IsTracked

stop_all_lem_example : ((stop_all served).pipelines ≡ []) × ((stop_all served).running ≡ [])
stop_all_lem_example = stop_all_lem served served-IsTracked

estimates_exact_example :
    (need (40 * gib) ≡ 40 * gib * 5 / 4) × (usable (16 * gib) ≡ 16 * gib * 4 / 5)
estimates_exact_example = estimates_exact (40 * gib) (16 * gib) (omega arith) (omega arith)

abbrev spare : Worker
spare = new_worker (bytes "/usr/bin/rpc-server") 50752

abbrev lent : Worker
lent = (ensure_worker (λ args. true) (bytes "CUDA0") spare).1

worker_program : Unit {0}
unfolding new_worker ensure_worker begin_stop end_stop reap_worker
worker_program = tt

-- One rpc-server is started, stopped, reaped and started again.
abbrev stopped : Worker
stopped = end_stop 0 (begin_stop lent)

abbrev lent_again : Worker
lent_again = (ensure_worker (λ args. true) (bytes "CUDA0") (reap_worker 0 stopped)).1

lent_again_runs : (lent_again.cmd ≡ some 1) × (lent_again.alive ≡ 1 ∷ [])
unfolding worker_program
lent_again_runs = (refl, refl)

lent_again_reached : Reachable (bytes "/usr/bin/rpc-server") 50752 lent_again
unfolding worker_program
lent_again_reached =
    later (reap_worker 0 stopped) lent_again
      (later stopped (reap_worker 0 stopped)
        (later (begin_stop lent) stopped
          (later lent (begin_stop lent)
            (later spare lent fresh (ensures (λ args. true) (bytes "CUDA0"))) reads)
          (kills 0 mem-cons_self))
        (reaps 0 refl))
      (ensures (λ args. true) (bytes "CUDA0"))

Reachable-IsSingle_example : IsSingle lent_again
Reachable-IsSingle_example =
    Reachable-IsSingle (bytes "/usr/bin/rpc-server") 50752 lent_again lent_again_reached

-- A line is read as the device of its name, with 0 MiB if it is BLAS.
abbrev device : Text → Option (Text × ℤ)
device [] = none
device (b ∷ line) =
    some (b ∷ line, if has_prefix (b ∷ line) (bytes "BLAS") then pos 0 else pos 8192)

abbrev listing : Text
listing = bytes "CPU" ++ 10 ∷ bytes "BLAS" ++ 10 ∷ bytes "CUDA0" ++ 10 ∷ bytes "CUDA1" ++ 10 ∷ []

devices_test : pick_devices device false listing ≡ bytes "CUDA0,CUDA1"
unfolding pick_devices has_prefix
devices_test = refl

pick_devices_lem_example : pick_devices device false listing ≡ preferred device false listing
pick_devices_lem_example = pick_devices_lem device false listing
