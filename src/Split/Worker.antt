-- ===== src/Split/Worker.antt =====
-- internal/split/worker.go: the rpc-server process that a node lends to its peers. Each step is one
-- section of the source under the lock, or an event of the operating system.
pub mod Single
pub mod Devices
pub mod Listening
use potluck.Prelude.{
  ℕ, suc, Bool, true, false, not, List, [], ◌∷◌, ◌++◌, filter, Mem, ◌≡◌, ◌≢◌, Text, bytes, text_eq,
  length, ◌==◌, if◌then◌else◌, Option, none, some,
}
use potluck.Prelude.Decimal.{decimal}
use potluck.Prelude.Int.{ℤ, pos, ltb_ℤ}

-- The worker, with the processes that run, the number of the next one, and the calls of `Stop`
-- that have read `cmd` and have yet to kill it.
pub record Worker : Type 0 where
  pub bin : Text
  pub port : ℕ
  pub cmd : Option ℕ
  pub alive : List ℕ
  pub next_cmd : ℕ
  pub stopping : List ℕ

unfoldable pub new_worker : Text → ℕ → Worker
new_worker bin port = record {
  bin = bin;
  port = port;
  cmd = none;
  alive = [];
  next_cmd = 0;
  stopping = [];
}

abbrev pub installed : Worker → Bool
installed w = not (length w.bin == 0)

unfoldable pub is_running : Worker → Bool
is_running w = elim w.cmd [ none ↦ false | some c ↦ true ]

pub data Ensured : Type 0 where
  not_installed already_started not_started started : Ensured

pub worker_args : ℕ → Text → List Text
unfolding decimal
worker_args port devices =
    let args = bytes "--host" ∷ bytes "0.0.0.0" ∷ bytes "--port" ∷ decimal port ∷ [] in
    if length devices == 0 then args else args ++ bytes "--device" ∷ devices ∷ []

unfoldable pub launch_worker : (List Text → Bool) → Text → Worker → Ensured × Worker
unfolding worker_args
launch_worker starts devices w =
    if starts (worker_args w.port devices)
    then (
      started,
      record w { cmd = some w.next_cmd; alive = w.next_cmd ∷ w.alive; next_cmd = suc w.next_cmd },
    )
    else (not_started, w)

-- Lines 52 to 66, by what `cmd` holds.
unfoldable pub ensure_from : (List Text → Bool) → Text → Worker → Option ℕ → Ensured × Worker
unfolding launch_worker
ensure_from starts devices w (some c) = (already_started, w)
ensure_from starts devices w none = launch_worker starts devices w

-- `Ensure` up to its last unlock. `devices` is what `pickDevices` answers, and `starts` whether the
-- process starts.
unfoldable pub ensure_worker : (List Text → Bool) → Text → Worker → Ensured × Worker
unfolding ensure_from
ensure_worker starts devices w =
    if not (installed w) then (not_installed, w) else ensure_from starts devices w w.cmd

abbrev pub gone : ℕ → List ℕ → List ℕ
gone c = filter (λ d. not (d == c))

-- Process `c` ends, by itself or killed.
abbrev pub end_process : ℕ → Worker → Worker
end_process c w = record w { alive = gone c w.alive }

pub reap_from : ℕ → Worker → Option ℕ → Worker
reap_from c w none = w
reap_from c w (some d) = if d == c then record w { cmd = none } else w

-- The end of the goroutine that waits for process `c`.
unfoldable pub reap_worker : ℕ → Worker → Worker
unfolding reap_from
reap_worker c w = reap_from c w w.cmd

unfoldable pub begin_from : Worker → Option ℕ → Worker
begin_from w none = w
begin_from w (some c) = record w { stopping = c ∷ w.stopping }

-- `Stop` reads `cmd` under the lock, and kills the process without it.
unfoldable pub begin_stop : Worker → Worker
unfolding begin_from
begin_stop w = begin_from w w.cmd

unfoldable pub end_stop : ℕ → Worker → Worker
end_stop c w = record (end_process c w) { stopping = gone c w.stopping }

-- One step of any of the calls in flight. A process is reaped only once it has ended.
pub data Step (w : Worker) : Worker → Type 0 where
  ensures : (starts : List Text → Bool) (devices : Text) → Step w (ensure_worker starts devices w).1
  ends : (c : ℕ) → Step w (end_process c w)
  reaps : (c : ℕ) → gone c w.alive ≡ w.alive → Step w (reap_worker c w)
  reads : Step w (begin_stop w)
  kills : (c : ℕ) → Mem c w.stopping → Step w (end_stop c w)

pub data Reachable (bin : Text) (port : ℕ) : Worker → Type 0 where
  fresh : Reachable bin port (new_worker bin port)
  later : (w w' : Worker) → Reachable bin port w → Step w w' → Reachable bin port w'
