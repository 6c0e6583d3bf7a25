-- ===== src/Split/Worker/Listening.antt =====
-- internal/split/worker.go: `Ensure` to its end, with `waitForPort`. What each attempt to connect sees
-- is an argument.
pub mod Outcome
use potluck.Prelude.{
  ℕ, ◌+◌, ◌*◌, Bool, true, false, not, List, [], ◌∷◌, Text, ltb, if◌then◌else◌, Option, none, some,
}
use potluck.Split.Worker.{
  Worker, ensure_worker, Ensured, not_installed, already_started, not_started, started,
}

-- 10 seconds, in nanoseconds.
abbrev pub port_deadline : ℕ
port_deadline = 10 * 1000000000

-- The time before an attempt, and whether it connects.
pub record Attempt : Type 0 where
  pub at : ℕ
  pub connects : Bool

-- Whether a connection was made before the deadline, and `none` if the loop has not ended after these
-- attempts.
unfoldable pub wait_for_port : ℕ → List Attempt → Option Bool
wait_for_port deadline [] = none
wait_for_port deadline (a ∷ later) =
    let rest = wait_for_port deadline later in
    if not (ltb a.at deadline) then some false else if a.connects then some true else rest

pub data WorkerError : Type 0 where
  no_rpc_server start_failed not_listening : WorkerError

abbrev pub port_error : Option Bool → Option (Option WorkerError)
port_error none = none
port_error (some true) = some none
port_error (some false) = some (some not_listening)

-- The error that `Ensure` returns after its last unlock, `none` inside if there is none.
unfoldable pub after_unlock : ℕ → List Attempt → Ensured → Option (Option WorkerError)
unfolding wait_for_port
after_unlock now attempts not_installed = some (some no_rpc_server)
after_unlock now attempts already_started = some none
after_unlock now attempts not_started = some (some start_failed)
after_unlock now attempts started = port_error (wait_for_port (now + port_deadline) attempts)

-- `none` if the wait has not ended.
unfoldable pub ensure_listening :
    (List Text → Bool) → Text → ℕ → List Attempt → Worker → Option (Option WorkerError) × Worker
unfolding ensure_worker after_unlock
ensure_listening starts devices now attempts w =
    let (e, w') = ensure_worker starts devices w in (after_unlock now attempts e, w')
