-- ===== src/Split/Worker/Listening/Outcome.antt =====
-- worker.go: `Ensure` returns, and what it returns on every branch.
use potluck.Prelude.{
  ℕ, zero, suc, ◌+◌, ◌*◌, ◌≤◌, ◌<◌, ◌≡◌, ◌≢◌, refl, ap, ◌∙◌, inl, inr, ◌⊎◌, Bool, true, false, not,
  ◌&&◌, List, [], ◌∷◌, any, length, Text, ◌==◌, ltb, Option, none, some, Bool-cases, Option-cases,
  arith,
}
use potluck.Split.Worker.{
  Worker, ensure_worker, worker_args, launch_worker, ensure_from, installed, Ensured, not_installed,
  not_started, started,
}
use potluck.Split.Worker.Listening.{
  port_deadline, port_error, Attempt, wait_for_port, WorkerError, no_rpc_server, start_failed,
  not_listening, after_unlock, ensure_listening,
}

-- 200 milliseconds.
abbrev pause : ℕ
pause = 200 * 1000000

-- Each attempt begins 200 milliseconds or more after the one before.
abbrev pub IsSpaced : ℕ → List Attempt → Type 0
IsSpaced t [] = Unit
IsSpaced t (a ∷ later) = (t ≤ a.at) × IsSpaced (a.at + pause) later

-- An attempt before the deadline connects.
abbrev pub connects_by : ℕ → List Attempt → Bool
connects_by deadline = any (λ a. ltb a.at deadline && a.connects)

late-connects_by :
    (deadline t : ℕ) (later : List Attempt)
    → deadline ≤ t
    → IsSpaced t later
    → connects_by deadline later ≡ false
late-connects_by deadline t [] late spaced = refl
late-connects_by deadline t (a ∷ later) late spaced = ground (
  arith,
  late-connects_by deadline (a.at + pause) later (omega (arith, late, spaced.0)) spaced.1,
  spaced.0,
)

wait_for_port_lem :
    (rounds deadline t : ℕ) (later : List Attempt)
    → deadline ≤ t + rounds * pause
    → rounds < length later
    → IsSpaced t later
    → wait_for_port deadline later ≡ some (connects_by deadline later)
unfolding wait_for_port
wait_for_port_lem rounds deadline t [] near enough spaced = absurd (omega arith)
wait_for_port_lem zero deadline t (a ∷ later) near enough spaced =
    let none_later =
      late-connects_by deadline (a.at + pause) later (omega (arith, near, spaced.0)) spaced.1 in
    ground (arith, spaced.0)
wait_for_port_lem (suc k) deadline t (a ∷ later) near enough spaced =
    let rest =
      wait_for_port_lem k deadline (a.at + pause) later (omega (arith, near, spaced.0))
        (omega (arith, enough)) spaced.1 in
    let none_later = λ (late : deadline ≤ a.at).
      late-connects_by deadline (a.at + pause) later (omega (arith, late)) spaced.1 in
    elim (Bool-cases (ltb a.at deadline)) [
      | inl early ↦ ground (arith, rest)
      | inr late ↦ ground (arith, none_later)
    ]

-- The 51 attempts of ten seconds are enough.
waits_lem :
    (now : ℕ) (attempts : List Attempt)
    → 50 < length attempts
    → IsSpaced now attempts
    → wait_for_port (now + port_deadline) attempts
      ≡ some (connects_by (now + port_deadline) attempts)
waits_lem now attempts enough spaced =
    wait_for_port_lem 50 (now + port_deadline) now attempts (omega arith) enough spaced

bin_cases :
    (bin : Text)
    → (bin ≡ []) × ((not (length bin == 0)) ≡ false) ⊎ (bin ≢ []) × ((not (length bin == 0)) ≡ true)
bin_cases [] = inl (refl, refl)
bin_cases (b ∷ bin) = inr (λ e. cc, ground arith)

-- The worker that has started one more process.
abbrev pub started_worker : Worker → Worker
started_worker w = record w {
  cmd = some w.next_cmd;
  alive = w.next_cmd ∷ w.alive;
  next_cmd = suc w.next_cmd;
}

module _ (starts : List Text → Bool) (devices : Text) (now : ℕ) (attempts : List Attempt) where
  abbrev starts_with : Worker → Bool
  starts_with w = starts (worker_args w.port devices)

  -- The error that `Ensure` returns and the worker it leaves, by what there was.
  pub data IsEnsured (w : Worker) : Option WorkerError → Worker → Type 0 where
    missing : w.bin ≡ [] → IsEnsured w (some no_rpc_server) w
    running : (c : ℕ) → w.bin ≢ [] → w.cmd ≡ some c → IsEnsured w none w
    failed : w.bin ≢ [] → w.cmd ≡ none → starts_with w ≡ false → IsEnsured w (some start_failed) w
    listens :
        w.bin ≢ []
        → w.cmd ≡ none
        → starts_with w ≡ true
        → connects_by (now + port_deadline) attempts ≡ true
        → IsEnsured w none (started_worker w)
    refuses :
        w.bin ≢ []
        → w.cmd ≡ none
        → starts_with w ≡ true
        → connects_by (now + port_deadline) attempts ≡ false
        → IsEnsured w (some not_listening) (started_worker w)

  -- The wait after the last unlock.
  abbrev then_waits : Ensured × Worker → Option (Option WorkerError) × Worker
  then_waits (e, w') = (after_unlock now attempts e, w')

  ensure_listening-then_waits :
      (w : Worker) (x : Ensured × Worker)
      → ensure_worker starts devices w ≡ x
      → ensure_listening starts devices now attempts w ≡ then_waits x
  unfolding ensure_listening
  ensure_listening-then_waits w x e = ap then_waits e

  ensure_missing :
      (w : Worker) → installed w ≡ false → ensure_worker starts devices w ≡ (not_installed, w)
  unfolding ensure_worker
  ensure_missing w absent = rw (absent, ensure_worker) refl

  ensure_present :
      (w : Worker) (o : Option ℕ)
      → installed w ≡ true
      → w.cmd ≡ o
      → ensure_worker starts devices w ≡ ensure_from starts devices w o
  unfolding ensure_worker
  ensure_present w o present e =
      ◌∙◌ {b = ensure_from starts devices w w.cmd} (rw (present, ensure_worker) refl)
        (ap (ensure_from starts devices w) e)

  launch_fails :
      (w : Worker) → starts_with w ≡ false → ensure_from starts devices w none ≡ (not_started, w)
  unfolding ensure_from launch_worker
  launch_fails w fails = rw (fails, launch_worker) refl

  launch_starts :
      (w : Worker)
      → starts_with w ≡ true
      → ensure_from starts devices w none ≡ (started, started_worker w)
  unfolding ensure_from launch_worker
  launch_starts w begins = rw (begins, launch_worker) refl

  unlock_waited :
      (b : Bool)
      → connects_by (now + port_deadline) attempts ≡ b
      → 50 < length attempts
      → IsSpaced now attempts
      → after_unlock now attempts started ≡ port_error (some b)
  unfolding after_unlock
  unlock_waited b e enough spaced = ap port_error (waits_lem now attempts enough spaced ∙ ap some e)

  waited :
      (w : Worker)
      → w.bin ≢ []
      → w.cmd ≡ none
      → starts_with w ≡ true
      → 50 < length attempts
      → IsSpaced now attempts
      → ensure_listening starts devices now attempts w ≡ then_waits (started, started_worker w)
      → (e : Option WorkerError) × (w' : Worker) × (ensure_listening starts devices now attempts w
          ≡ (some e, w'))
        × IsEnsured w e w'
  waited w bin stopped begins enough spaced launched =
      let ends = λ (b : Bool) (e : connects_by (now + port_deadline) attempts ≡ b).
        launched
        ∙ ap (λ (k : Option (Option WorkerError)). (k, started_worker w))
            (unlock_waited b e enough spaced) in
      elim (Bool-cases (connects_by (now + port_deadline) attempts)) [
        | inl heard ↦ (none, started_worker w, ends true heard, listens bin stopped begins heard)
        | inr silent ↦ (
          some not_listening,
          started_worker w,
          ends false silent,
          refuses bin stopped begins silent,
        )
      ]

  -- `Ensure` returns if its 51 attempts to connect begin 200 milliseconds apart or more. It fails and
  -- changes nothing if there is no rpc-server or it does not start; it succeeds at once if a process
  -- was started before; else the process it has started is the worker's, and it succeeds just when an
  -- attempt before the deadline connects.
  pub ensure_listening_lem :
      (w : Worker)
      → 50 < length attempts
      → IsSpaced now attempts
      → (e : Option WorkerError) × (w' : Worker) × (ensure_listening starts devices now attempts w
          ≡ (some e, w'))
        × IsEnsured w e w'
  unfolding after_unlock ensure_from
  ensure_listening_lem w enough spaced = elim (bin_cases w.bin) [
    | inl (empty, absent) ↦ (
      some no_rpc_server,
      w,
      ensure_listening-then_waits w _ (ensure_missing w absent) ∙ refl,
      missing empty,
    )
    | inr (bin, present) ↦ elim (Option-cases w.cmd) [
      | inr (c, runs) ↦ (
        none,
        w,
        ensure_listening-then_waits w _ (ensure_present w (some c) present runs) ∙ refl,
        running c bin runs,
      )
      | inl stopped ↦ elim (Bool-cases (starts_with w)) [
        | inr fails ↦ (
          some start_failed,
          w,
          ensure_listening-then_waits w _
                (ensure_present w none present stopped ∙ launch_fails w fails)
              ∙ refl,
          failed bin stopped fails,
        )
        | inl begins ↦ waited w bin stopped begins enough spaced (
            ensure_listening-then_waits w _
              (ensure_present w none present stopped ∙ launch_starts w begins))
      ]
    ]
  ]
