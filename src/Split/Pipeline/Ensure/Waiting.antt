-- ===== src/Split/Pipeline/Ensure/Waiting.antt =====
-- pipeline.go: `waitReady` ends, since it sleeps a second a round, and so `Ensure` returns.
use potluck.Prelude.{
  ℕ, zero, suc, ◌+◌, ◌*◌, ◌≤◌, ◌<◌, ◌≡◌, ◌≢◌, refl, subst, inl, inr, List, [], ◌∷◌, length, Option,
  none, some, Bool-cases, Option-cases, arith,
}
use potluck.Prelude.Dict.{find}
use potluck.Prelude.Results.{Result, ok, err}
use potluck.Split.{PipelineState, loading, ready, error}
use potluck.Split.Pipeline.{Pipeline, Manager, available, stop, touch}
use potluck.Split.Pipeline.Tracked.{IsTracked}
use potluck.Split.Pipeline.Ensure.{
  World, Request, EnsureError, Poll, Wait, wait_until, wait_ready, load_deadline, launch, settle,
  launch_and_wait, waited, after_wait, reuse, ensure,
}
use potluck.Split.Pipeline.Ensure.Outcome.{IsSettled, EndsWell, ensure-EndsWell}

abbrev second : ℕ
second = 1000000000

-- Each round begins at least a second after the one before.
abbrev pub IsSpaced : ℕ → List Poll → Type 0
IsSpaced t [] = Unit
IsSpaced t (p ∷ ps) = (t ≤ p.at) × IsSpaced (p.at + second) ps

wait_until-ne-none :
    (seconds deadline t : ℕ) (ps : List Poll)
    → deadline ≤ t + seconds * second
    → seconds < length ps
    → IsSpaced t ps
    → wait_until deadline ps ≢ none
unfolding wait_until
wait_until-ne-none seconds deadline t [] near enough spaced = absurd (omega arith)
wait_until-ne-none zero deadline t (p ∷ ps) near enough spaced = ground arith
wait_until-ne-none (suc k) deadline t (p ∷ ps) near enough spaced =
    let rest =
      wait_until-ne-none k deadline (p.at + second) ps (omega arith) (omega arith) spaced.1 in
    ground arith

some_of_ne-none {ℓ} : {A : Type ℓ} (o : Option A) → o ≢ none → (a : A) × (o ≡ some a)
some_of_ne-none none h = absurd (h refl)
some_of_ne-none (some a) h = (a, refl)

-- 1801 rounds are enough.
pub wait_ready_total :
    (start : ℕ) (ps : List Poll)
    → 1800 < length ps
    → IsSpaced start ps
    → (e : Wait) × (wait_ready start ps ≡ some e)
unfolding wait_ready
wait_ready_total start ps enough spaced =
    some_of_ne-none _
      (wait_until-ne-none 1800 (start + load_deadline) start ps (omega arith) enough spaced)

module _ (w : World) (r : Request) (enough : 1800 < length w.polls)
    (spaced : IsSpaced w.wait_from w.polls) where
  launch_and_wait_total :
      (m : Manager) → (x : Result EnsureError ℕ × Manager) × (launch_and_wait w r m ≡ some x)
  unfolding launch_and_wait
  launch_and_wait_total m = started (launch w r m) refl
    where
      started :
          (l : Result EnsureError (ℕ × Manager))
          → launch w r m ≡ l
          → (x : Result EnsureError ℕ × Manager) × (launch_and_wait w r m ≡ some x)
      started (err e) h = ((err e, m), rw (h, launch_and_wait))
      started (ok (port, m')) h =
          let (e, ends) = wait_ready_total w.wait_from w.polls enough spaced in
          (settle e r port m.next_cmd m', rw (h, launch_and_wait) (rw ends))

  reuse_total :
      (m : Manager) (p : Pipeline) (s : PipelineState)
      → p.info.state ≡ s
      → (x : Result EnsureError ℕ × Manager) × (reuse w r m p ≡ some x)
  unfolding reuse
  reuse_total m p ready e = ((ok p.port, touch w.now r.model m), rw (e, reuse))
  reuse_total m p loading e =
      let (result, ends) = wait_ready_total w.wait_from w.polls enough spaced in
      (
        (waited result p.port, after_wait result r.model p.cmd (touch w.now r.model m)),
        rw (e, reuse) (rw ends),
      )
  reuse_total m p error e =
      let (x, ends) = launch_and_wait_total (stop r.model (touch w.now r.model m)) in
      (x, rw (e, reuse) ends)

  ensure_total : (m : Manager) → (x : Result EnsureError ℕ × Manager) × (ensure w r m ≡ some x)
  unfolding ensure
  ensure_total m = elim (Bool-cases (available m)) [
    | inr missing ↦ ((err EnsureError.not_installed, m), rw missing)
    | inl present ↦ elim (Option-cases (find r.model m.pipelines)) [
      | inl absent ↦
          let (x, ends) = launch_and_wait_total m in (x, rw present (rw (absent, ensure) ends))
      | inr (p, found) ↦
          let (x, ends) = reuse_total m p p.info.state refl in
          (x, rw present (rw (found, ensure) ends))
    ]
  ]

  -- `Ensure` returns, if its polls begin at least a second apart and there are 1801 of them. It
  -- succeeds in two ways only. Where nothing usable was under the model it has started llama-server
  -- with what the request asks for, at the port that `freePort` found, /health has answered, and the entry is
  -- that process's, ready. Otherwise it uses the entry that was there, which was ready or has become
  -- so, and only marks it as used. Each failure has its cause, and leaves no entry under the model,
  -- unless llama-server is missing, when nothing there has changed, or the call stopped waiting for
  -- another call's pipeline that is still loading. If every running process was that of an entry
  -- before, and no other call comes between, that still holds.
  pub ensure_lem :
      (m : Manager)
      → IsTracked m
      → (result : Result EnsureError ℕ) × (m' : Manager) × (ensure w r m ≡ some (result, m'))
        × IsSettled w r m result (find r.model m'.pipelines)
        × IsTracked m'
  ensure_lem m t =
      let ((result, m'), ends) = ensure_total m in
      let (settled, tracked) = subst (EndsWell w r m) ends (ensure-EndsWell w r m t) in
      (result, m', ends, settled, tracked)
