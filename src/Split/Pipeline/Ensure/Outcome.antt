-- ===== src/Split/Pipeline/Ensure/Outcome.antt =====
-- pipeline.go: what a call of `Ensure` leaves behind, on every path.
use potluck.Prelude.{
  ℕ, ◌≡◌, ◌≢◌, refl, sym, ap, ◌∙◌, subst, inl, inr, ◌⊎◌, false, text_eq_refl, ==_iff, Bool, true,
  Text, Option, none, some, Bool-cases,
}
use potluck.Prelude.Dict.{find}
use potluck.Prelude.Results.{Result, ok, err}
use potluck.Split.{PipelineState, loading, ready, error}
use potluck.Split.Pipeline.{
  Pipeline, Manager, available, touch, set_state, set_error, stop, is_error, used_at, in_state,
  failed_with,
}
use potluck.Split.Pipeline.Laws.{
  find-update, find-stop, find-reap, IsAlike, update-IsAlike, stop-IsAlike,
}
use potluck.Split.Pipeline.Tracked.{IsTracked, update-IsTracked, stop-IsTracked}
use potluck.Split.Pipeline.Ensure.{
  free_port, launch_args, World, Request, EnsureError, not_installed, no_port, not_started,
  not_ready, Wait, became_ready, died, launch, pipeline_for, after_wait, settle, error_text_of,
  wait_ready, launch_and_wait, waited, reuse, ensure,
}
use potluck.Split.Pipeline.Ensure.Launch.{
  launch-IsLaunched, launch-IsTracked, launched-find, after_wait-IsTracked, launch_error,
}

-- The entry of another call that is still loading.
pub record IsLoading (o : Option Pipeline) : Type 0 where
  pub entry : Pipeline
  pub found : o ≡ some entry
  pub still : entry.info.state ≡ loading

-- There is nothing under the model that a call could use.
abbrev pub needs_launch : Option Pipeline → Bool
needs_launch none = true
needs_launch (some p) = is_error p.info.state

module _ (w : World) (r : Request) where
  settle-IsTracked :
      (e : Wait) (port cmd : ℕ) (m : Manager) → IsTracked m → IsTracked (settle e r port cmd m).1
  unfolding settle set_state set_error
  settle-IsTracked became_ready port cmd m t =
      update-IsTracked r.model (in_state ready) m (λ p. refl) (λ p. refl) t
  settle-IsTracked e port cmd m t = stop-IsTracked r.model _ (
      update-IsTracked r.model (failed_with (error_text_of e)) _ (λ p. refl) (λ p. refl)
        (after_wait-IsTracked e r.model cmd m t))

  -- The entry of another call, marked as used.
  touched-find :
      (m : Manager) (p : Pipeline)
      → find r.model m.pipelines ≡ some p
      → find r.model (touch w.now r.model m).pipelines ≡ some (used_at w.now p)
  unfolding touch
  touched-find m p found =
      find-update r.model (used_at w.now) m r.model ∙ rw (found, text_eq_refl r.model)

  touched-IsTracked : (m : Manager) → IsTracked m → IsTracked (touch w.now r.model m)
  unfolding touch
  touched-IsTracked m t = update-IsTracked r.model (used_at w.now) m (λ p. refl) (λ p. refl) t

  -- A failed entry has been cleared.
  cleared-IsAlike : (m : Manager) → IsAlike m (stop r.model (touch w.now r.model m))
  unfolding touch
  cleared-IsAlike m =
      let used = update-IsAlike r.model (used_at w.now) m in
      let gone = stop-IsAlike r.model (touch w.now r.model m) in
      record {
        base_port = gone.base_port ∙ used.base_port;
        next_cmd = gone.next_cmd ∙ used.next_cmd;
      }

  module _ (m : Manager) where
    abbrev pub old : Option Pipeline
    old = find r.model m.pipelines

    abbrev pub answered : Option Wait
    answered = wait_ready w.wait_from w.polls

    -- The outside's answer to starting llama-server at this port, with what the request asks for.
    abbrev pub start_error : ℕ → Option Text
    start_error port = w.starts (launch_args r.model r.gguf port r.ctx_size r.workers)

    -- The call has started the next process, and what it leaves is that process's entry, ready.
    pub record IsStarted (port : ℕ) (new : Option Pipeline) : Type 0 where
      pub fresh : needs_launch old ≡ true
      pub at_port : free_port w.busy m.base_port ≡ some port
      pub started : start_error port ≡ none
      pub loaded : answered ≡ some became_ready
      pub entry : new ≡ some (in_state ready (pipeline_for w r port m.next_cmd))

    -- The call uses the entry that was there, which was ready or has become so, and leaves it as it
    -- was but for the time of its last use.
    pub record IsReused (port : ℕ) (new : Option Pipeline) : Type 0 where
      pub entry : Pipeline
      pub found : old ≡ some entry
      pub at_port : entry.port ≡ port
      pub loaded :
          (entry.info.state ≡ ready)
          ⊎ ((entry.info.state ≡ loading) × (answered ≡ some became_ready))
      pub left : new ≡ some (used_at w.now entry)

    -- What is under the model after the call, and what its answer is due to.
    abbrev pub IsSettled : Result EnsureError ℕ → Option Pipeline → Type 0
    IsSettled (ok port) new = IsStarted port new ⊎ IsReused port new
    IsSettled (err not_installed) new = (available m ≡ false) × (new ≡ old)
    IsSettled (err no_port) new =
        (needs_launch old ≡ true) × (free_port w.busy m.base_port ≡ none) × (new ≡ none)
    IsSettled (err (not_started e)) new =
        (needs_launch old ≡ true)
        × (port : ℕ) × (free_port w.busy m.base_port ≡ some port)
        × (start_error port ≡ some e)
        × (new ≡ none)
    IsSettled (err (not_ready e)) new =
        (answered ≡ some e) × (e ≢ became_ready) × ((new ≡ none) ⊎ (IsLoading old × IsLoading new))

    -- The result and the manager of a call that has ended.
    abbrev pub EndsWell : Option (Result EnsureError ℕ × Manager) → Type 0
    EndsWell none = Unit
    EndsWell (some (result, m')) = IsSettled result (find r.model m'.pipelines) × IsTracked m'

    -- A call that succeeds leaves an entry that it has used.
    pub used-of_IsSettled :
        (port : ℕ) (new : Option Pipeline)
        → IsSettled (ok port) new
        → (p : Pipeline) × (new ≡ some p) × (p.info.last_used ≡ w.now)
    used-of_IsSettled port new (inl s) = (_, s.entry, refl)
    used-of_IsSettled port new (inr s) = (_, s.left, refl)

    settle-IsSettled :
        (e : Wait) (port cmd : ℕ) (n : Manager)
        → needs_launch old ≡ true
        → free_port w.busy m.base_port ≡ some port
        → start_error port ≡ none
        → answered ≡ some e
        → find r.model n.pipelines ≡ some (pipeline_for w r port m.next_cmd)
        → IsSettled (settle e r port cmd n).0 (find r.model (settle e r port cmd n).1.pipelines)
    unfolding settle set_state
    settle-IsSettled became_ready port cmd n fresh at_port started loaded found = inl (record {
      fresh = fresh;
      at_port = at_port;
      started = started;
      loaded = loaded;
      entry = find-update r.model (in_state ready) n r.model ∙ rw (found, text_eq_refl r.model);
    })
    settle-IsSettled e port cmd n fresh at_port started loaded found =
        (loaded, (λ k. cc), inl (find-stop r.model _ r.model ∙ rw (text_eq_refl r.model)))

    -- A launch from `n`, which is `m` once what was under the model has been cleared.
    launch_and_wait-EndsWell :
        (n : Manager)
        → needs_launch old ≡ true
        → IsAlike m n
        → find r.model n.pipelines ≡ none
        → IsTracked n
        → EndsWell (launch_and_wait w r n)
    unfolding launch_and_wait
    launch_and_wait-EndsWell n fresh alike absent t = started (launch w r n) refl
      where
        free : free_port w.busy n.base_port ≡ free_port w.busy m.base_port
        free = ap (free_port w.busy) alike.base_port

        waited_for :
            (port : ℕ) (n' : Manager)
            → launch w r n ≡ ok (port, n')
            → (o : Option Wait) → answered ≡ o
            → EndsWell
                (elim o [ none ↦ none | some result ↦ some (settle result r port n.next_cmd n') ])
        waited_for port n' e none h = tt
        waited_for port n' e (some result) h =
            let l = launch-IsLaunched w r n n' port e in
            (
              settle-IsSettled result port n.next_cmd n' fresh (sym free ∙ l.at_port) l.started h (
                  subst (λ k. find r.model k.pipelines ≡ some (pipeline_for w r port m.next_cmd))
                    (sym l.result)
                    (launched-find w r n port
                      ∙ ap (λ c. some (pipeline_for w r port c)) alike.next_cmd)),
              settle-IsTracked result port n.next_cmd n'
                  (launch-IsTracked w r n n' port absent e t),
            )

        started :
            (l : Result EnsureError (ℕ × Manager))
            → launch w r n ≡ l
            → EndsWell (launch_and_wait w r n)
        started (err e) h =
            rw (h, launch_and_wait)
              (elim (launch_error w r n e h) [
                | inl (same, busy) ↦ (
                  subst (λ k. IsSettled (err k) (find r.model n.pipelines)) (sym same)
                      (fresh, sym free ∙ busy, absent),
                  t,
                )
                | inr (text, port, same, at_port, failed) ↦ (
                  subst (λ k. IsSettled (err k) (find r.model n.pipelines)) (sym same)
                      (fresh, port, sym free ∙ at_port, failed, absent),
                  t,
                )
              ])
        started (ok (port, n')) h = rw (h, launch_and_wait) (waited_for port n' h answered refl)

    waited-IsSettled :
        (p : Pipeline) (e : Wait)
        → old ≡ some p
        → p.info.state ≡ loading
        → answered ≡ some e
        → IsSettled
            (waited e p.port)
            (find r.model (after_wait e r.model p.cmd (touch w.now r.model m)).pipelines)
    unfolding waited after_wait
    waited-IsSettled p became_ready found e h = inr (record {
      entry = p;
      found = found;
      at_port = refl;
      loaded = inr (e, h);
      left = touched-find m p found;
    })
    waited-IsSettled p died found e h = (
      h,
      (λ k. cc),
      inl (
          find-reap r.model p.cmd (touch w.now r.model m) r.model
          ∙ rw (touched-find m p found, text_eq_refl r.model, (==_iff p.cmd p.cmd).1 refl, e)),
    )
    waited-IsSettled p other found e h = (
      h,
      (λ k. cc),
      inr (
        record { entry = p; found = found; still = e },
        record { entry = used_at w.now p; found = touched-find m p found; still = e },
      ),
    )

    reuse-EndsWell :
        (p : Pipeline) (s : PipelineState)
        → old ≡ some p
        → p.info.state ≡ s
        → IsTracked m
        → EndsWell (reuse w r m p)
    unfolding reuse touch
    reuse-EndsWell p ready found e t =
        rw (e, reuse)
          (
            inr (record {
              entry = p;
              found = found;
              at_port = refl;
              loaded = inl e;
              left = touched-find m p found;
            }),
            touched-IsTracked m t,
          )
    reuse-EndsWell p loading found e t = rw (e, reuse) (ended answered refl)
      where
        ended :
            (o : Option Wait)
            → answered ≡ o
            → EndsWell (elim o [
              | none ↦ none
              | some result ↦
                  some
                    (waited result p.port, after_wait result r.model p.cmd (touch w.now r.model m))
            ])
        ended none h = tt
        ended (some result) h = (
          waited-IsSettled p result found e h,
          after_wait-IsTracked result r.model p.cmd _ (touched-IsTracked m t),
        )
    reuse-EndsWell p error found e t =
        rw (e, reuse)
          (launch_and_wait-EndsWell (stop r.model (touch w.now r.model m)) (rw (found, e) refl)
            (cleared-IsAlike m)
            (find-stop r.model (touch w.now r.model m) r.model ∙ rw (text_eq_refl r.model))
            (stop-IsTracked r.model _ (touched-IsTracked m t)))

    -- A call of `Ensure` that has ended left what it promises, and lost no process.
    pub ensure-EndsWell : IsTracked m → EndsWell (ensure w r m)
    unfolding ensure
    ensure-EndsWell t = elim (Bool-cases (available m)) [
      | inr missing ↦ rw missing ((missing, refl), t)
      | inl present ↦ rw present (chosen old refl)
    ]
      where
        chosen :
            (o : Option Pipeline)
            → old ≡ o
            → EndsWell (elim o [ none ↦ launch_and_wait w r m | some p ↦ reuse w r m p ])
        chosen none e =
            launch_and_wait-EndsWell m (rw e refl) (record { base_port = refl; next_cmd = refl }) e
              t
        chosen (some p) e = reuse-EndsWell p p.info.state e refl t
