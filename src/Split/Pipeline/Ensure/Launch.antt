-- ===== src/Split/Pipeline/Ensure/Launch.antt =====
-- pipeline.go, lines 84 to 139: what starting a pipeline and waiting for it leaves behind.
use potluck.Prelude.{
  ℕ, suc, ◌≡◌, refl, sym, ap, ◌∙◌, inl, inr, ◌⊎◌, ◌∷◌, All_map, subst, Text, text_eq_refl, ==_iff,
  none, some, Option-cases, arith,
}
use potluck.Prelude.Dict.{
  store, find, find-store, store-IsDistinct, any_value-store, any_value-store_self, All-store,
}
use potluck.Prelude.Results.{Result, ok, err}
use potluck.Split.Pipeline.{Manager}
use potluck.Split.Pipeline.Tracked.{IsTracked, runs, reap-IsTracked}
use potluck.Split.Pipeline.Ensure.{
  World, Request, EnsureError, no_port, not_started, Wait, became_ready, gave_up, died, timed_out,
  free_port, launch_args, launch, pipeline_for, after_wait,
}

-- The manager with the new process and its entry.
abbrev pub launched : World → Request → Manager → ℕ → Manager
launched w r m port = record m {
  pipelines = store r.model (pipeline_for w r port m.next_cmd) m.pipelines;
  running = m.next_cmd ∷ m.running;
  next_cmd = suc m.next_cmd;
}

launch_ok :
    (w : World) (r : Request) (m : Manager) (port : ℕ)
    → free_port w.busy m.base_port ≡ some port
    → w.starts (launch_args r.model r.gguf port r.ctx_size r.workers) ≡ none
    → launch w r m ≡ ok (port, launched w r m port)
unfolding launch
launch_ok w r m port found started = rw (found, launch) (rw (started, launch))

launch_no_port :
    (w : World) (r : Request) (m : Manager)
    → free_port w.busy m.base_port ≡ none
    → launch w r m ≡ err no_port
unfolding launch
launch_no_port w r m busy = rw (busy, launch)

launch_not_started :
    (w : World) (r : Request) (m : Manager) (port : ℕ) (e : Text)
    → free_port w.busy m.base_port ≡ some port
    → w.starts (launch_args r.model r.gguf port r.ctx_size r.workers) ≡ some e
    → launch w r m ≡ err (not_started e)
unfolding launch
launch_not_started w r m port e found failed = rw (found, launch) (rw (failed, launch))

-- Why nothing was started.
pub launch_error :
    (w : World) (r : Request) (m : Manager) (e : EnsureError)
    → launch w r m ≡ err e
    → ((e ≡ no_port) × (free_port w.busy m.base_port ≡ none))
      ⊎ ((t : Text) × (port : ℕ) × (e ≡ not_started t)
          × (free_port w.busy m.base_port ≡ some port)
          × (w.starts (launch_args r.model r.gguf port r.ctx_size r.workers) ≡ some t))
launch_error w r m e h = elim (Option-cases (free_port w.busy m.base_port)) [
  | inl busy ↦ inl (cc (launch_no_port w r m busy), busy)
  | inr (p, found) ↦
      elim (Option-cases (w.starts (launch_args r.model r.gguf p r.ctx_size r.workers))) [
        | inr (t, failed) ↦
            inr (t, p, cc (launch_not_started w r m p t found failed), found, failed)
        | inl started ↦ cc (launch_ok w r m p found started)
      ]
]

-- A successful launch, taken apart.
pub record IsLaunched (w : World) (r : Request) (m : Manager) (port : ℕ) (m' : Manager)
    : Type 0 where
  pub at_port : free_port w.busy m.base_port ≡ some port
  pub started : w.starts (launch_args r.model r.gguf port r.ctx_size r.workers) ≡ none
  pub result : m' ≡ launched w r m port

pub launch-IsLaunched :
    (w : World) (r : Request) (m m' : Manager) (port : ℕ)
    → launch w r m ≡ ok (port, m')
    → IsLaunched w r m port m'
launch-IsLaunched w r m m' port h = elim (Option-cases (free_port w.busy m.base_port)) [
  | inl busy ↦ cc (launch_no_port w r m busy)
  | inr (p, found) ↦
      elim (Option-cases (w.starts (launch_args r.model r.gguf p r.ctx_size r.workers))) [
        | inr (e, failed) ↦ cc (launch_not_started w r m p e found failed)
        | inl started ↦
            let e : ◌≡◌ {A = Result EnsureError (ℕ × Manager)} (ok (p, launched w r m p))
                (ok (port, m')) =
              sym (launch_ok w r m p found started) ∙ h in
            let same : p ≡ port = cc in
            let new : launched w r m p ≡ m' = cc in
            record {
              at_port = found ∙ ap some same;
              started =
                  subst (λ k. w.starts (launch_args r.model r.gguf k r.ctx_size r.workers) ≡ none)
                    same started;
              result = sym new ∙ ap (launched w r m) same;
            }
      ]
]

-- With no entry under the model, a launch adds the only process and its entry.
pub launch-IsTracked :
    (w : World) (r : Request) (m m' : Manager) (port : ℕ)
    → find r.model m.pipelines ≡ none
    → launch w r m ≡ ok (port, m')
    → IsTracked m
    → IsTracked m'
launch-IsTracked w r m m' port absent h t =
    let l = launch-IsLaunched w r m m' port h in
    subst IsTracked (sym l.result) (record {
      distinct = store-IsDistinct r.model (pipeline_for w r port m.next_cmd) m.pipelines t.distinct;
      named = All-store _ r.model (pipeline_for w r port m.next_cmd) m.pipelines refl t.named;
      below = (omega arith, All_map _ _ m.running (λ c b. omega arith) t.below);
      owned = (
        any_value-store_self (runs m.next_cmd) r.model (pipeline_for w r port m.next_cmd)
            m.pipelines ((==_iff m.next_cmd m.next_cmd).1 refl),
        All_map _ _ m.running
            (λ c o.
              any_value-store (runs c) r.model (pipeline_for w r port m.next_cmd) m.pipelines
                (λ k. absurd (ground arith)) o)
            t.owned,
      );
    })

-- The entry as it was launched, still under its model.
pub launched-find :
    (w : World) (r : Request) (m : Manager) (port : ℕ)
    → find r.model (launched w r m port).pipelines ≡ some (pipeline_for w r port m.next_cmd)
launched-find w r m port = rw (
  find-store r.model (pipeline_for w r port m.next_cmd) r.model m.pipelines,
  text_eq_refl r.model,
)

pub after_wait-IsTracked :
    (e : Wait) (model : Text) (cmd : ℕ) (m : Manager)
    → IsTracked m
    → IsTracked (after_wait e model cmd m)
unfolding after_wait
after_wait-IsTracked died model cmd m t = reap-IsTracked model cmd m t
after_wait-IsTracked became_ready model cmd m t = t
after_wait-IsTracked gave_up model cmd m t = t
after_wait-IsTracked timed_out model cmd m t = t
