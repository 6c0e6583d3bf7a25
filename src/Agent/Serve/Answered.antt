-- ===== src/Agent/Serve/Answered.antt =====
-- agent/split.go, `handlePipelineEnsure`: a pipeline that a peer asks for.
use potluck.Prelude.{
  ℕ, ◌<◌, ◌≡◌, ◌≢◌, refl, ap, true, false, [], ◌∷◌, length, Text, ◌==◌, Option, none, some,
  if_cases, arith,
}
use potluck.Prelude.Results.{Result, ok, err}
use potluck.Gateway.Proxy.{refuses}
use potluck.Gateway.Proxy.Guarded.{
  IsTrusted, IsStranger, IsTrusted-of_refuses, IsStranger-of_refuses,
}
use potluck.Ollamafs.{Store}
use potluck.Split.Pipeline.{Manager}
use potluck.Split.Pipeline.Tracked.{IsTracked}
use potluck.Split.Pipeline.Ensure.{World}
use potluck.Split.Pipeline.Ensure.Waiting.{IsSpaced}
use potluck.Agent.{Agent}
use potluck.Agent.Drive.{Net, LocalError, ensure_local}
use potluck.Agent.Drive.Local.{IsDriven, ensure_local_lem}
use potluck.Agent.Serve.{
  EnsureRequest, ensured_status, ensured_answer, ensure_decoded, handle_pipeline_ensure,
}

module _ (net : Net) (store : Store) (w : World) (a : Agent) where
  abbrev pub IsDrivenFor : EnsureRequest → Result LocalError ℕ → Manager → Type 0
  IsDrivenFor r =
      IsDriven net store w a.cfg.models_dir a.cfg.token a.cfg.ctx_size r.model r.workers a.pipelines

  -- What `handlePipelineEnsure` comes to: an answer, the port with it, and the agent that it leaves.
  pub data IsPeerEnsure (header : Text) : Option EnsureRequest → ℕ × Option ℕ × Agent → Type 0 where
    stranger :
        (body : Option EnsureRequest)
        → IsStranger a.cfg.token header
        → IsPeerEnsure header body (401, none, a)
    undecoded : IsTrusted a.cfg.token header → IsPeerEnsure header none (400, none, a)
    nameless :
        (r : EnsureRequest)
        → IsTrusted a.cfg.token header
        → r.model ≡ []
        → IsPeerEnsure header (some r) (400, none, a)
    failed :
        (r : EnsureRequest) (e : LocalError) (m : Manager)
        → IsTrusted a.cfg.token header
        → r.model ≢ []
        → IsDrivenFor r (err e) m
        → IsPeerEnsure header (some r) (502, none, record a { pipelines = m })
    drives :
        (r : EnsureRequest) (port : ℕ) (m : Manager)
        → IsTrusted a.cfg.token header
        → r.model ≢ []
        → IsDrivenFor r (ok port) m
        → IsPeerEnsure header (some r) (200, some port, record a { pipelines = m })

  abbrev pub Ended : Text → Option EnsureRequest → Option (ℕ × Option ℕ × Agent) → Type 0
  Ended header body o =
      (answer : ℕ × Option ℕ × Agent) × (o ≡ some answer) × IsPeerEnsure header body answer

  answered :
      (header : Text) (r : EnsureRequest) (result : Result LocalError ℕ) (m : Manager)
      → IsTrusted a.cfg.token header
      → r.model ≢ []
      → IsDrivenFor r result m
      → IsPeerEnsure header (some r) (ensured_status a (result, m))
  unfolding ensured_status
  answered header r (ok port) m trusted has_name d = drives r port m trusted has_name d
  answered header r (err e) m trusted has_name d = failed r e m trusted has_name d

  empty_of_length : (t : Text) → (length t == 0) ≡ true → t ≡ []
  empty_of_length [] e = refl
  empty_of_length (b ∷ t) e = absurd (ground arith)

  nonempty_of_length : (t : Text) → (length t == 0) ≡ false → t ≢ []
  nonempty_of_length [] e = absurd (ground arith)
  nonempty_of_length (b ∷ t) e = λ z. cc

  module _ (enough : 1800 < length w.polls) (spaced : IsSpaced w.wait_from w.polls)
      (t : IsTracked a.pipelines) where
    ensured-Ended :
        (header : Text) (r : EnsureRequest)
        → IsTrusted a.cfg.token header
        → r.model ≢ []
        → Ended header (some r) (
            ensured_answer a (
              ensure_local net store w a.cfg.models_dir a.cfg.token a.cfg.ctx_size r.model r.workers
                a.pipelines))
    unfolding ensured_answer
    ensured-Ended header r trusted has_name =
        let (result, m, ends, d) =
          ensure_local_lem net store w a.cfg.models_dir a.cfg.token a.cfg.ctx_size r.model r.workers
            enough spaced a.pipelines t in
        (
          ensured_status a (result, m),
          ap (ensured_answer a) ends,
          answered header r result m trusted has_name d,
        )

    decoded-Ended :
        (header : Text) (body : Option EnsureRequest)
        → IsTrusted a.cfg.token header
        → Ended header body (ensure_decoded net store w body a)
    unfolding ensure_decoded
    decoded-Ended header none trusted = (_, refl, undecoded trusted)
    decoded-Ended header (some r) trusted =
        if_cases (Ended header (some r)) (length r.model == 0) _ _
          (λ e. (_, refl, nameless r trusted (empty_of_length r.model e)))
          (λ e. ensured-Ended header r trusted (nonempty_of_length r.model e))

    -- `handlePipelineEnsure` always answers, where its pipeline is polled at least a second apart: a
    -- request without the pool's token, or whose body cannot be decoded or names no model, is turned
    -- away and changes nothing; any other is answered with 200 and the port that `EnsureLocal` gives,
    -- or with 502 and no port where it fails.
    pub handle_pipeline_ensure_lem :
        (header : Text) (body : Option EnsureRequest)
        → Ended header body (handle_pipeline_ensure net store w header body a)
    unfolding handle_pipeline_ensure
    handle_pipeline_ensure_lem header body =
        if_cases (Ended header body) (refuses a.cfg.token header) _ _
          (λ no_token. (_, refl, stranger body (IsStranger-of_refuses _ _ no_token)))
          (λ passed. decoded-Ended header body (IsTrusted-of_refuses _ _ passed))
