-- ===== src/Agent/Serve/Gated.antt =====
-- agent/split.go: the endpoints for peers, on every branch.
use potluck.Prelude.{
  ℕ, ◌≡◌, refl, sym, ap, ◌∙◌, inl, inr, true, false, not, [], ◌∷◌, Text, Option, none, some,
  if_cases, arith,
}
use potluck.Gateway.Proxy.{refuses}
use potluck.Gateway.Proxy.Guarded.{
  IsTrusted, IsStranger, IsTrusted-of_refuses, IsStranger-of_refuses,
}
use potluck.Split.Worker.{Worker, installed, ensure_worker, gone, begin_from, begin_stop, end_stop}
use potluck.Split.Worker.Single.{IsSingle}
use potluck.Agent.{Agent}
use potluck.Agent.Serve.{
  Start, started_worker, stop_cmd, stop_worker, handle_rpc_start, handle_rpc_stop,
}

-- What `handleRPCStart` comes to: an answer, and the agent that it leaves.
pub data IsRpcStart (s : Start) (header : Text) (a : Agent) : ℕ × Agent → Type 0 where
  stranger : IsStranger a.cfg.token header → IsRpcStart s header a (401, a)
  missing :
      IsTrusted a.cfg.token header → installed a.worker ≡ false → IsRpcStart s header a (501, a)
  unshared :
      IsTrusted a.cfg.token header
      → installed a.worker ≡ true
      → a.cfg.share ≡ false
      → IsRpcStart s header a (403, a)
  lent :
      IsTrusted a.cfg.token header
      → installed a.worker ≡ true
      → a.cfg.share ≡ true
      → IsRpcStart s header a (started_worker s a (ensure_worker s.starts s.devices a.worker))

-- `handleRPCStart` starts rpc-server only for a request with the pool's token, on a node that has
-- it installed and shares its compute; any other request is turned away and changes nothing.
pub handle_rpc_start-IsRpcStart :
    (s : Start) (header : Text) (a : Agent) → IsRpcStart s header a (handle_rpc_start s header a)
unfolding handle_rpc_start
handle_rpc_start-IsRpcStart s header a =
    if_cases (IsRpcStart s header a) (refuses a.cfg.token header) _ _
      (λ no_token. stranger (IsStranger-of_refuses _ _ no_token))
      (λ passed.
        let trusted = IsTrusted-of_refuses _ _ passed in
        if_cases (IsRpcStart s header a) (not (installed a.worker)) _ _
          (λ absent. missing trusted (ground arith))
          (λ present.
            if_cases (IsRpcStart s header a) (not a.cfg.share) _ _
              (λ kept. unshared trusted (ground arith) (ground arith))
              (λ shared. lent trusted (ground arith) (ground arith))))

gone_only : (c d : ℕ) → c ≡ d → gone d (c ∷ []) ≡ []
gone_only c d e = ground arith

stop_cmd-alive :
    (w : Worker) (cmd : Option ℕ)
    → w.cmd ≡ cmd
    → IsSingle w
    → (stop_cmd cmd (begin_from w cmd)).alive ≡ []
unfolding stop_cmd begin_from end_stop
stop_cmd-alive w none e (inl nothing) = nothing
stop_cmd-alive w none e (inr (c, held, runs)) = cc
stop_cmd-alive w (some d) e (inl nothing) = ap (gone d) nothing
stop_cmd-alive w (some d) e (inr (c, held, runs)) =
    ap (gone d) runs
    ∙ gone_only c d (let same : ◌≡◌ {A = Option ℕ} (some c) (some d) = sym held ∙ e in cc)

-- What `handleRPCStop` comes to.
pub data IsRpcStop (header : Text) (a : Agent) : ℕ × Agent → Type 0 where
  stranger : IsStranger a.cfg.token header → IsRpcStop header a (401, a)
  stopped :
      (w : Worker)
      → IsTrusted a.cfg.token header
      → w.alive ≡ []
      → w.port ≡ a.worker.port
      → IsRpcStop header a (200, record a { worker = w })

stop_cmd-port : (w : Worker) (cmd : Option ℕ) → (stop_cmd cmd (begin_from w cmd)).port ≡ w.port
unfolding stop_cmd begin_from end_stop
stop_cmd-port w none = refl
stop_cmd-port w (some d) = refl

-- `handleRPCStop` leaves no rpc-server running, where at most the one that `cmd` holds was, but only
-- for a request with the pool's token; any other is answered with 401 and changes nothing.
pub handle_rpc_stop-IsRpcStop :
    (header : Text) (a : Agent) → IsSingle a.worker → IsRpcStop header a (handle_rpc_stop header a)
unfolding handle_rpc_stop stop_worker begin_stop
handle_rpc_stop-IsRpcStop header a single =
    if_cases (IsRpcStop header a) (refuses a.cfg.token header) _ _
      (λ no_token. stranger (IsStranger-of_refuses _ _ no_token))
      (λ passed.
        stopped (stop_worker a.worker) (IsTrusted-of_refuses _ _ passed)
          (stop_cmd-alive a.worker a.worker.cmd refl single) (stop_cmd-port a.worker a.worker.cmd))
