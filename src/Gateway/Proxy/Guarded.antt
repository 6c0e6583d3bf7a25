-- ===== src/Gateway/Proxy/Guarded.antt =====
-- gateway.go and split.go: the endpoints for peers, on every branch.
use potluck.Prelude.{
  ℕ, zero, suc, ◌+◌, ◌%◌, ◌^◌, ◌≡◌, ◌≢◌, refl, ap, inl, inr, ◌⊎◌, true, false, [], ◌∷◌, Text, bytes,
  text_eq_iff, trim_prefix, Option, none, some, Bool-cases, arith,
}
use potluck.Prelude.Int.{ℤ, pos, negsuc, ◌+ℤ◌}
use potluck.Gateway.{Gateway, enter, leave}
use potluck.Gateway.Proxy.{
  Node, PeerRequest, Proxied, refuses, turned_away, handle_proxy, pipeline_port, touch_pipeline,
  loopback, pass_on, handle_llama_proxy,
}

back_again : (a : ℤ) → a +ℤ pos 1 +ℤ negsuc 0 ≡ a
unfolding ◌+ℤ◌
back_again (pos n) = ground arith
back_again (negsuc zero) = refl
back_again (negsuc (suc n)) = ground arith

-- The counters after one more request that this node has executed.
abbrev pub served_one : Gateway → Gateway
served_one g = record g { total_served = (g.total_served + 1) % 2 ^ 64 }

leave-enter : (g : Gateway) → leave (enter g) ≡ served_one g
unfolding enter leave
leave-enter g = ap (λ (a : ℤ). record (served_one g) { active = a }) (back_again g.active)

-- The pool has no token, or the request carries it.
abbrev pub IsTrusted : Text → Text → Type 0
IsTrusted token header = (token ≡ []) ⊎ (header ≡ token)

-- The pool has a token and the request does not carry it.
abbrev pub IsStranger : Text → Text → Type 0
IsStranger token header = (token ≢ []) × (header ≢ token)

pub IsTrusted-of_refuses :
    (token header : Text) → refuses token header ≡ false → IsTrusted token header
unfolding refuses
IsTrusted-of_refuses [] header h = inl refl
IsTrusted-of_refuses (b ∷ token) header h = inr ((text_eq_iff header (b ∷ token)).0 (ground arith))

pub IsStranger-of_refuses :
    (token header : Text) → refuses token header ≡ true → IsStranger token header
unfolding refuses
IsStranger-of_refuses [] header h = absurd (ground arith)
IsStranger-of_refuses (b ∷ token) header h =
    (λ e. cc, λ e. ground (arith, (text_eq_iff header (b ∷ token)).1 e))

-- What `handleProxy` does with a request: it turns strangers away.
abbrev pub IsProxied : PeerRequest → Node → Proxied → Type 0
IsProxied r n p =
    (IsStranger n.gateway.token r.token_header × (p ≡ turned_away 401 n))
    ⊎ (IsTrusted n.gateway.token r.token_header
        × (p.passed ≡ some (n.gateway.ollama_url, trim_prefix r.path (bytes "/proxy/ollama")))
        × (p.node ≡ record n { gateway = served_one n.gateway }))

-- `handleProxy` turns a request without the pool's token away and changes nothing. It passes any
-- other on to the node's Ollama, under its path there, and counts it as served; nothing is in
-- flight any more afterwards that was not before.
pub handle_proxy_lem :
    (serve : Text → Text → ℕ) (r : PeerRequest) (n : Node) → IsProxied r n (handle_proxy serve r n)
unfolding handle_proxy
handle_proxy_lem serve r n = elim (Bool-cases (refuses n.gateway.token r.token_header)) [
  | inl refused ↦ inl (IsStranger-of_refuses _ _ refused, rw (refused, handle_proxy))
  | inr trusted ↦ inr (
    IsTrusted-of_refuses _ _ trusted,
    rw (trusted, handle_proxy),
    rw (trusted, handle_proxy)
        (ap (λ (g : Gateway). record n { gateway = g }) (leave-enter n.gateway)),
  )
]

-- What `handleLlamaProxy` does with a trusted request, by the port of a ready pipeline.
abbrev pub IsPassedOn : ℕ → PeerRequest → Node → Option ℕ → Proxied → Type 0
IsPassedOn now r n none p = p ≡ turned_away 503 n
IsPassedOn now r n (some port) p =
    (p.passed ≡ some (loopback port, trim_prefix r.path (bytes "/proxy/llama")))
    × (p.node ≡ record n {
      gateway = served_one n.gateway;
      pipelines = touch_pipeline now r.model_header n.pipelines;
    })

abbrev pub IsLlamaProxied : ℕ → PeerRequest → Node → Proxied → Type 0
IsLlamaProxied now r n p =
    (IsStranger n.gateway.token r.token_header × (p ≡ turned_away 401 n))
    ⊎ (IsTrusted n.gateway.token r.token_header
        × (((n.attached ≡ false) × (p ≡ turned_away 501 n))
            ⊎ ((n.attached ≡ true)
                × IsPassedOn now r n (pipeline_port r.model_header n.pipelines) p)))

pass_on-IsPassedOn :
    (serve : Text → Text → ℕ) (now : ℕ) (r : PeerRequest) (n : Node) (port : Option ℕ)
    → IsPassedOn now r n port (pass_on serve now r n port)
unfolding pass_on
pass_on-IsPassedOn serve now r n none = refl
pass_on-IsPassedOn serve now r n (some port) = (
  refl,
  ap
      (λ (g : Gateway). record n {
        gateway = g;
        pipelines = touch_pipeline now r.model_header n.pipelines;
      })
      (leave-enter n.gateway),
)

-- `handleLlamaProxy` turns away a request without the pool's token, any request if no runner is
-- attached, and one for a model without a ready pipeline, and changes nothing. Any other it passes
-- on to the pipeline's port, marks the pipeline as used, and counts the request as served.
pub handle_llama_proxy_lem :
    (serve : Text → Text → ℕ) (now : ℕ) (r : PeerRequest) (n : Node)
    → IsLlamaProxied now r n (handle_llama_proxy serve now r n)
unfolding handle_llama_proxy
handle_llama_proxy_lem serve now r n = elim (Bool-cases (refuses n.gateway.token r.token_header)) [
  | inl refused ↦ inl (IsStranger-of_refuses _ _ refused, rw (refused, handle_llama_proxy))
  | inr trusted ↦ inr (
    IsTrusted-of_refuses _ _ trusted,
    elim (Bool-cases n.attached) [
      | inl attached ↦ inr (
        attached,
        rw (trusted, handle_llama_proxy)
            (simp attached
              (pass_on-IsPassedOn serve now r n (pipeline_port r.model_header n.pipelines))),
      )
      | inr detached ↦ inl (detached, rw (trusted, handle_llama_proxy) (rw detached))
    ],
  )
]
