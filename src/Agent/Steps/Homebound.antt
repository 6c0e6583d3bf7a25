-- ===== src/Agent/Steps/Homebound.antt =====
-- agent.go and gateway.go together: where the prompts that an agent handles can go.
use mathlib.Core.List.Perm
use potluck.Prelude.{
  ℕ, ◌≡◌, ◌≢◌, sym, ◌∙◌, subst, inl, inr, List, [], ◌∷◌, map, Mem, All, All-mem, All_map, Text,
  Option,
}
use potluck.Prelude.Sort.{SliceSort}
use potluck.Discovery.{PeerHint}
use potluck.Gateway.{Gateway}
use potluck.Gateway.Inference.{
  Upstream, Outside, own_target, peer_target, local_target, handle_inference,
}
use potluck.Gateway.Inference.Sends.{
  IsTarget, own_ollama, own_pipeline, peer_ollama, peer_pipeline, peer_agent, asked,
  handle_inference-sends,
}
use potluck.Registry.{NodeState, before, snapshot}
use potluck.Agent.{Agent}
use potluck.Agent.Steps.{Reachable}
use potluck.Agent.Steps.Known.{IsOther, IsHinted, IsSourced, IsInformed, Reachable-IsInformed}

-- This node's Ollama or one of its pipelines, or the agent at the address of a hint.
pub data IsHomebound (path : Text) (g : Gateway) (hints : List PeerHint) : Text → Type 0 where
  ollama : IsHomebound path g hints (own_target g path)
  pipeline : (port : ℕ) → IsHomebound path g hints (local_target port path)
  peer :
      (addr route suffix : Text)
      → IsHinted hints addr
      → IsHomebound path g hints (peer_target addr route suffix)

-- What is known of any node but this one: its address is that of a hint.
abbrev IsReached : Agent → List PeerHint → NodeState → Type 0
IsReached a hints n = n.id ≢ a.id → IsHinted hints n.addr

IsReached-of_sourced :
    (a : Agent) (hints : List PeerHint) (n : NodeState) → IsSourced a hints n → IsReached a hints n
IsReached-of_sourced a hints n (inl (_, own)) other = absurd (other own)
IsReached-of_sourced a hints n (inr (_, hinted)) other = hinted

All-states :
    (a : Agent) (hints : List PeerHint) (l : List (Text × NodeState))
    → All (λ (e : Text × NodeState). IsSourced a hints e.1) l
    → All (IsReached a hints) (map (λ (e : Text × NodeState). e.1) l)
All-states a hints [] h = tt
All-states a hints (e ∷ l) h = (IsReached-of_sourced a hints e.1 h.0, All-states a hints l h.1)

IsReached-prop : (a : Agent) (hints : List PeerHint) (n : NodeState) → IsProp (IsReached a hints n)
IsReached-prop a hints n = hlevel

mem-snapshot :
    (slice : SliceSort NodeState) (a : Agent) (hints : List PeerHint) (n : NodeState)
    → IsInformed a hints
    → Mem n (snapshot slice a.reg)
    → IsReached a hints n
unfolding snapshot
mem-snapshot slice a hints n i m =
    All-mem (IsReached a hints) _ n (IsReached-prop a hints)
      (All-states a hints a.reg.nodes i.sourced) (Perm.subset (slice.sort-perm before _) n m)

IsHomebound_of_target :
    (w : Outside) (path model : Text) (a : Agent) (hints : List PeerHint) (n : NodeState)
    (target : Text)
    → a.gateway.self_id ≡ a.id
    → IsReached a hints n
    → IsTarget w path model a.gateway n target
    → IsHomebound path a.gateway hints target
IsHomebound_of_target w path model a hints n _ same reached (own_ollama e) = ollama
IsHomebound_of_target w path model a hints n _ same reached (own_pipeline e port) = pipeline port
IsHomebound_of_target w path model a hints n _ same reached (peer_ollama other) =
    peer n.addr _ path (reached (λ e. other (e ∙ sym same)))
IsHomebound_of_target w path model a hints n _ same reached (peer_pipeline other) =
    peer n.addr _ path (reached (λ e. other (e ∙ sym same)))
IsHomebound_of_target w path model a hints n _ same reached (peer_agent other) =
    peer n.addr _ [] (reached (λ e. other (e ∙ sym same)))

-- Whatever came before, a request that the agent routes by a snapshot of its registry goes only to
-- this node's Ollama and pipelines and to addresses that mDNS gave for other nodes of its pool.
pub Reachable-IsHomebound :
    (a : Agent) (hints : List PeerHint) (order slice : SliceSort NodeState) (w : Outside)
    (path : Text) (body : Option Text)
    → Reachable a hints
    → w.nodes ≡ snapshot order a.reg
    → All
        (λ (u : Upstream). IsHomebound path a.gateway hints u.target)
        (handle_inference slice w path body a.gateway).sent
      × ((h : PeerHint) → Mem h hints → IsOther a h)
Reachable-IsHomebound a hints order slice w path body r listed =
    let i = Reachable-IsInformed a hints r in
    (
      All_map _ _ (handle_inference slice w path body a.gateway).sent
          (λ u (n, m, _, at, _).
            IsHomebound_of_target w path (asked w body) a hints n u.target i.same_id
              (mem-snapshot order a hints n i (subst (Mem n) listed m)) at)
          (handle_inference-sends slice w path body a.gateway),
      i.others,
    )
