-- ===== src/Agent/Steps.antt =====
-- agent.go, `Run`: the loops of the agent and its HTTP server, as steps that come in any order.
pub mod Known
pub mod Homebound
pub mod Present
use potluck.Prelude.{ℕ, ◌≡◌, List, [], ◌∷◌, map, Mem, Perm, Bool, true, Text, Option, some}
use potluck.Discovery.{PeerHint, ServiceEntry, browse_once}
use potluck.Gateway.{Gateway}
use potluck.Resources.{Machine, OllamaState}
use potluck.Registry.{NodeState}
use potluck.Split.Pipeline.{Manager}
use potluck.Split.Worker.{Worker}
use potluck.Agent.{
  Config, Agent, Answers, new_agent, refresh_self, collect_hint, learn, poll_each, prune_peers,
}

-- One tick of a loop, one hint taken from the channel, or a request: this may change the gateway's
-- counters and history and the processes, but neither the gateway's own ID nor the other parts.
-- Beside the state stand the hints taken so far. `polls` is a poll that nothing comes between; of one
-- that other steps come between, each round is a step `learns`, whose address was copied earlier.
pub data Step (a : Agent) (hints : List PeerHint) : Agent → List PeerHint → Type 0 where
  refreshes :
      (now : ℕ) (machine : Machine) (ollama : OllamaState)
      → Step a hints (refresh_self now machine ollama a) hints
  hears :
      (es : List (ServiceEntry × Bool)) (h : PeerHint)
      → Mem h (browse_once a.id a.cfg.pool es)
      → Step a hints (collect_hint h a) (h ∷ hints)
  polls :
      (answers : Answers) (targets : List (Text × Text))
      → Perm targets a.addrs
      → Step a hints (poll_each answers targets a) hints
  learns :
      (addr : Text) (answer : Option (ℕ × NodeState))
      → Mem addr (map (λ (h : PeerHint). h.addr) hints)
      → Step a hints (learn addr answer a) hints
  prunes : (now : ℕ) → Step a hints (prune_peers now a) hints
  serves :
      (gateway : Gateway) (worker : Worker) (pipelines : Manager)
      → gateway.self_id ≡ a.gateway.self_id
      → Step a hints (record a { gateway = gateway; worker = worker; pipelines = pipelines }) hints

pub data Reachable : Agent → List PeerHint → Type 0 where
  starts :
      (look_path : Text → Option Text) (hostname id : Option Text) (valid : Bool) (cfg : Config)
      (a : Agent)
      → new_agent look_path hostname id valid cfg ≡ some a
      → Reachable a []
  later :
      (a a' : Agent) (hints hints' : List PeerHint)
      → Reachable a hints
      → Step a hints a' hints'
      → Reachable a' hints'
