-- ===== src/Agent/Steps/Known.antt =====
-- agent.go: where each state in the registry comes from.
use mathlib.Core.List.Perm
use mathlib.Core.List.{Mem-prop, mem-cons, mem-cons_self, mem-cons_of_mem, not-mem-nil}
use mathlib.Core.Logic.Or
use potluck.Prelude.{
  if_cases, ℕ, ◌*◌, ◌≡◌, ◌≢◌, refl, sym, ◌∙◌, subst, inl, inr, ◌⊎◌, Bool, true, false, List, [],
  ◌∷◌, map, Mem, All, All-mem, All_map, All_of_mem, All-filter, Text, text_eq, Option, none, some,
  if◌then◌else◌,
}
use potluck.Prelude.Dict.{All-store}
use potluck.Discovery.{PeerHint, ServiceEntry, browse_once}
use potluck.Discovery.Scan.{browse_once_sends}
use potluck.Gateway.{new_gateway}
use potluck.Registry.{NodeState, new, upsert, prune}
use potluck.Registry.Laws.{IsValid, upsert-IsValid, prune-IsValid}
use potluck.Resources.{Machine, OllamaState}
use potluck.Scheduler.{stale_after}
use potluck.Agent.{
  Config, Agent, Answers, own_state, build_agent, new_agent, refresh_self, collect_hint, learn,
  poll_each, prune_peers,
}
use potluck.Agent.Steps.{
  Step, refreshes, hears, polls, learns, prunes, serves, Reachable, starts, later,
}

-- Hints of a scan: other nodes of the same pool.
abbrev pub IsOther : Agent → PeerHint → Type 0
IsOther a h = (h.id ≢ a.id) × (h.pool ≡ a.cfg.pool)

-- An address is that of a hint.
abbrev pub IsHinted : List PeerHint → Text → Type 0
IsHinted hints addr = Mem addr (map (λ (h : PeerHint). h.addr) hints)

-- The node's own state, or one that was fetched from a hinted address.
abbrev pub IsSourced : Agent → List PeerHint → NodeState → Type 0
IsSourced a hints n = ((n.self ≡ true) × (n.id ≡ a.id)) ⊎ ((n.self ≡ false) × IsHinted hints n.addr)

pub record IsInformed (a : Agent) (hints : List PeerHint) : Type 0 where
  pub others : (h : PeerHint) → Mem h hints → IsOther a h
  pub reached : All (λ (e : Text × Text). IsHinted hints e.1) a.addrs
  pub valid : IsValid a.reg
  pub sourced : All (λ (e : Text × NodeState). IsSourced a hints e.1) a.reg.nodes
  pub same_id : a.gateway.self_id ≡ a.id

refresh_self-IsInformed :
    (now : ℕ) (machine : Machine) (ollama : OllamaState) (a : Agent) (hints : List PeerHint)
    → IsInformed a hints
    → IsInformed (refresh_self now machine ollama a) hints
unfolding refresh_self own_state upsert
refresh_self-IsInformed now machine ollama a hints i = record {
  others = i.others;
  reached = i.reached;
  valid = upsert-IsValid now (own_state machine ollama a) a.reg i.valid;
  sourced = All-store _ a.id _ a.reg.nodes (inl (refl, refl)) i.sourced;
  same_id = i.same_id;
}

IsHinted-cons :
    (h : PeerHint) (hints : List PeerHint) (addr : Text)
    → IsHinted hints addr
    → IsHinted (h ∷ hints) addr
IsHinted-cons h hints addr m = mem-cons_of_mem h.addr m

IsSourced-cons :
    (a : Agent) (h : PeerHint) (hints : List PeerHint) (n : NodeState)
    → IsSourced a hints n
    → IsSourced a (h ∷ hints) n
IsSourced-cons a h hints n (inl own) = inl own
IsSourced-cons a h hints n (inr (peer, hinted)) = inr (peer, IsHinted-cons h hints n.addr hinted)

IsOther-prop : (a : Agent) (h : PeerHint) → IsProp (IsOther a h)
IsOther-prop a h = hlevel

collect_hint-IsInformed :
    (h : PeerHint) (a : Agent) (hints : List PeerHint)
    → IsOther a h
    → IsInformed a hints
    → IsInformed (collect_hint h a) (h ∷ hints)
unfolding collect_hint
collect_hint-IsInformed h a hints other i = record {
  others = λ k m.
      Or.elim (IsOther-prop a k) (mem-cons.0 m) (λ e. subst (IsOther a) (sym e) other) (i.others k);
  reached =
      All-store _ h.id h.addr a.addrs mem-cons_self
        (All_map _ _ a.addrs (λ e k. IsHinted-cons h hints e.1 k) i.reached);
  valid = i.valid;
  sourced = All_map _ _ a.reg.nodes (λ e k. IsSourced-cons a h hints e.1 k) i.sourced;
  same_id = i.same_id;
}

learn-IsInformed :
    (addr : Text) (answer : Option (ℕ × NodeState)) (a : Agent) (hints : List PeerHint)
    → IsHinted hints addr
    → IsInformed a hints
    → IsInformed (learn addr answer a) hints
unfolding learn upsert
learn-IsInformed addr none a hints hinted i = i
learn-IsInformed addr (some (now, st)) a hints hinted i = record {
  others = i.others;
  reached = i.reached;
  valid = upsert-IsValid now (record st { self = false; addr = addr }) a.reg i.valid;
  sourced = All-store _ st.id _ a.reg.nodes (inr (refl, hinted)) i.sourced;
  same_id = i.same_id;
}

poll_each-IsInformed :
    (answers : Answers) (targets : List (Text × Text)) (a : Agent) (hints : List PeerHint)
    → All (λ (e : Text × Text). IsHinted hints e.1) targets
    → IsInformed a hints
    → IsInformed (poll_each answers targets a) hints
unfolding poll_each
poll_each-IsInformed answers [] a hints t i = i
poll_each-IsInformed answers ((id, addr) ∷ targets) a hints t i =
    poll_each-IsInformed answers targets
      (if text_eq id a.id then a else learn addr (answers addr) a) hints t.1
      (if_cases (λ x. IsInformed x hints) (text_eq id a.id) a _ (λ _. i)
        (λ _. learn-IsInformed addr (answers addr) a hints t.0 i))

prune_peers-IsInformed :
    (now : ℕ) (a : Agent) (hints : List PeerHint)
    → IsInformed a hints
    → IsInformed (prune_peers now a) hints
unfolding prune_peers prune
prune_peers-IsInformed now a hints i = record {
  others = i.others;
  reached = i.reached;
  valid = prune-IsValid now (stale_after * 2) a.reg i.valid;
  sourced = All-filter _ _ a.reg.nodes i.sourced;
  same_id = i.same_id;
}

build_agent-IsInformed :
    (look_path : Text → Option Text) (hostname : Option Text) (id : Text) (cfg : Config)
    → IsInformed (build_agent look_path hostname id cfg) []
unfolding build_agent new new_gateway
build_agent-IsInformed look_path hostname id cfg = record {
  others = λ h m. absurd (not-mem-nil m);
  reached = tt;
  valid = tt;
  sourced = tt;
  same_id = refl;
}

new_agent-IsInformed :
    (look_path : Text → Option Text) (hostname id : Option Text) (valid : Bool) (cfg : Config)
    (a : Agent)
    → new_agent look_path hostname id valid cfg ≡ some a
    → IsInformed a []
unfolding new_agent
new_agent-IsInformed look_path hostname none valid cfg a e = cc
new_agent-IsInformed look_path hostname (some id) true cfg a e =
    let same : build_agent look_path hostname id cfg ≡ a = cc in
    subst (λ x. IsInformed x []) same (build_agent-IsInformed look_path hostname id cfg)
new_agent-IsInformed look_path hostname (some id) false cfg a e = cc

hears-IsOther :
    (a : Agent) (es : List (ServiceEntry × Bool)) (h : PeerHint)
    → Mem h (browse_once a.id a.cfg.pool es)
    → IsOther a h
hears-IsOther a es h m =
    All-mem (IsOther a) (browse_once a.id a.cfg.pool es) h (IsOther-prop a)
      (All_map _ _ (browse_once a.id a.cfg.pool es) (λ k i. (i.other, i.same_pool))
        (browse_once_sends a.id a.cfg.pool es))
      m

Step-IsInformed :
    {a a' : Agent} {hints hints' : List PeerHint}
    → Step a hints a' hints'
    → IsInformed a hints
    → IsInformed a' hints'
Step-IsInformed {a} {hints = hints} (refreshes now machine ollama) i =
    refresh_self-IsInformed now machine ollama a hints i
Step-IsInformed {a} {hints = hints} (hears es h m) i =
    collect_hint-IsInformed h a hints (hears-IsOther a es h m) i
Step-IsInformed {a} {hints = hints} (polls answers targets same) i =
    poll_each-IsInformed answers targets a hints
      (All_of_mem _ targets (λ e m.
        All-mem (λ (x : Text × Text). IsHinted hints x.1) a.addrs e (λ _. Mem-prop) i.reached
          (Perm.subset same e m)))
      i
Step-IsInformed {a} {hints = hints} (learns addr answer hinted) i =
    learn-IsInformed addr answer a hints hinted i
Step-IsInformed {a} {hints = hints} (prunes now) i = prune_peers-IsInformed now a hints i
Step-IsInformed (serves gateway worker pipelines e) i = record {
  others = i.others;
  reached = i.reached;
  valid = i.valid;
  sourced = i.sourced;
  same_id = e ∙ i.same_id;
}

-- Whatever the loops and the requests do, in any order, every state in the registry is the node's
-- own or was fetched from an address that mDNS gave for another node of the same pool, each under
-- its ID and none twice.
pub Reachable-IsInformed :
    (a : Agent) (hints : List PeerHint) → Reachable a hints → IsInformed a hints
Reachable-IsInformed a _ (starts look_path hostname id valid cfg a' e) =
    new_agent-IsInformed look_path hostname id valid cfg a e
Reachable-IsInformed a hints (later a' _ hints' _ r step) =
    Step-IsInformed step (Reachable-IsInformed a' hints' r)
