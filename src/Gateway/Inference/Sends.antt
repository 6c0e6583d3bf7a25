-- ===== src/Gateway/Inference/Sends.antt =====
-- gateway.go and split.go: where `handleInference` sends requests.
use potluck.Prelude.{
  if_cases, ℕ, ◌≡◌, ◌≢◌, refl, sym, subst, inl, inr, Bool, true, false, not, List, [], ◌∷◌, ◌++◌,
  map, take, length, ◌==◌, Mem, All, All-append, Text, bytes, text_eq, text_eq_iff, ne_of_text_eq,
  has_prefix, Option, none, some, Bool-cases, if◌then◌else◌,
}
use mathlib.Core.List.{mem-cons_self, mem-cons_of_mem}
use potluck.Prelude.Sort.{SliceSort}
use potluck.Registry.{NodeState}
use potluck.Scheduler.{serves}
use potluck.Scheduler.Pick.{pick_lem}
use potluck.Scheduler.Plan.{Plan, Decision, not_needed, split_over, impossible, plan_split}
use potluck.Scheduler.Plan.Spec.{IsJustified, IsPlan}
use potluck.Scheduler.Plan.Justified.{plan_split-IsJustified}
use potluck.Gateway.{max_body_bytes, Gateway}
use potluck.Gateway.Inference.{
  Upstream, Outside, Handled, own_target, peer_target, local_target, forward, through,
  ensure_remote, after_local, drive_local, decided, drive_remote, forward_split, finished,
  on_one_node, route, handle_inference,
}

mem_middle {ℓ} : {A : Type ℓ} (ahead behind : List A) (x : A) → Mem x (ahead ++ x ∷ behind)
mem_middle [] behind x = mem-cons_self
mem_middle (a ∷ ahead) behind x = mem-cons_of_mem a (mem_middle ahead behind x)

module _ (w : Outside) (path model : Text) (g : Gateway) where
  -- The five addresses a request can go to on behalf of a node: its Ollama, its pipeline, and the
  -- agent that is to start the pipeline.
  pub data IsTarget (n : NodeState) : Text → Type 0 where
    own_ollama : n.id ≡ g.self_id → IsTarget n (own_target g path)
    own_pipeline : n.id ≡ g.self_id → (port : ℕ) → IsTarget n (local_target port path)
    peer_ollama : n.id ≢ g.self_id → IsTarget n (peer_target n.addr (bytes "/proxy/ollama") path)
    peer_pipeline : n.id ≢ g.self_id → IsTarget n (peer_target n.addr (bytes "/proxy/llama") path)
    peer_agent :
        n.id ≢ g.self_id → IsTarget n (peer_target n.addr (bytes "/api/pipeline/ensure") [])

  -- On behalf of a known node that serves the model, with the pool's token.
  abbrev pub IsAllowed : Upstream → Type 0
  IsAllowed u =
      (n : NodeState) × Mem n w.nodes
      × (serves w.now model n ≡ true)
      × IsTarget n u.target
      × (u.token_header ≡ g.token)

  abbrev SendsAllowed : Handled → Type 0
  SendsAllowed h = All IsAllowed h.sent

  ollama-IsTarget :
      (n : NodeState) (own : Bool)
      → text_eq n.id g.self_id ≡ own
      → IsTarget n
          (if own then own_target g path else peer_target n.addr (bytes "/proxy/ollama") path)
  ollama-IsTarget n true e = own_ollama ((text_eq_iff _ _).0 e)
  ollama-IsTarget n false e = peer_ollama (ne_of_text_eq _ _ e)

  forward-sends :
      (n : NodeState) (body : Text)
      → Mem n w.nodes
      → serves w.now model n ≡ true
      → All IsAllowed (forward w path n body g).sent
  unfolding forward own_target peer_target
  forward-sends n body listed serving =
      if_cases SendsAllowed (not (w.valid _)) _ _ (λ _. tt)
        (λ _. ((n, listed, serving, ollama-IsTarget n (text_eq n.id g.self_id) refl, refl), tt))

  through-sends :
      (n : NodeState) (before : List Upstream) (target body : Text)
      → Mem n w.nodes
      → serves w.now model n ≡ true
      → IsTarget n target
      → All IsAllowed before
      → All IsAllowed (through w before target model body g).sent
  unfolding through
  through-sends n before target body listed serving at sent =
      if_cases SendsAllowed (not (w.valid target)) _ _ (λ _. sent)
        (λ _. All-append IsAllowed before _ sent ((n, listed, serving, at, refl), tt))

  after_local-sends :
      (n : NodeState) (body : Text) (started : Option ℕ)
      → Mem n w.nodes
      → serves w.now model n ≡ true
      → n.id ≡ g.self_id
      → All IsAllowed (after_local w path model body g started).sent
  unfolding after_local
  after_local-sends n body none listed serving own = tt
  after_local-sends n body (some port) listed serving own =
      through-sends n [] (local_target port path) body listed serving (own_pipeline own port) tt

  drive_local-sends :
      (n : NodeState) (workers : List Text) (body : Text)
      (runner : Option (Text → List Text → Option ℕ))
      → Mem n w.nodes
      → serves w.now model n ≡ true
      → n.id ≡ g.self_id
      → All IsAllowed (drive_local w path model workers body g runner).sent
  unfolding drive_local
  drive_local-sends n workers body none listed serving own = tt
  drive_local-sends n workers body (some ensure) listed serving own =
      after_local-sends n body (ensure model workers) listed serving own

  ensure_remote-sends :
      (n : NodeState) (workers : List Text)
      → Mem n w.nodes
      → serves w.now model n ≡ true
      → n.id ≢ g.self_id
      → All IsAllowed (ensure_remote w n.addr model workers g).0
  unfolding ensure_remote
  ensure_remote-sends n workers listed serving other =
      if_cases (λ (r : List Upstream × Bool). All IsAllowed r.0) (not (w.valid _)) _ _ (λ _. tt)
        (λ _. ((n, listed, serving, peer_agent other, refl), tt))

  drive_remote-sends :
      (n : NodeState) (body : Text) (ensured : List Upstream × Bool)
      → Mem n w.nodes
      → serves w.now model n ≡ true
      → n.id ≢ g.self_id
      → All IsAllowed ensured.0
      → All IsAllowed (drive_remote w path n.addr model body g ensured).sent
  unfolding drive_remote
  drive_remote-sends n body (before, is_up) listed serving other sent =
      if_cases SendsAllowed is_up _ _
        (λ _.
          through-sends n before (peer_target n.addr (bytes "/proxy/llama") path) body listed
            serving (peer_pipeline other) sent)
        (λ _. sent)

  forward_split-sends :
      (plan : Plan) (body : Text)
      → IsPlan w.now w.nodes model plan
      → All IsAllowed (forward_split w path plan model body g).sent
  unfolding forward_split
  forward_split-sends plan body p =
      let listed = p.driver.listed in
      let serving = p.driver.serving in
      let workers = map (λ (n : NodeState). n.addr) plan.workers in
      if_cases SendsAllowed (text_eq plan.driver.id g.self_id) _ _
        (λ e.
          drive_local-sends plan.driver workers body w.runner listed serving
            ((text_eq_iff _ _).0 e))
        (λ e.
          let other = ne_of_text_eq _ _ e in
          drive_remote-sends plan.driver body _ listed serving other
            (ensure_remote-sends plan.driver workers listed serving other))

  on_one_node-sends : (body : Text) → All IsAllowed (on_one_node w path model body g).sent
  unfolding on_one_node finished
  on_one_node-sends body = elim (pick_lem w.now w.nodes model) [
    | inr (none_serves, _) ↦ rw (none_serves, on_one_node) tt
    | inl (n, picked, placed) ↦
        let listed = subst (Mem n) (sym placed.split) (mem_middle placed.ahead placed.behind n) in
        rw (picked, on_one_node) (forward-sends n body listed placed.passes)
  ]

  decided-sends :
      (body : Text) (d : Decision)
      → IsJustified w.now w.nodes model d
      → All IsAllowed (decided w path model body g d).sent
  unfolding decided finished
  decided-sends body not_needed j = on_one_node-sends body
  decided-sends body (impossible e) j = on_one_node-sends body
  decided-sends body (split_over plan) j = forward_split-sends plan body j

  route-sends :
      (slice : SliceSort NodeState) (body : Text)
      → All IsAllowed (route slice w path model body g).sent
  unfolding route
  route-sends slice body = elim (Bool-cases (has_prefix path (bytes "/v1/"))) [
    | inl speaks_open_ai ↦
        rw (speaks_open_ai, route)
          (decided-sends body (plan_split slice w.now w.nodes model)
            (plan_split-IsJustified w.now w.nodes model slice))
    | inr other ↦ rw (other, route) (on_one_node-sends body)
  ]

-- The model that a request asks for; empty if its body cannot be read.
pub asked : Outside → Option Text → Text
asked w none = []
asked w (some content) = w.model_of (take max_body_bytes content)

-- A request goes only to this node's Ollama or pipeline, or to the agent of another node, always on
-- behalf of a known node that shares, is fresh and holds the model, and with the pool's token.
pub handle_inference-sends :
    (slice : SliceSort NodeState) (w : Outside) (path : Text) (body : Option Text) (g : Gateway)
    → All (IsAllowed w path (asked w body) g) (handle_inference slice w path body g).sent
unfolding handle_inference asked
handle_inference-sends slice w path none g = tt
handle_inference-sends slice w path (some content) g =
    let model = w.model_of (take max_body_bytes content) in
    if_cases (SendsAllowed w path model g) (length model == 0) _ _ (λ _. tt)
      (λ _. route-sends w path model g slice (take max_body_bytes content))
