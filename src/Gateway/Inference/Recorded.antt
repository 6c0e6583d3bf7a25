-- ===== src/Gateway/Inference/Recorded.antt =====
-- gateway.go: a request for a model that some node serves is routed and recorded.
use potluck.Prelude.{
  ℕ, ◌+◌, ◌-◌, ◌/◌, ◌≡◌, ◌≢◌, refl, ap, ◌∙◌, inl, inr, ◌⊎◌, Bool, true, false, not, List, [], ◌∷◌,
  ◌++◌, take, length, ◌==◌, Text, text_eq, has_prefix, bytes, Option, none, some, if_cases,
}
use potluck.Prelude.Results.{ok}
use potluck.Prelude.Sort.{SliceSort}
use potluck.Registry.{NodeState}
use potluck.Scheduler.{pick}
use potluck.Scheduler.Plan.{Plan, Decision, not_needed, split_over, impossible, plan_split}
use potluck.Gateway.{
  keep, Gateway, RequestRecord, max_body_bytes, enter, leave, finish, record_request,
}
use potluck.Gateway.Inference.{
  display, Upstream, Outside, Handled, forward, through, after_local, drive_local, drive_remote,
  ensure_remote, forward_split, finished, on_one_node, decided, route, handle_inference,
}

-- A request went upstream, or why none could: a target is no URL, this node is to drive and has no
-- split runner, or its pipeline could not be brought up.
pub data IsTried (w : Outside) (sent : List Upstream) (status : ℕ) : Type 0 where
  went_out : sent ≢ [] → IsTried w sent status
  unbuilt : (t : Text) → w.valid t ≡ false → (status ≡ 500) ⊎ (status ≡ 502) → IsTried w sent status
  undriven : w.runner ≡ none → status ≡ 501 → IsTried w sent status
  unloaded :
      (run : Text → List Text → Option ℕ) (model : Text) (workers : List Text)
      → w.runner ≡ some run
      → run model workers ≡ none
      → status ≡ 502
      → IsTried w sent status

-- The name under which the history shows who serves the request: the node that `Pick` chooses, or the
-- driver and the workers of the plan.
pub data IsTarget (slice : SliceSort NodeState) (w : Outside) (model : Text) : Text → Type 0 where
  one_node : (n : NodeState) → pick w.now w.nodes model ≡ ok n → IsTarget slice w model n.name
  pipeline :
      (plan : Plan)
      → plan_split slice w.now w.nodes model ≡ split_over plan
      → IsTarget slice w model (display plan)

-- A request that was routed: it was tried, and the newest record is its own, with the status that the
-- client got.
pub record IsRouted (slice : SliceSort NodeState) (w : Outside) (path model : Text) (g : Gateway)
    (h : Handled) : Type 0 where
  pub tried : IsTried w h.sent h.status
  pub node : Text
  pub target : IsTarget slice w model node
  pub numbered : h.gateway.req_id ≡ g.req_id + 1
  pub recorded :
      h.gateway.history
      ≡ take keep (
          record {
            id = g.req_id + 1;
            time = w.start;
            path = path;
            model = model;
            node = node;
            status = h.status;
            duration = (w.stop - w.start) / 1000;
          }
          ∷ g.history)

-- It was tried, and is not recorded yet.
abbrev IsPending : Outside → Gateway → Handled → Type 0
IsPending w g h =
    IsTried w h.sent h.status × (h.gateway.req_id ≡ g.req_id) × (h.gateway.history ≡ g.history)

false_of_not : (b : Bool) → not b ≡ true → b ≡ false
false_of_not true h = cc
false_of_not false h = refl

cons-ne_nil : (u : Upstream) → u ∷ [] ≢ []
cons-ne_nil u e = cc

append-ne_nil : (us : List Upstream) (u : Upstream) → us ++ u ∷ [] ≢ []
append-ne_nil [] u e = cc
append-ne_nil (v ∷ us) u e = cc

pair_eq :
    {a b : ℕ} {x y : List RequestRecord}
    → a ≡ b
    → x ≡ y
    → ◌≡◌ {A = ℕ × List RequestRecord} (a, x) (b, y)
pair_eq {b = b} {x} e f = ap (λ (i : ℕ). (i, x)) e ∙ ap (λ (z : List RequestRecord). (b, z)) f

forward-IsPending :
    (w : Outside) (path : Text) (node : NodeState) (body : Text) (g : Gateway)
    → IsPending w g (forward w path node body g)
unfolding forward enter leave
forward-IsPending w path node body g =
    if_cases (IsPending w g) (not (w.valid _)) _ _
      (λ bad. (unbuilt _ (false_of_not _ bad) (inl refl), refl, refl))
      (λ good. (
        went_out (cons-ne_nil _),
        if_cases (λ (x : Gateway). x.req_id ≡ g.req_id) (text_eq node.id g.self_id) _ _ (λ _. refl)
            (λ _. refl),
        if_cases (λ (x : Gateway). x.history ≡ g.history) (text_eq node.id g.self_id) _ _
            (λ _. refl) (λ _. refl),
      ))

through-IsPending :
    (w : Outside) (before : List Upstream) (target model body : Text) (g : Gateway)
    → IsPending w g (through w before target model body g)
unfolding through
through-IsPending w before target model body g =
    if_cases (IsPending w g) (not (w.valid target)) _ _
      (λ bad. (unbuilt target (false_of_not _ bad) (inl refl), refl, refl))
      (λ good. (went_out (append-ne_nil before _), refl, refl))

drive_local-IsPending :
    (w : Outside) (path model : Text) (workers : List Text) (body : Text) (g : Gateway)
    (runner : Option (Text → List Text → Option ℕ))
    → w.runner ≡ runner
    → IsPending w g (drive_local w path model workers body g runner)
unfolding drive_local after_local
drive_local-IsPending w path model workers body g none has = (undriven has refl, refl, refl)
drive_local-IsPending w path model workers body g (some run) has = after (run model workers) refl
  where
    after :
        (port : Option ℕ)
        → run model workers ≡ port
        → IsPending w g (after_local w path model body g port)
    after none e = (unloaded run model workers has e refl, refl, refl)
    after (some port) e = through-IsPending w [] _ model body g

asked-IsPending :
    (w : Outside) (path addr model body : Text) (g : Gateway) (u : Upstream) (is_up : Bool)
    → IsPending w g (drive_remote w path addr model body g (u ∷ [], is_up))
unfolding drive_remote
asked-IsPending w path addr model body g u true = through-IsPending w (u ∷ []) _ model body g
asked-IsPending w path addr model body g u false = (went_out (cons-ne_nil u), refl, refl)

drive_remote-IsPending :
    (w : Outside) (path addr model : Text) (workers : List Text) (body : Text) (g : Gateway)
    → IsPending w g (drive_remote w path addr model body g (ensure_remote w addr model workers g))
unfolding drive_remote ensure_remote
drive_remote-IsPending w path addr model workers body g =
    if_cases (λ (r : List Upstream × Bool). IsPending w g (drive_remote w path addr model body g r))
      (not (w.valid _)) _ _ (λ bad. (unbuilt _ (false_of_not _ bad) (inr refl), refl, refl))
      (λ good. asked-IsPending w path addr model body g _ _)

forward_split-IsPending :
    (w : Outside) (path : Text) (plan : Plan) (model body : Text) (g : Gateway)
    → IsPending w g (forward_split w path plan model body g)
unfolding forward_split
forward_split-IsPending w path plan model body g =
    if_cases (IsPending w g) (text_eq plan.driver.id g.self_id) _ _
      (λ _. drive_local-IsPending w path model _ body g w.runner refl)
      (λ _. drive_remote-IsPending w path plan.driver.addr model _ body g)

module _ (slice : SliceSort NodeState) (w : Outside) (path model : Text) (g : Gateway) where
  finished-IsRouted :
      (node : Text) (h : Handled)
      → IsTarget slice w model node
      → IsPending w g h
      → IsRouted slice w path model g (finished w path model node h)
  unfolding finished finish record_request
  finished-IsRouted node h target (tried, same_id, same_history) = record {
    tried = tried;
    node = node;
    target = target;
    numbered = ap (λ i. i + 1) same_id;
    recorded =
        ap
          (λ (p : ℕ × List RequestRecord). take keep (
            record {
              id = p.0 + 1;
              time = w.start;
              path = path;
              model = model;
              node = node;
              status = h.status;
              duration = (w.stop - w.start) / 1000;
            }
            ∷ p.1))
          (pair_eq same_id same_history);
  }

  module _ (body : Text) (n : NodeState) (found : pick w.now w.nodes model ≡ ok n) where
    on_one_node-IsRouted : IsRouted slice w path model g (on_one_node w path model body g)
    unfolding on_one_node
    on_one_node-IsRouted =
        rw (on_one_node, found)
          (finished-IsRouted n.name (forward w path n body g) (one_node n found)
            (forward-IsPending w path n body g))

    decided-IsRouted :
        (d : Decision)
        → plan_split slice w.now w.nodes model ≡ d
        → IsRouted slice w path model g (decided w path model body g d)
    unfolding decided
    decided-IsRouted (split_over plan) e =
        finished-IsRouted (display plan) (forward_split w path plan model body g) (pipeline plan e)
          (forward_split-IsPending w path plan model body g)
    decided-IsRouted not_needed e = on_one_node-IsRouted
    decided-IsRouted (impossible e') e = on_one_node-IsRouted

    route-IsRouted : IsRouted slice w path model g (route slice w path model body g)
    unfolding route
    route-IsRouted =
        if_cases (IsRouted slice w path model g) (has_prefix path (bytes "/v1/")) _ _
          (λ _. decided-IsRouted (plan_split slice w.now w.nodes model) refl)
          (λ _. on_one_node-IsRouted)

    -- A request for a model that some node serves.
    pub handle_inference-IsRouted :
        (content : Text)
        → w.model_of (take max_body_bytes content) ≡ model
        → take max_body_bytes content ≡ body
        → (length model == 0) ≡ false
        → IsRouted slice w path model g (handle_inference slice w path (some content) g)
    unfolding handle_inference
    handle_inference-IsRouted content asks same has_name = rw (asks, same, has_name) route-IsRouted
