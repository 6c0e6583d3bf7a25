-- ===== src/Gateway/Inference.antt =====
-- gateway.go and split.go: `handleInference`, `forward`, `forwardSplit` and `ensureRemote`. JSON,
-- the HTTP client, the split runner and the clock are arguments.
pub mod Sends
pub mod Recorded
use potluck.Prelude.{
  ℕ, Bool, true, false, not, List, [], ◌∷◌, ◌++◌, map, take, Text, bytes, text_eq, join, has_prefix,
  length, ◌==◌, if◌then◌else◌, Option, none, some,
}
use potluck.Prelude.Decimal.{decimal}
use potluck.Prelude.Results.{Result, ok, err}
use potluck.Prelude.Sort.{SliceSort}
use potluck.Registry.{NodeState}
use potluck.Scheduler.{pick}
use potluck.Scheduler.Plan.{Plan, Decision, not_needed, split_over, impossible, plan_split}
use potluck.Gateway.{max_body_bytes, Gateway, finish, enter, leave}

-- A POST request that this node sends. The two headers are empty where they are not set.
pub record Upstream : Type 0 where
  pub target : Text
  pub model_header : Text
  pub token_header : Text
  pub body : Text

-- What the outside answers while one request is handled. `answer` is the status of the client's
-- call, `none` if it failed; `runner` is `none` where the node has no split runner.
pub record Outside : Type 0 where
  pub start : ℕ
  pub now : ℕ
  pub stop : ℕ
  pub nodes : List NodeState
  pub model_of : Text → Text
  pub ensure_body : Text → List Text → Text
  pub valid : Text → Bool
  pub answer : Upstream → Option ℕ
  pub runner : Option (Text → List Text → Option ℕ)

-- What was sent upstream, in order, the status of the reply, and the state that is left.
pub record Handled : Type 0 where
  pub sent : List Upstream
  pub status : ℕ
  pub gateway : Gateway

abbrev status_of : Option ℕ → ℕ
status_of none = 502
status_of (some status) = status

abbrev refused : ℕ → Gateway → Handled
refused status g = record { sent = []; status = status; gateway = g }

pub own_target : Gateway → Text → Text
own_target g path = g.ollama_url ++ path

pub peer_target : Text → Text → Text → Text
peer_target addr route path = bytes "http://" ++ addr ++ route ++ path

pub local_target : ℕ → Text → Text
unfolding decimal
local_target port path = bytes "http://127.0.0.1:" ++ decimal port ++ path

-- The counters go around the call only where this node executes the request.
pub forward : Outside → Text → NodeState → Text → Gateway → Handled
unfolding text_eq enter leave own_target peer_target
forward w path node body g =
    let own = text_eq node.id g.self_id in
    let target =
      if own then own_target g path else peer_target node.addr (bytes "/proxy/ollama") path in
    let u : Upstream = record {
      target = target;
      model_header = [];
      token_header = g.token;
      body = body;
    } in
    if not (w.valid target) then refused 500 g else record {
      sent = u ∷ [];
      status = status_of (w.answer u);
      gateway = if own then leave (enter g) else g;
    }

-- The last part of `forwardSplit`: the request to the pipeline.
pub through : Outside → List Upstream → Text → Text → Text → Gateway → Handled
through w before target model body g =
    let u : Upstream = record {
      target = target;
      model_header = model;
      token_header = g.token;
      body = body;
    } in
    if not (w.valid target)
    then record { sent = before; status = 500; gateway = g }
    else record { sent = before ++ u ∷ []; status = status_of (w.answer u); gateway = g }

-- What was sent, and whether the driver's agent answered 200.
pub ensure_remote : Outside → Text → Text → List Text → Gateway → List Upstream × Bool
unfolding peer_target
ensure_remote w addr model workers g =
    let u : Upstream = record {
      target = peer_target addr (bytes "/api/pipeline/ensure") [];
      model_header = [];
      token_header = g.token;
      body = w.ensure_body model workers;
    } in
    if not (w.valid u.target)
    then ([], false)
    else (u ∷ [], elim (w.answer u) [ none ↦ false | some status ↦ status == 200 ])

pub after_local : Outside → Text → Text → Text → Gateway → Option ℕ → Handled
unfolding through local_target
after_local w path model body g none = refused 502 g
after_local w path model body g (some port) = through w [] (local_target port path) model body g

pub drive_local :
    Outside
    → Text
    → Text
    → List Text
    → Text
    → Gateway
    → Option (Text → List Text → Option ℕ)
    → Handled
unfolding after_local
drive_local w path model workers body g none = refused 501 g
drive_local w path model workers body g (some ensure) =
    after_local w path model body g (ensure model workers)

pub drive_remote : Outside → Text → Text → Text → Text → Gateway → List Upstream × Bool → Handled
unfolding through peer_target
drive_remote w path addr model body g (before, is_up) =
    if is_up
    then through w before (peer_target addr (bytes "/proxy/llama") path) model body g
    else record { sent = before; status = 502; gateway = g }

pub forward_split : Outside → Text → Plan → Text → Text → Gateway → Handled
unfolding drive_local drive_remote ensure_remote text_eq
forward_split w path plan model body g =
    let workers = map (λ (n : NodeState). n.addr) plan.workers in
    if text_eq plan.driver.id g.self_id
    then drive_local w path model workers body g w.runner
    else drive_remote w path plan.driver.addr model body g
        (ensure_remote w plan.driver.addr model workers g)

-- The name that the history shows for a plan.
pub display : Plan → Text
unfolding join
display plan =
    plan.driver.name
    ++ bytes "+["
    ++ join (map (λ (n : NodeState). n.name) plan.workers)
    ++ bytes "]"

pub finished : Outside → Text → Text → Text → Handled → Handled
unfolding finish
finished w path model node h = record h {
  gateway =
      finish
        (record {
          start = w.start;
          stop = w.stop;
          path = path;
          model = model;
          node = node;
          status = h.status;
        })
        h.gateway;
}

pub on_one_node : Outside → Text → Text → Text → Gateway → Handled
unfolding forward finished pick
on_one_node w path model body g = elim (pick w.now w.nodes model) [
  | err e ↦ refused 404 g
  | ok node ↦ finished w path model node.name (forward w path node body g)
]

-- A split that is needed and impossible falls back to one node.
pub decided : Outside → Text → Text → Text → Gateway → Decision → Handled
unfolding forward_split display finished on_one_node
decided w path model body g (split_over plan) =
    finished w path model (display plan) (forward_split w path plan model body g)
decided w path model body g not_needed = on_one_node w path model body g
decided w path model body g (impossible e) = on_one_node w path model body g

-- Split pipelines speak the OpenAI dialect only.
pub route : SliceSort NodeState → Outside → Text → Text → Text → Gateway → Handled
unfolding decided on_one_node plan_split has_prefix
route slice w path model body g =
    if has_prefix path (bytes "/v1/")
    then decided w path model body g (plan_split slice w.now w.nodes model)
    else on_one_node w path model body g

-- The body is `none` if reading it failed.
unfoldable pub handle_inference :
    SliceSort NodeState → Outside → Text → Option Text → Gateway → Handled
unfolding route
handle_inference slice w path none g = refused 400 g
handle_inference slice w path (some content) g =
    let body = take max_body_bytes content in
    let model = w.model_of body in
    if length model == 0 then refused 400 g else route slice w path model body g
