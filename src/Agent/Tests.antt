-- ===== src/Agent/Tests.antt =====
-- A node that hears of a peer, polls it and lends it its memory, and the theorems of agent.go and
-- agent/split.go at concrete inputs.
mod Peers
use mathlib.Core.List.{mem-cons_self}
use mathlib.Core.List.Perm
use potluck.Prelude.{
  ℕ, zero, suc, ◌+◌, ◌*◌, ◌<◌, ◌≡◌, ◌≢◌, refl, inl, inr, Bool, true, false, List, [], ◌∷◌, ◌++◌,
  map, Mem, All, length, Text, bytes, text_eq, ne_of_text_eq, Option, none, some, arith,
}
use potluck.Prelude.Decimal.{decimal}
use potluck.Prelude.Int.{pos}
use potluck.Prelude.Results.{Result, ok, err}
use potluck.Prelude.Sort.{insertion_sort, stable_slice_sort}
use potluck.Samples.{gib, second, small, big, laptop, desktop}
use potluck.Discovery.{PeerHint, ServiceEntry, advertised, browse_once}
use potluck.Gateway.Inference.{Upstream, Outside, handle_inference}
use potluck.Ollamafs.{Store, model_media_type}
use potluck.Registry.{NodeState, snapshot}
use potluck.Resources.{Machine, OllamaState, trim_space}
use potluck.Split.Pipeline.{Manager, new_manager}
use potluck.Split.Pipeline.Tracked.{IsTracked, new_manager-IsTracked}
use potluck.Split.Pipeline.Ensure.{Poll, World}
use potluck.Split.Pipeline.Ensure.Waiting.{IsSpaced}
use potluck.Agent.{
  PoolView, handle_pool, Config, Agent, Answers, build_agent, new_agent, own_state, refresh_self,
  collect_hint, poll_each, prune_peers, handle_state,
}
use potluck.Agent.Identity.{hex, Disk, load_or_create_id}
use potluck.Agent.Identity.Stable.{load_or_create_id_again}
use potluck.Agent.Pooled.{IsPooled, handle_pool-IsPooled}
use potluck.Agent.Steps.{refreshes, hears, polls, prunes, Reachable, starts, later}
use potluck.Agent.Steps.Known.{IsOther, IsInformed, Reachable-IsInformed}
use potluck.Agent.Steps.Homebound.{IsHomebound, Reachable-IsHomebound}
use potluck.Agent.Steps.Present.{AnswersAs, own_state_kept, poll_each_impostor}

-- A node that starts for the first time, and then again.
abbrev first_start : Disk
first_start = record {
  home = true;
  file = none;
  random = some (1 ∷ 35 ∷ 69 ∷ 103 ∷ 137 ∷ 171 ∷ 205 ∷ 239 ∷ []);
  makes_dir = true;
  writes = true;
}

first_id :
    load_or_create_id first_start
    ≡ (some (bytes "0123456789abcdef"), some (bytes "0123456789abcdef" ++ b'\n' ∷ []))
unfolding load_or_create_id
first_id = refl

abbrev second_start : Disk
second_start = record first_start {
  file = some (bytes "0123456789abcdef" ++ b'\n' ∷ []);
  random = none;
}

first_id_answered : (load_or_create_id first_start).0 ≡ some (bytes "0123456789abcdef")
unfolding load_or_create_id
first_id_answered = refl

first_file : second_start.file ≡ (load_or_create_id first_start).1
unfolding load_or_create_id
first_file = refl

load_or_create_id_again_example :
    load_or_create_id second_start
    ≡ (some (bytes "0123456789abcdef"), (load_or_create_id first_start).1)
load_or_create_id_again_example =
    load_or_create_id_again first_start second_start (bytes "0123456789abcdef") refl
      first_id_answered refl first_file

abbrev config : Config
config = record {
  name = bytes "laptop";
  port = 11444;
  ollama_url = bytes "http://127.0.0.1:11434";
  pool = bytes "default";
  token = bytes "secret";
  share = true;
  version = bytes "dev";
  rpc_server_bin = bytes "/usr/bin/rpc-server";
  llama_server_bin = bytes "/usr/bin/llama-server";
  rpc_port = 50752;
  ctx_size = 4096;
  models_dir = bytes "/m";
}

abbrev fresh : Agent
fresh = build_agent (λ name. some name) (some (bytes "laptop.local")) (bytes "laptop") config

abbrev machine : Machine
machine = record {
  os = bytes "linux";
  arch = bytes "amd64";
  num_cpu = pos 8;
  hostname = some (bytes "laptop");
  memory = some (64, 32);
  cpu_models = some (bytes " cpu " ∷ []);
  smi = none;
}

abbrev ollama : OllamaState
ollama = record { ok = true; version = bytes "0.5"; models = laptop.models; loaded = [] }

abbrev desk : ServiceEntry
desk = record {
  text = advertised (bytes "desktop") (bytes "desktop") (bytes "default") (bytes "dev");
  ipv4 = bytes "10.0.0.7" ∷ [];
  ipv6 = [];
  port = 11444;
}

abbrev desk_hint : PeerHint
desk_hint = record {
  id = bytes "desktop";
  name = bytes "desktop";
  pool = bytes "default";
  addr = bytes "10.0.0.7:11444";
}

-- What the desktop answers, under whichever address it believes to have.
abbrev answers : Answers
answers addr = some (100 * second, desktop)

abbrev refreshed : Agent
refreshed = refresh_self (100 * second) machine ollama fresh

abbrev hinted : Agent
hinted = collect_hint desk_hint refreshed

abbrev polled : Agent
polled = poll_each answers hinted.addrs hinted

program : Unit {0}
unfolding build_agent new_agent refresh_self collect_hint poll_each browse_once advertised snapshot
    insertion_sort
program = tt

desk_heard : browse_once (bytes "laptop") (bytes "default") ((desk, true) ∷ []) ≡ desk_hint ∷ []
unfolding program
desk_heard = refl

polled_reached : Reachable polled (desk_hint ∷ [])
unfolding program
polled_reached =
    later hinted polled (desk_hint ∷ []) (desk_hint ∷ [])
      (later refreshed hinted [] (desk_hint ∷ [])
        (later fresh refreshed [] []
          (starts (λ name. some name) (some (bytes "laptop.local")) (some (bytes "laptop")) true
            config fresh refl)
          (refreshes (100 * second) machine ollama))
        (hears ((desk, true) ∷ []) desk_hint mem-cons_self))
      (polls answers hinted.addrs (Perm.refl hinted.addrs))

polled_addrs :
    map (λ (n : NodeState). n.addr) (snapshot stable_slice_sort polled.reg)
    ≡ bytes "laptop:11444" ∷ bytes "10.0.0.7:11444" ∷ []
unfolding program
polled_addrs = refl

Reachable-IsInformed_example : IsInformed polled (desk_hint ∷ [])
Reachable-IsInformed_example = Reachable-IsInformed polled (desk_hint ∷ []) polled_reached

-- A body is its model's name here, and every call is answered with 200.
abbrev outside : Outside
outside = record {
  start = 100 * second;
  now = 101 * second;
  stop = 103 * second;
  nodes = snapshot stable_slice_sort polled.reg;
  model_of = λ body. body;
  ensure_body = λ model workers. model;
  valid = λ target. true;
  answer = λ u. some 200;
  runner = none;
}

Reachable-IsHomebound_example :
    All
      (λ (u : Upstream). IsHomebound (bytes "/api/chat") polled.gateway (desk_hint ∷ []) u.target)
      (handle_inference stable_slice_sort outside
        (bytes "/api/chat")
        (some small)
        polled.gateway).sent
    × ((h : PeerHint) → Mem h (desk_hint ∷ []) → IsOther polled h)
Reachable-IsHomebound_example =
    Reachable-IsHomebound polled (desk_hint ∷ []) stable_slice_sort stable_slice_sort outside
      (bytes "/api/chat") (some small) polled_reached refl

polled_answers : AnswersAs true polled
unfolding program handle_state
polled_answers = (record (own_state machine ollama fresh) { updated_at = 100 * second }, refl, refl)

own_state_kept_example : AnswersAs true (prune_peers (900 * second) polled)
own_state_kept_example =
    own_state_kept {a = polled} {a' = prune_peers (900 * second) polled} {hints = desk_hint ∷ []}
      {hints' = desk_hint ∷ []} (prunes (900 * second)) tt
      (Reachable-IsInformed polled (desk_hint ∷ []) polled_reached).valid polled_answers

-- Behind the desktop's old address there is now this node itself.
abbrev own_answers : Answers
own_answers addr = some (200 * second, laptop)

not_own : bytes "desktop" ≢ bytes "laptop"
unfolding text_eq
not_own = ne_of_text_eq (bytes "desktop") (bytes "laptop") refl

poll_each_impostor_example :
    AnswersAs false
      (poll_each own_answers ([] ++ (bytes "desktop", bytes "10.0.0.7:11444") ∷ []) refreshed)
unfolding program
poll_each_impostor_example =
    poll_each_impostor own_answers [] [] (bytes "desktop") (bytes "10.0.0.7:11444") (200 * second)
      laptop refreshed not_own refl refl

abbrev view : PoolView
view = handle_pool stable_slice_sort (110 * second) polled

both_counted : (view.online_nodes ≡ 2) × (view.total_mem ≡ 64 + 64 * gib)
unfolding program handle_pool
both_counted = (refl, refl)

handle_pool-IsPooled_example : IsPooled (110 * second) (snapshot stable_slice_sort polled.reg) view
handle_pool-IsPooled_example = handle_pool-IsPooled stable_slice_sort (110 * second) polled
