-- ===== src/Gateway/Tests.antt =====
-- Requests to a small gateway, and its theorems at concrete inputs.
mod Overlap
mod Streamed
use potluck.Prelude.{
  ℕ, ◌*◌, ◌≡◌, refl, Bool, true, false, List, [], ◌∷◌, ◌++◌, map, length, reverse, All, Text, bytes,
  Option, none, some,
}
use potluck.Prelude.Sort.{insertion_sort, stable_slice_sort}
use potluck.Samples.{second, small, big, pool, served}
use potluck.Gateway.{Gateway, new_gateway, Finished, keep}
use potluck.Gateway.Proxy.{Node, PeerRequest, handle_proxy, handle_llama_proxy}
use potluck.Gateway.Proxy.Guarded.{
  IsProxied, IsLlamaProxied, handle_proxy_lem, handle_llama_proxy_lem,
}
use potluck.Gateway.Record.{finish_all, numbered, history_lem}
use potluck.Gateway.Inference.{Upstream, Outside, Handled, handle_inference}
use potluck.Gateway.Models.{TagModel, handle_tags}
use potluck.Gateway.Inference.Sends.{IsAllowed, asked, handle_inference-sends}

abbrev laptop_gateway : Gateway
laptop_gateway = record {
  self_id = bytes "laptop";
  ollama_url = bytes "http://127.0.0.1:11434";
  token = bytes "secret";
  active = potluck.Prelude.Int.pos 0;
  total_served = 0;
  req_id = 0;
  history = [];
}

-- A body is its model's name here, and every call is answered with 200.
abbrev outside : Outside
outside = record {
  start = 100 * second;
  now = 101 * second;
  stop = 103 * second;
  nodes = pool;
  model_of = λ body. body;
  ensure_body = λ model workers. model;
  valid = λ target. true;
  answer = λ u. some 200;
  runner = some (λ model workers. some 50800);
}

abbrev handled : Text → Text → Handled
handled path body = handle_inference stable_slice_sort outside path (some body) laptop_gateway

program : Unit {0}
unfolding handle_inference insertion_sort
program = tt

small_goes_to_the_desktop :
    map (λ (u : Upstream). u.target) (handled (bytes "/api/chat") small).sent
    ≡ bytes "http://10.0.0.1:11444/proxy/ollama/api/chat" ∷ []
unfolding program
small_goes_to_the_desktop = refl

big_is_split :
    map (λ (u : Upstream). u.target) (handled (bytes "/v1/chat/completions") big).sent
    ≡ bytes "http://127.0.0.1:50800/v1/chat/completions" ∷ []
unfolding program
big_is_split = refl

handle_inference-sends_example :
    All
      (IsAllowed outside (bytes "/api/chat") (asked outside (some small)) laptop_gateway)
      (handled (bytes "/api/chat") small).sent
handle_inference-sends_example =
    handle_inference-sends stable_slice_sort outside (bytes "/api/chat") (some small) laptop_gateway

abbrev two_requests : List Finished
two_requests =
    record {
      start = 5;
      stop = 2005;
      path = bytes "/api/chat";
      model = small;
      node = bytes "desktop";
      status = 200;
    }
    ∷ record {
      start = 7;
      stop = 90007;
      path = bytes "/v1/chat/completions";
      model = big;
      node = bytes "laptop";
      status = 502;
    }
    ∷ []

abbrev driver : Node
driver = record { gateway = laptop_gateway; attached = true; pipelines = some served }

abbrev peer_request : PeerRequest
peer_request = record {
  path = bytes "/proxy/ollama/api/chat";
  token_header = bytes "secret";
  model_header = big;
}

path_is_cut :
    (handle_proxy (λ base path. 200) peer_request driver).passed
    ≡ some (bytes "http://127.0.0.1:11434", bytes "/api/chat")
unfolding handle_proxy
path_is_cut = refl

pipeline_is_asked :
    (handle_llama_proxy (λ base path. 200) (100 * second) peer_request driver).passed
    ≡ some (bytes "http://127.0.0.1:50801", bytes "/proxy/ollama/api/chat")
unfolding handle_llama_proxy
pipeline_is_asked = refl

handle_llama_proxy_lem_example :
    IsLlamaProxied
      (100 * second)
      peer_request
      driver
      (handle_llama_proxy (λ base path. 200) (100 * second) peer_request driver)
handle_llama_proxy_lem_example =
    handle_llama_proxy_lem (λ base path. 200) (100 * second) peer_request driver

tags :
    map (λ (m : TagModel). m.name) (handle_tags (101 * second) pool)
    ≡ bytes "llama3.2:latest" ∷ big ∷ []
unfolding program handle_tags
tags = refl
