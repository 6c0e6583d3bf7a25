-- ===== src/Gateway/Proxy.antt =====
-- gateway.go, split.go and internal/agent/split.go: what a node does for its peers.
pub mod Guarded
use potluck.Prelude.{
  ℕ, Bool, true, false, not, ◌&&◌, List, [], ◌∷◌, ◌++◌, Text, bytes, text_eq, trim_prefix, length,
  ◌==◌, if◌then◌else◌, Option, none, some,
}
use potluck.Prelude.Decimal.{decimal}
use potluck.Split.Pipeline.{Manager, port, touch}
use potluck.Gateway.{Gateway, enter, leave}

-- A node as its peers see it: the gateway, whether a split runner is attached, and the manager
-- that the agent, as the runner, asks.
pub record Node : Type 0 where
  pub gateway : Gateway
  pub attached : Bool
  pub pipelines : Option Manager

-- The request of a peer: its path and the two headers, empty if they are not set.
pub record PeerRequest : Type 0 where
  pub path : Text
  pub token_header : Text
  pub model_header : Text

-- The server and the path that the request was passed on to, if it was.
pub record Proxied : Type 0 where
  pub passed : Option (Text × Text)
  pub status : ℕ
  pub node : Node

unfoldable pub refuses : Text → Text → Bool
unfolding text_eq
refuses token header = not (length token == 0) && not (text_eq header token)

abbrev pub turned_away : ℕ → Node → Proxied
turned_away status n = record { passed = none; status = status; node = n }

-- `serve` is the answer of the server behind the proxy.
unfoldable pub handle_proxy : (Text → Text → ℕ) → PeerRequest → Node → Proxied
unfolding refuses enter leave trim_prefix
handle_proxy serve r n =
    let path = trim_prefix r.path (bytes "/proxy/ollama") in
    if refuses n.gateway.token r.token_header then turned_away 401 n else record {
      passed = some (n.gateway.ollama_url, path);
      status = serve n.gateway.ollama_url path;
      node = record n { gateway = leave (enter n.gateway) };
    }

unfoldable pub pipeline_port : Text → Option Manager → Option ℕ
unfolding port
pipeline_port model none = none
pipeline_port model (some m) = port model m

unfoldable pub touch_pipeline : ℕ → Text → Option Manager → Option Manager
unfolding touch
touch_pipeline now model none = none
touch_pipeline now model (some m) = some (touch now model m)

pub loopback : ℕ → Text
unfolding decimal
loopback port = bytes "http://127.0.0.1:" ++ decimal port

-- The end of `handleLlamaProxy`, from the look-up of the port on.
pub pass_on : (Text → Text → ℕ) → ℕ → PeerRequest → Node → Option ℕ → Proxied
unfolding touch_pipeline loopback enter leave trim_prefix
pass_on serve now r n none = turned_away 503 n
pass_on serve now r n (some port) =
    let path = trim_prefix r.path (bytes "/proxy/llama") in
    record {
      passed = some (loopback port, path);
      status = serve (loopback port) path;
      node = record n {
        gateway = leave (enter n.gateway);
        pipelines = touch_pipeline now r.model_header n.pipelines;
      };
    }

unfoldable pub handle_llama_proxy : (Text → Text → ℕ) → ℕ → PeerRequest → Node → Proxied
unfolding refuses pass_on pipeline_port
handle_llama_proxy serve now r n =
    if refuses n.gateway.token r.token_header
    then turned_away 401 n
    else if not n.attached
    then turned_away 501 n
    else pass_on serve now r n (pipeline_port r.model_header n.pipelines)
