-- ===== src/Gateway.antt =====
-- internal/gateway/gateway.go and split.go: how a request is routed, forwarded and recorded.
pub mod Record
pub mod Stream
pub mod Traffic
pub mod Inference
pub mod Proxy
pub mod Models
mod Tests
use potluck.Prelude.{
  ℕ, suc, ◌+◌, ◌-◌, ◌*◌, ◌/◌, ◌%◌, ◌^◌, Bool, true, false, not, ◌&&◌, List, [], ◌∷◌, take, Text,
  bytes, text_eq, if◌then◌else◌, Option, none, some,
}
use potluck.Prelude.Int.{ℤ, pos, negsuc, ◌+ℤ◌}

abbrev pub keep : ℕ
keep = 100

-- 64 MiB.
abbrev pub max_body_bytes : ℕ
max_body_bytes = 64 * 2 ^ 20

-- The duration is in microseconds; the source divides it by 1000 for display.
pub record RequestRecord : Type 0 where
  pub id : ℕ
  pub time : ℕ
  pub path : Text
  pub model : Text
  pub node : Text
  pub status : ℕ
  pub duration : ℕ

pub record Gateway : Type 0 where
  pub self_id : Text
  pub ollama_url : Text
  pub token : Text
  pub active : ℤ
  pub total_served : ℕ
  pub req_id : ℕ
  pub history : List RequestRecord

unfoldable pub new_gateway : Text → Text → Text → Gateway
new_gateway self_id ollama_url token = record {
  self_id = self_id;
  ollama_url = ollama_url;
  token = token;
  active = pos 0;
  total_served = 0;
  req_id = 0;
  history = [];
}

-- Newest first, a hundred at most.
unfoldable pub record_request : RequestRecord → Gateway → Gateway
record_request r g = record g { history = take keep (r ∷ g.history) }

-- What a finished request was: when it began and ended, and where it went.
pub record Finished : Type 0 where
  pub start : ℕ
  pub stop : ℕ
  pub path : Text
  pub model : Text
  pub node : Text
  pub status : ℕ

abbrev pub record_of : Finished → ℕ → RequestRecord
record_of f id = record {
  id = id;
  time = f.start;
  path = f.path;
  model = f.model;
  node = f.node;
  status = f.status;
  duration = (f.stop - f.start) / 1000;
}

unfoldable pub finish : Finished → Gateway → Gateway
unfolding record_request
finish f g = let id = g.req_id + 1 in record_request (record_of f id) (record g { req_id = id })

-- The counters around a request that this node executes: `defer` runs `leave` on every return.
unfoldable pub enter : Gateway → Gateway
unfolding ◌+ℤ◌
enter g = record g { active = g.active +ℤ pos 1 }

unfoldable pub leave : Gateway → Gateway
unfolding ◌+ℤ◌
leave g = record g { active = g.active +ℤ negsuc 0; total_served = (g.total_served + 1) % 2 ^ 64 }
