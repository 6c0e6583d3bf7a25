-- ===== src/Split.antt =====
-- internal/split/split.go: the binaries, a pipeline's description and the memory estimates.
pub mod Memory
pub mod Logs
pub mod Pipeline
pub mod Worker
mod Tests
use potluck.Prelude.{
  ℕ, ◌*◌, ◌/◌, ◌^◌, ◌≡◌, refl, List, Text, bytes, text_eq, Option, none, some, if◌then◌else◌,
}
use potluck.Prelude.Float64.{round_float64}

-- Empty paths mean that the capability is unavailable.
pub record Binaries : Type 0 where
  pub rpc_server : Text
  pub llama_server : Text

-- `exec.LookPath` is the parameter `look_path`.
pub resolve : (Text → Option Text) → Text → Text → Text
unfolding text_eq
resolve look_path explicit name =
    if text_eq explicit (bytes "")
    then elim (look_path name) [ none ↦ bytes "" | some p ↦ p ]
    else elim (look_path explicit) [ none ↦ bytes "" | some p ↦ p ]

unfoldable pub detect : (Text → Option Text) → Text → Text → Binaries
unfolding resolve
detect look_path rpc_server_path llama_server_path = record {
  rpc_server = resolve look_path rpc_server_path (bytes "rpc-server");
  llama_server = resolve look_path llama_server_path (bytes "llama-server");
}

pub data PipelineState : Type 0 where
  loading ready error : PipelineState

pub record PipelineInfo : Type 0 where
  pub model : Text
  pub state : PipelineState
  pub workers : List Text
  pub started_at : ℕ
  pub last_used : ℕ
  pub error_text : Text

-- `uint64(float64(modelSize) * 1.25)`: 1.25 is the double 5 / 2 ^ 2. Go leaves the conversion open where
-- the product is 2 ^ 64 or more, for sizes from 0.8 * 2 ^ 64 on; here it is the product there.
unfoldable pub need : ℕ → ℕ
unfolding round_float64
need model_size = round_float64 (round_float64 model_size * 5) / 4

-- `uint64(float64(memAvailable) * 0.80)`: 0.80 is the double 7205759403792794 / 2 ^ 53.
unfoldable pub usable : ℕ → ℕ
unfolding round_float64
usable mem_available = round_float64 (round_float64 mem_available * 7205759403792794) / 2 ^ 53
