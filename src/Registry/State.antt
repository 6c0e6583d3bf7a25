-- ===== src/Registry/State.antt =====
-- internal/registry/registry.go, lines 14 to 91: what the pool knows about one node.
use potluck.Prelude.{ℕ, ◌++◌, Bool, ◌||◌, List, Text, bytes, text_eq, any}
use potluck.Prelude.Int.{ℤ}
use potluck.Split.{PipelineInfo}

pub record Gpu : Type 0 where
  pub name : Text
  pub kind : Text
  pub mem_total : ℕ
  pub mem_free : ℕ

pub record Resources : Type 0 where
  pub hostname : Text
  pub os : Text
  pub arch : Text
  pub cpu_model : Text
  pub num_cpu : ℤ
  pub mem_total : ℕ
  pub mem_available : ℕ
  pub gpus : List Gpu

pub record Model : Type 0 where
  pub name : Text
  pub size : ℕ
  pub family : Text
  pub parameters : Text
  pub quant : Text

pub record SplitState : Type 0 where
  pub worker : Bool
  pub driver : Bool
  pub rpc_port : ℤ
  pub rpc_running : Bool
  pub pipelines : List PipelineInfo

-- Times are readings of the local clock, in nanoseconds.
pub record NodeState : Type 0 where
  pub id : Text
  pub name : Text
  pub version : Text
  pub pool : Text
  pub addr : Text
  pub sharing : Bool
  pub resources : Resources
  pub ollama_ok : Bool
  pub ollama_version : Text
  pub models : List Model
  pub loaded : List Text
  pub active : ℤ
  pub total_served : ℕ
  pub split : SplitState
  pub updated_at : ℕ
  pub self : Bool

abbrev pub latest : Text
latest = bytes ":latest"

-- The test of both loops: Ollama treats "llama3.2" and "llama3.2:latest" as the same model.
unfoldable pub same_model : Text → Text → Bool
same_model held name =
    text_eq held name || text_eq held (name ++ latest) || text_eq (held ++ latest) name

unfoldable pub has_model : NodeState → Text → Bool
unfolding same_model
has_model n name = any (λ m. same_model m.name name) n.models

unfoldable pub has_loaded : NodeState → Text → Bool
unfolding same_model
has_loaded n name = any (λ l. same_model l name) n.loaded
