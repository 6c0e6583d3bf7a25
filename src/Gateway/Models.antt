-- ===== src/Gateway/Models.antt =====
-- gateway.go: the listings of the pool's models, in the dialects of OpenAI and of Ollama.
pub mod Routed
use potluck.Prelude.{ℕ, ◌/◌, List, [], ◌∷◌, map, Text, bytes}
use potluck.Registry.{NodeState}
use potluck.Scheduler.{pool_models, ModelDetail, pool_model_details}

pub record OaiModel : Type 0 where
  pub id : Text
  pub object : Text
  pub created : ℕ
  pub owned_by : Text

-- One entry of the list, made at this time.
pub oai_model : ℕ → Text → OaiModel
oai_model now m = record {
  id = m;
  object = bytes "model";
  created = now / 1000000000;
  owned_by = bytes "potluck";
}

-- The data of the answer; its object is always "list".
unfoldable pub handle_openai_models : ℕ → List NodeState → List OaiModel
unfolding oai_model pool_models
handle_openai_models now nodes = map (oai_model now) (pool_models now nodes)

pub record TagModel : Type 0 where
  pub name : Text
  pub model : Text
  pub size : ℕ
  pub family : Text
  pub parameter_size : Text
  pub quantization_level : Text

pub tag_model : ModelDetail → TagModel
tag_model d = record {
  name = d.model.name;
  model = d.model.name;
  size = d.model.size;
  family = d.model.family;
  parameter_size = d.model.parameters;
  quantization_level = d.model.quant;
}

unfoldable pub handle_tags : ℕ → List NodeState → List TagModel
unfolding tag_model pool_model_details
handle_tags now nodes = map tag_model (pool_model_details now nodes)
