-- ===== src/Gateway/Models/Routed.antt =====
-- gateway.go: a model that is listed to clients is one whose requests are routed.
use potluck.Prelude.{ℕ, ◌⊎◌, List, map, Mem, Text}
use potluck.Registry.{NodeState}
use potluck.Gateway.{Gateway}
use potluck.Gateway.Models.{OaiModel, TagModel, handle_openai_models, handle_tags}

-- The names that clients see in either listing.
abbrev pub IsListed : ℕ → List NodeState → Text → Type 0
IsListed now nodes t =
    Mem t (map (λ (m : OaiModel). m.id) (handle_openai_models now nodes))
    ⊎ Mem t (map (λ (m : TagModel). m.name) (handle_tags now nodes))
