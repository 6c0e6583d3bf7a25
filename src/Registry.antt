-- ===== src/Registry.antt =====
-- internal/registry/registry.go: the map from node IDs to last-known states. Each method holds the
-- registry's lock throughout, so it is one function from the map to the map.
mod State
pub mod Laws
pub mod Snapshot
pub mod Refinement
mod Tests
unfoldable pub use State.*
use potluck.Prelude.{
  ℕ, ◌+◌, Bool, true, false, not, ◌&&◌, List, [], ◌∷◌, map, filter, Text, text_eq, text_lt, ltb,
  Option, none, some, if◌then◌else◌,
}
use mathlib.Core.Bool.{beq}
use potluck.Prelude.Dict.{store, find, erase}
use potluck.Prelude.Sort.{SliceSort}

-- The Go map, as its entries.
pub record Registry : Type 0 where
  pub nodes : List (Text × NodeState)

unfoldable pub new : Registry
new = record { nodes = [] }

unfoldable pub upsert : ℕ → NodeState → Registry → Registry
unfolding store
upsert now s r = record { nodes = store s.id (record s { updated_at = now }) r.nodes }

unfoldable pub touch : ℕ → Text → Registry → Registry
unfolding store find
touch now id r = elim (find id r.nodes) [
  | none ↦ r
  | some n ↦ record { nodes = store id (record n { updated_at = now }) r.nodes }
]

unfoldable pub remove : Text → Registry → Registry
unfolding erase
remove id r = record { nodes = erase id r.nodes }

-- `!n.Self && n.UpdatedAt.Before(now.Add(-ttl))`
unfoldable pub expired : ℕ → ℕ → NodeState → Bool
expired now ttl n = not n.self && ltb (n.updated_at + ttl) now

-- The new registry, and the IDs removed.
unfoldable pub prune : ℕ → ℕ → Registry → Registry × List Text
unfolding expired
prune now ttl r = (
  record { nodes = filter (λ e. not (expired now ttl e.1)) r.nodes },
  map (λ e. e.0) (filter (λ e. expired now ttl e.1) r.nodes),
)

-- Self first, then by name.
unfoldable pub before : NodeState → NodeState → Bool
unfolding text_lt
before a b = if beq a.self b.self then text_lt a.name b.name else a.self

unfoldable pub snapshot : SliceSort NodeState → Registry → List NodeState
unfolding before
snapshot slice r = slice.sort before (map (λ e. e.1) r.nodes)

unfoldable pub get : Text → Registry → Option NodeState
unfolding find
get id r = find id r.nodes
