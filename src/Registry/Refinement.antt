-- ===== src/Registry/Refinement.antt =====
-- registry.go: any history of calls acts as on a plain map from IDs to states.
use potluck.Prelude.{ℕ, ◌≡◌, refl, List, [], ◌∷◌, Text, text_eq, Option, none, some, if◌then◌else◌}
use potluck.Registry.State.{NodeState}
use potluck.Registry.{Registry, new, upsert, touch, remove, expired, prune, get}
use potluck.Registry.Laws.{
  IsValid, upsert-IsValid, touch-IsValid, remove-IsValid, prune-IsValid, get-upsert, get-touch,
  get-remove, get-prune,
}

-- The calls that change the registry. Each is made at a time.
pub data Call : Type 0 where
  upserts : NodeState → Call
  touches removes : Text → Call
  prunes : ℕ → Call

pub step : ℕ × Call → Registry → Registry
step (now, upserts s) r = upsert now s r
step (now, touches id) r = touch now id r
step (now, removes id) r = remove id r
step (now, prunes ttl) r = (prune now ttl r).0

unfoldable pub run : List (ℕ × Call) → Registry → Registry
unfolding step
run [] r = r
run (c ∷ cs) r = run cs (step c r)

-- The specification: what the calls promise, as maps.
abbrev pub View : Type 0
View = Text → Option NodeState

pub promise : ℕ × Call → View → View
promise (now, upserts s) view j =
    if text_eq s.id j then some (record s { updated_at = now }) else view j
promise (now, touches id) view j = elim (view j) [
  | none ↦ none
  | some n ↦ if text_eq id j then some (record n { updated_at = now }) else some n
]
promise (now, removes id) view j = if text_eq j id then none else view j
promise (now, prunes ttl) view j = elim (view j) [
  | none ↦ none
  | some n ↦ if expired now ttl n then none else some n
]

unfoldable pub promises : List (ℕ × Call) → View → View
unfolding promise
promises [] view = view
promises (c ∷ cs) view = promises cs (promise c view)

step-IsValid : (c : ℕ × Call) (r : Registry) → IsValid r → IsValid (step c r)
unfolding step
step-IsValid (now, upserts s) r v = upsert-IsValid now s r v
step-IsValid (now, touches id) r v = touch-IsValid now id r v
step-IsValid (now, removes id) r v = remove-IsValid id r v
step-IsValid (now, prunes ttl) r v = prune-IsValid now ttl r v

step-promise :
    (c : ℕ × Call) (r : Registry) (view : View)
    → IsValid r
    → ((j : Text) → get j r ≡ view j)
    → (j : Text) → get j (step c r) ≡ promise c view j
unfolding step promise
step-promise (now, upserts s) r view v same j = rw (get-upsert now s r j, same j)
step-promise (now, touches id) r view v same j = rw (get-touch now id r j, same j)
step-promise (now, removes id) r view v same j = rw (get-remove id r j, same j)
step-promise (now, prunes ttl) r view v same j = rw (get-prune now ttl r j v, same j)

run-promises_from :
    (cs : List (ℕ × Call)) (r : Registry) (view : View)
    → IsValid r
    → ((j : Text) → get j r ≡ view j)
    → IsValid (run cs r) × ((j : Text) → get j (run cs r) ≡ promises cs view j)
unfolding run promises
run-promises_from [] r view v same = (v, same)
run-promises_from (c ∷ cs) r view v same =
    run-promises_from cs (step c r) (promise c view) (step-IsValid c r v)
      (step-promise c r view v same)

-- After any history of calls on a new registry, every entry stands under its own ID and no ID
-- twice, and `Get` answers for every ID what the specification's map holds.
pub run-promises :
    (cs : List (ℕ × Call))
    → IsValid (run cs new) × ((j : Text) → get j (run cs new) ≡ promises cs (λ _. none) j)
unfolding new get
run-promises cs = run-promises_from cs new (λ _. none) tt (λ j. refl)
