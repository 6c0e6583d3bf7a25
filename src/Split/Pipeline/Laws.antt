-- ===== src/Split/Pipeline/Laws.antt =====
-- pipeline.go: what the map holds after each operation.
use potluck.Prelude.{
  ℕ, ◌≡◌, refl, inl, inr, not, ◌&&◌, Text, text_eq, text_eq_iff, ◌==◌, none, some, Option-cases,
  Bool-cases, arith, if◌then◌else◌,
}
use potluck.Prelude.Dict.{find, find-store, find-erase}
use potluck.Split.Pipeline.{Pipeline, Manager, update, stop, reap, is_error}

pub find-update :
    (model : Text) (change : Pipeline → Pipeline) (m : Manager) (j : Text)
    → find j (update model change m).pipelines ≡ (elim (find j m.pipelines) [
      | none ↦ none
      | some p ↦ if text_eq model j then some (change p) else some p
    ])
unfolding update
find-update model change m j = elim (Option-cases (find model m.pipelines)) [
  | inl absent ↦ rw (absent, update) (ground (arith, text_eq_iff model j, absent))
  | inr (p, found) ↦
      rw (found, update)
        (ground (arith, text_eq_iff model j, found, find-store model (change p) j m.pipelines))
]

pub find-stop :
    (model : Text) (m : Manager) (j : Text)
    → find j (stop model m).pipelines ≡ (if text_eq j model then none else find j m.pipelines)
unfolding stop
find-stop model m j = elim (Option-cases (find model m.pipelines)) [
  | inl absent ↦ rw (absent, stop) (ground (arith, text_eq_iff j model, absent))
  | inr (p, found) ↦ rw (found, stop) (find-erase model j m.pipelines)
]

-- The reaper leaves every other model alone, and deletes its own entry unless that holds an error.
pub find-reap :
    (model : Text) (cmd : ℕ) (m : Manager) (j : Text)
    → find j (reap model cmd m).pipelines ≡ (elim (find j m.pipelines) [
      | none ↦ none
      | some p ↦
          if text_eq j model && (p.cmd == cmd && not (is_error p.info.state)) then none else some p
    ])
unfolding reap
find-reap model cmd m j = elim (Option-cases (find model m.pipelines)) [
  | inl absent ↦ rw (absent, reap) (ground (arith, text_eq_iff j model, absent))
  | inr (cur, found) ↦ elim (Bool-cases (cur.cmd == cmd && not (is_error cur.info.state))) [
    | inl own ↦
        rw (found, reap)
          (rw own (ground (arith, text_eq_iff j model, found, own, find-erase model j m.pipelines)))
    | inr other ↦ rw (found, reap) (rw other (ground (arith, text_eq_iff j model, found, other)))
  ]
]

-- The base port and the number of the next process are the same.
pub record IsAlike (m n : Manager) : Type 0 where
  pub base_port : n.base_port ≡ m.base_port
  pub next_cmd : n.next_cmd ≡ m.next_cmd

pub update-IsAlike :
    (model : Text) (change : Pipeline → Pipeline) (m : Manager) → IsAlike m (update model change m)
unfolding update
update-IsAlike model change m = elim (Option-cases (find model m.pipelines)) [
  | inl absent ↦ rw (absent, update) (record { base_port = refl; next_cmd = refl })
  | inr (p, found) ↦ rw (found, update) (record { base_port = refl; next_cmd = refl })
]

pub stop-IsAlike : (model : Text) (m : Manager) → IsAlike m (stop model m)
unfolding stop
stop-IsAlike model m = elim (Option-cases (find model m.pipelines)) [
  | inl absent ↦ rw (absent, stop) (record { base_port = refl; next_cmd = refl })
  | inr (p, found) ↦ rw (found, stop) (record { base_port = refl; next_cmd = refl })
]
