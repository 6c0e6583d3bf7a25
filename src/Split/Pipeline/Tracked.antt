-- ===== src/Split/Pipeline/Tracked.antt =====
-- pipeline.go: no llama-server process is lost: each that runs belongs to an entry of the map.
use potluck.Prelude.{
  ℕ, ◌<◌, ◌≡◌, refl, sym, ap, ◌∙◌, inl, inr, Bool, true, false, not, ◌&&◌, List, [], ◌∷◌, All,
  All_map, All-filter, All-filter_passes, Text, text_eq_iff, ◌==◌, some, Option-cases, Bool-cases,
  arith,
}
use potluck.Prelude.Dict.{
  find, IsDistinct, store-IsDistinct, erase-IsDistinct, any_value, passes, any_value-store,
  any_value-erase, All-store, All-erase,
}
use potluck.Split.{PipelineState}
use potluck.Split.Pipeline.{
  Pipeline, Manager, new_manager, update, used_at, in_state, failed_with, touch, set_state,
  set_error, kill, stop, stop_each, stop_all, reap, collect, is_error, models, idle_models,
}

abbrev pub runs : ℕ → Pipeline → Bool
runs cmd p = p.cmd == cmd

-- Keys are distinct, each entry describes the model it stands under, and each running process is
-- that of an entry and older than the next one.
pub record IsTracked (m : Manager) : Type 0 where
  pub distinct : IsDistinct m.pipelines
  pub named : All (λ (e : Text × Pipeline). e.1.info.model ≡ e.0) m.pipelines
  pub below : All (λ c. c < m.next_cmd) m.running
  pub owned : All (λ c. any_value (runs c) m.pipelines ≡ true) m.running

pub new_manager-IsTracked : (bin : Text) (base_port : ℕ) → IsTracked (new_manager bin base_port)
unfolding new_manager
new_manager-IsTracked bin base_port = record { distinct = tt; named = tt; below = tt; owned = tt }

named_at :
    (model : Text) (l : List (Text × Pipeline)) (p : Pipeline)
    → All (λ (e : Text × Pipeline). e.1.info.model ≡ e.0) l
    → find model l ≡ some p
    → p.info.model ≡ model
unfolding find
named_at model [] p a h = cc
named_at model ((k, w) ∷ rest) p a h =
    ground (arith, text_eq_iff k model, named_at model rest p a.1)

pub update-IsTracked :
    (model : Text) (change : Pipeline → Pipeline) (m : Manager)
    → ((p : Pipeline) → (change p).cmd ≡ p.cmd)
    → ((p : Pipeline) → (change p).info.model ≡ p.info.model)
    → IsTracked m
    → IsTracked (update model change m)
unfolding update
update-IsTracked model change m same_cmd same_model t =
    elim (Option-cases (find model m.pipelines)) [
      | inl absent ↦ rw (absent, update) t
      | inr (p, found) ↦
          rw (found, update)
            (record {
              distinct = store-IsDistinct model (change p) m.pipelines t.distinct;
              named =
                  All-store _ model (change p) m.pipelines
                    (same_model p ∙ named_at model m.pipelines p t.named found) t.named;
              below = t.below;
              owned =
                  All_map _ _ m.running
                    (λ c h.
                      any_value-store (runs c) model (change p) m.pipelines
                        (λ k.
                          ap (λ (d : ℕ). d == c) (same_cmd p)
                          ∙ (sym (ap (passes (runs c)) found) ∙ k))
                        h)
                    t.owned;
            })
    ]

kill-ne : (cmd c : ℕ) → not (c == cmd) ≡ true → (cmd == c) ≡ false
kill-ne cmd c h = ground arith

pub stop-IsTracked : (model : Text) (m : Manager) → IsTracked m → IsTracked (stop model m)
unfolding stop
stop-IsTracked model m t = elim (Option-cases (find model m.pipelines)) [
  | inl absent ↦ rw (absent, stop) t
  | inr (p, found) ↦
      rw (found, stop)
        (record {
          distinct = erase-IsDistinct model m.pipelines t.distinct;
          named = All-erase _ model m.pipelines t.named;
          below = All-filter _ _ m.running t.below;
          owned =
              All-filter_passes _ _ (λ c. not (c == p.cmd)) m.running
                (λ c h other.
                  any_value-erase (runs c) model m.pipelines
                    (ap (passes (runs c)) found ∙ kill-ne p.cmd c other) t.distinct h)
                t.owned;
        })
]

pub stop_each-IsTracked :
    (models : List Text) (m : Manager) → IsTracked m → IsTracked (stop_each models m)
unfolding stop_each
stop_each-IsTracked [] m t = t
stop_each-IsTracked (model ∷ models) m t =
    stop_each-IsTracked models (stop model m) (stop-IsTracked model m t)

gone-IsTracked :
    (cmd : ℕ) (m : Manager) → IsTracked m → IsTracked (record m { running = kill cmd m.running })
gone-IsTracked cmd m t = record {
  distinct = t.distinct;
  named = t.named;
  below = All-filter _ _ m.running t.below;
  owned = All-filter _ _ m.running t.owned;
}

own_process : (cur : Pipeline) (cmd : ℕ) (b : Bool) → (cur.cmd == cmd && b) ≡ true → cur.cmd ≡ cmd
own_process cur cmd b h = ground arith

pub reap-IsTracked :
    (model : Text) (cmd : ℕ) (m : Manager) → IsTracked m → IsTracked (reap model cmd m)
unfolding reap
reap-IsTracked model cmd m t = elim (Option-cases (find model m.pipelines)) [
  | inl absent ↦ rw (absent, reap) (gone-IsTracked cmd m t)
  | inr (cur, found) ↦ elim (Bool-cases (cur.cmd == cmd && not (is_error cur.info.state))) [
    | inr other ↦ rw (found, reap) (rw other (gone-IsTracked cmd m t))
    | inl own ↦
        rw (found, reap)
          (rw own (record {
            distinct = erase-IsDistinct model m.pipelines t.distinct;
            named = All-erase _ model m.pipelines t.named;
            below = All-filter _ _ m.running t.below;
            owned =
                All-filter_passes _ _ (λ c. not (c == cmd)) m.running
                  (λ c h differs.
                    any_value-erase (runs c) model m.pipelines
                      (ap (passes (runs c)) found
                        ∙ (ap (λ (d : ℕ). d == c) (own_process cur cmd _ own)
                            ∙ kill-ne cmd c differs))
                      t.distinct h)
                  t.owned;
          }))
  ]
]

-- The calls that change the map without starting a process.
pub data Change : Type 0 where
  touches : ℕ → Text → Change
  readies stops : Text → Change
  fails : Text → Text → Change
  exits : Text → ℕ → Change
  collects : ℕ → Change
  stops_all : Change

pub apply : Change → Manager → Manager
apply (touches now model) m = touch now model m
apply (readies model) m = set_state model PipelineState.ready m
apply (stops model) m = stop model m
apply (fails model e) m = set_error model e m
apply (exits model cmd) m = reap model cmd m
apply (collects now) m = collect now m
apply stops_all m = stop_all m

-- None of them loses a process.
pub apply-IsTracked : (c : Change) (m : Manager) → IsTracked m → IsTracked (apply c m)
unfolding apply touch set_state set_error collect stop_all
apply-IsTracked (touches now model) m t =
    update-IsTracked model (used_at now) m (λ p. refl) (λ p. refl) t
apply-IsTracked (readies model) m t =
    update-IsTracked model (in_state PipelineState.ready) m (λ p. refl) (λ p. refl) t
apply-IsTracked (stops model) m t = stop-IsTracked model m t
apply-IsTracked (fails model e) m t =
    update-IsTracked model (failed_with e) m (λ p. refl) (λ p. refl) t
apply-IsTracked (exits model cmd) m t = reap-IsTracked model cmd m t
apply-IsTracked (collects now) m t = stop_each-IsTracked (idle_models now m) m t
apply-IsTracked stops_all m t = stop_each-IsTracked (models m) m t
