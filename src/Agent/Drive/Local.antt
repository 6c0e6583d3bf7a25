-- ===== src/Agent/Drive/Local.antt =====
-- agent/split.go: what `EnsureLocal` comes to.
use potluck.Prelude.{
  ℕ, ◌<◌, ◌≡◌, ◌≢◌, refl, ap, ◌∙◌, inl, inr, ◌⊎◌, true, false, not, ◌&&◌, List, [], ◌∷◌, length,
  Text, ◌==◌, Option, some, Bool-cases, arith,
}
use potluck.Prelude.Dict.{find}
use potluck.Prelude.Results.{Result, ok, err}
use potluck.Ollamafs.{Store, BlobError, model_blob_path}
use potluck.Split.Pipeline.{Manager, available}
use potluck.Split.Pipeline.Tracked.{IsTracked}
use potluck.Split.Pipeline.Ensure.{World, EnsureError, ensure}
use potluck.Split.Pipeline.Ensure.Outcome.{IsSettled}
use potluck.Split.Pipeline.Ensure.Waiting.{IsSpaced, ensure_lem}
use potluck.Agent.Drive.{
  Net, recruit_all, LocalError, no_driver, no_workers, no_weights, request_for, of_ensure,
  of_ensured, with_blob, ensure_local,
}

of_ensure-manager :
    (r : Result EnsureError ℕ) (m : Manager)
    → ◌≡◌ {A = Option (Result LocalError ℕ × Manager)}
        (some (of_ensure (r, m)))
        (some ((of_ensure (r, m)).0, m))
unfolding of_ensure
of_ensure-manager (ok port) m = refl
of_ensure-manager (err e) m = refl

module _ (net : Net) (store : Store) (w : World) (models_dir token : Text) (ctx_size : ℕ)
    (model : Text) (addrs : List Text) where
  abbrev pub recruited : List Text
  recruited = recruit_all net token addrs

  -- What `EnsureLocal` answers and the manager that it leaves, and why.
  pub data IsDriven (m : Manager) : Result LocalError ℕ → Manager → Type 0 where
    unable : available m ≡ false → IsDriven m (err no_driver) m
    unstored :
        (e : BlobError)
        → model_blob_path store models_dir model ≡ err e
        → IsDriven m (err (no_weights e)) m
    alone : addrs ≢ [] → recruited ≡ [] → IsDriven m (err no_workers) m
    driven :
        (gguf : Text) (r : Result EnsureError ℕ) (m' : Manager)
        → model_blob_path store models_dir model ≡ ok gguf
        → (addrs ≡ []) ⊎ (recruited ≢ [])
        → ensure w (request_for model gguf ctx_size recruited) m ≡ some (r, m')
        → IsSettled w (request_for model gguf ctx_size recruited) m r (find model m'.pipelines)
        → IsTracked m'
        → IsDriven m (of_ensure (r, m')).0 m'

  abbrev pub Driven : Manager → Option (Result LocalError ℕ × Manager) → Type 0
  Driven m o = (r : Result LocalError ℕ) × (m' : Manager) × (o ≡ some (r, m')) × IsDriven m r m'

  module _ (enough : 1800 < length w.polls) (spaced : IsSpaced w.wait_from w.polls) (m : Manager)
      (t : IsTracked m) where
    ensured-Driven :
        (gguf : Text)
        → model_blob_path store models_dir model ≡ ok gguf
        → (addrs ≡ []) ⊎ (recruited ≢ [])
        → Driven m (of_ensured (ensure w (request_for model gguf ctx_size recruited) m))
    unfolding of_ensured of_ensure
    ensured-Driven gguf stored joined =
        let (r, m', ends, settled, tracked) =
          ensure_lem w (request_for model gguf ctx_size recruited) enough spaced m t in
        (
          (of_ensure (r, m')).0,
          m',
          ap of_ensured ends ∙ of_ensure-manager r m',
          driven gguf r m' stored joined ends settled tracked,
        )

    joined_of_test :
        (ws rs : List Text)
        → (not (length ws == 0) && length rs == 0) ≡ false
        → (ws ≡ []) ⊎ (rs ≢ [])
    joined_of_test [] rs h = inl refl
    joined_of_test (x ∷ ws) [] h = absurd (ground arith)
    joined_of_test (x ∷ ws) (r ∷ rs) h = inr (λ e. cc)

    alone_of_test :
        (ws rs : List Text)
        → (not (length ws == 0) && length rs == 0) ≡ true
        → (ws ≢ []) × (rs ≡ [])
    alone_of_test [] rs h = absurd (ground arith)
    alone_of_test (x ∷ ws) [] h = (λ e. cc, refl)
    alone_of_test (x ∷ ws) (r ∷ rs) h = absurd (ground arith)

    with_blob-Driven :
        (blob : Result BlobError Text)
        → model_blob_path store models_dir model ≡ blob
        → Driven m (with_blob w model addrs ctx_size recruited m blob)
    unfolding with_blob
    with_blob-Driven (err e) stored = (err (no_weights e), m, refl, unstored e stored)
    with_blob-Driven (ok gguf) stored =
        elim (Bool-cases (not (length addrs == 0) && length recruited == 0)) [
          | inl nobody ↦
              let (asked, none_came) = alone_of_test addrs recruited nobody in
              rw nobody (err no_workers, m, refl, alone asked none_came)
          | inr some_came ↦
              rw some_came (ensured-Driven gguf stored (joined_of_test addrs recruited some_came))
        ]

    pub ensure_local_lem :
        Driven m (ensure_local net store w models_dir token ctx_size model addrs m)
    unfolding ensure_local
    ensure_local_lem = elim (Bool-cases (available m)) [
      | inr missing ↦ rw missing (err no_driver, m, refl, unable missing)
      | inl present ↦ rw present (with_blob-Driven (model_blob_path store models_dir model) refl)
    ]
