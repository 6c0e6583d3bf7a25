-- ===== src/Split/Worker/Single.antt =====
-- worker.go: at most one rpc-server runs, however the calls overlap.
use potluck.Prelude.{
  if_cases, ℕ, ◌≡◌, refl, sym, ap, ◌∙◌, inl, inr, ◌⊎◌, Bool, true, false, not, List, [], ◌∷◌, Text,
  ◌==◌, Option, none, some, Bool-cases, arith,
}
use potluck.Split.Worker.{
  Worker, new_worker, installed, launch_worker, ensure_from, ensure_worker, Ensured, reap_from,
  begin_from, gone, end_process, reap_worker, begin_stop, end_stop, Step, ensures, ends, reaps,
  reads, kills, Reachable, fresh, later,
}

-- Either nothing runs, or one process does and `cmd` holds it.
abbrev pub IsSingle : Worker → Type 0
IsSingle w = (w.alive ≡ []) ⊎ ((c : ℕ) × (w.cmd ≡ some c) × (w.alive ≡ c ∷ []))

abbrev HoldsSingle : Ensured × Worker → Type 0
HoldsSingle r = IsSingle r.1

launch_worker-IsSingle :
    (starts : List Text → Bool) (devices : Text) (w : Worker)
    → w.alive ≡ []
    → IsSingle (launch_worker starts devices w).1
unfolding launch_worker
launch_worker-IsSingle starts devices w nothing =
    if_cases HoldsSingle (starts _) _ _ (λ _. inr (w.next_cmd, refl, ap (◌∷◌ w.next_cmd) nothing))
      (λ _. inl nothing)

-- With no `cmd` nothing runs.
nothing_runs : (w : Worker) → IsSingle w → w.cmd ≡ none → w.alive ≡ []
nothing_runs w (inl nothing) e = nothing
nothing_runs w (inr (c, held, runs)) e = cc

ensure_from-IsSingle :
    (starts : List Text → Bool) (devices : Text) (w : Worker) (cmd : Option ℕ)
    → w.cmd ≡ cmd
    → IsSingle w
    → IsSingle (ensure_from starts devices w cmd).1
unfolding ensure_from
ensure_from-IsSingle starts devices w none e s =
    launch_worker-IsSingle starts devices w (nothing_runs w s e)
ensure_from-IsSingle starts devices w (some c) e s = s

gone-single : (c d : ℕ) → (gone c (d ∷ []) ≡ []) ⊎ (gone c (d ∷ []) ≡ d ∷ [])
gone-single c d = elim (Bool-cases (d == c)) [
  | inl same ↦ inl (rw same refl)
  | inr other ↦ inr (rw other refl)
]

end_process-IsSingle : (c : ℕ) (w : Worker) → IsSingle w → IsSingle (end_process c w)
end_process-IsSingle c w (inl nothing) = inl (ap (gone c) nothing)
end_process-IsSingle c w (inr (d, held, runs)) = elim (gone-single c d) [
  | inl none_left ↦ inl (ap (gone c) runs ∙ none_left)
  | inr left ↦ inr (d, held, ap (gone c) runs ∙ left)
]

not_running : (c d : ℕ) → gone c (d ∷ []) ≡ d ∷ [] → (d == c) ≡ false
not_running c d e = ground arith

-- The process that `cmd` holds does not run any more, so nothing does.
ended_alone :
    (c d : ℕ) (w : Worker)
    → w.cmd ≡ some d
    → gone c w.alive ≡ w.alive
    → (d == c) ≡ true
    → IsSingle w
    → w.alive ≡ []
ended_alone c d w e ended same (inl nothing) = nothing
ended_alone c d w e ended same (inr (k, held, runs)) =
    let here : k ≡ d = cc in
    let only : w.alive ≡ d ∷ [] = runs ∙ ap (λ (x : ℕ). x ∷ []) here in
    let other = not_running c d (sym (ap (gone c) only) ∙ ended ∙ only) in cc

reap_from-IsSingle :
    (c : ℕ) (w : Worker) (cmd : Option ℕ)
    → w.cmd ≡ cmd
    → gone c w.alive ≡ w.alive
    → IsSingle w
    → IsSingle (reap_from c w cmd)
unfolding reap_from
reap_from-IsSingle c w none e ended s = s
reap_from-IsSingle c w (some d) e ended s =
    if_cases IsSingle (d == c) _ _ (λ same. inl (ended_alone c d w e ended same s)) (λ _. s)

begin_from-IsSingle : (w : Worker) (cmd : Option ℕ) → IsSingle w → IsSingle (begin_from w cmd)
unfolding begin_from
begin_from-IsSingle w none s = s
begin_from-IsSingle w (some c) s = s

Step-IsSingle : (w w' : Worker) → Step w w' → IsSingle w → IsSingle w'
unfolding ensure_worker reap_worker begin_stop end_stop
Step-IsSingle w _ (ensures starts devices) s =
    if_cases HoldsSingle (not (installed w)) _ _ (λ _. s)
      (λ _. ensure_from-IsSingle starts devices w w.cmd refl s)
Step-IsSingle w _ (ends c) s = end_process-IsSingle c w s
Step-IsSingle w _ (reaps c ended) s = reap_from-IsSingle c w w.cmd refl ended s
Step-IsSingle w _ reads s = begin_from-IsSingle w w.cmd s
Step-IsSingle w _ (kills c pending) s = end_process-IsSingle c w s

-- However calls of `Ensure` and `Stop`, the ends of processes and the goroutines that wait for
-- them interleave, at most one rpc-server runs, and the worker holds it.
pub Reachable-IsSingle : (bin : Text) (port : ℕ) (w : Worker) → Reachable bin port w → IsSingle w
unfolding new_worker
Reachable-IsSingle bin port _ fresh = inl refl
Reachable-IsSingle bin port _ (later w w' r step) =
    Step-IsSingle w w' step (Reachable-IsSingle bin port w r)
