-- ===== src/Split/Pipeline/Shared/Held.antt =====
-- pipeline.go: every llama-server process that runs is held once, however the calls overlap.
use potluck.Prelude.{
  ℕ, suc, ◌+◌, ◌≤◌, ◌≡◌, refl, sym, ap, ◌∙◌, subst, inl, inr, Bool, true, false, not, ◌&&◌, List,
  ◌∷◌, Text, ◌==◌, if_cases, Option, none, some, Option-cases, arith,
}
use potluck.Prelude.Dict.{store, find, erase, IsDistinct, store-IsDistinct, erase-IsDistinct}
use potluck.Prelude.Results.{ok}
use potluck.Split.Pipeline.{Pipeline, Manager, update, is_error, reap, kill}
use potluck.Split.Pipeline.Ensure.{World, Request, launch, pipeline_for}
use potluck.Split.Pipeline.Ensure.Launch.{launch-IsLaunched}
use potluck.Split.Pipeline.Shared.{take_found, take_out, cmd_of}
use potluck.Split.Pipeline.Shared.Tally.{
  one_if, tally, count, has_cmd, has_cmd-kill, tally-store, tally-store-some, tally-erase-some,
}

-- `f` tells how often a process is held by something else than an entry. Each process is held once at
-- most, one that runs is held, and one that is yet to be started is not.
pub record IsHeld (f : ℕ → ℕ) (m : Manager) : Type 0 where
  pub distinct : IsDistinct m.pipelines
  pub unborn : (c : ℕ) → m.next_cmd ≤ c → tally c m.pipelines + f c ≡ 0
  pub once : (c : ℕ) → tally c m.pipelines + f c ≤ 1
  pub covered : (c : ℕ) → has_cmd c m.running ≡ true → tally c m.pipelines + f c ≡ 1

pub IsHeld-same : (f g : ℕ → ℕ) (m : Manager) → ((c : ℕ) → f c ≡ g c) → IsHeld f m → IsHeld g m
IsHeld-same f g m e h = record {
  distinct = h.distinct;
  unborn = λ c old. omega (arith, e c, h.unborn c old);
  once = λ c. omega (arith, e c, h.once c);
  covered = λ c runs. omega (arith, e c, h.covered c runs);
}

-- An entry that keeps its process.
pub update-IsHeld :
    (f : ℕ → ℕ) (model : Text) (change : Pipeline → Pipeline) (m : Manager)
    → ((p : Pipeline) → (change p).cmd ≡ p.cmd)
    → IsHeld f m
    → IsHeld f (update model change m)
unfolding update
update-IsHeld f model change m same h = elim (Option-cases (find model m.pipelines)) [
  | inl absent ↦ rw (absent, update) h
  | inr (p, found) ↦
      let kept : (c : ℕ) → tally c (store model (change p) m.pipelines) ≡ tally c m.pipelines = λ c.
        omega (
          arith,
          tally-store-some c model (change p) p m.pipelines found,
          ap (λ (d : ℕ). one_if (d == c)) (same p),
        ) in
      rw (found, update)
        (record {
          distinct = store-IsDistinct model (change p) m.pipelines h.distinct;
          unborn = λ c old. omega (arith, kept c, h.unborn c old);
          once = λ c. omega (arith, kept c, h.once c);
          covered = λ c runs. omega (arith, kept c, h.covered c runs);
        })
]

abbrev pub opt_count : ℕ → Option ℕ → ℕ
opt_count c none = 0
opt_count c (some d) = one_if (d == c)

-- What `stop` takes out of the map is held by its caller instead.
pub take_out-IsHeld :
    (f : ℕ → ℕ) (model : Text) (m : Manager)
    → IsHeld f m
    → IsHeld (λ c. opt_count c (take_out model m).0 + f c) (take_out model m).1
unfolding take_out take_found
take_out-IsHeld f model m h = elim (Option-cases (find model m.pipelines)) [
  | inl absent ↦
      rw (absent, take_out, take_found) (IsHeld-same f (λ c. 0 + f c) m (λ c. omega arith) h)
  | inr (p, found) ↦
      let fewer : (c : ℕ)
          → tally c (erase model m.pipelines) + one_if (p.cmd == c) ≡ tally c m.pipelines =
        λ c. tally-erase-some c model p m.pipelines h.distinct found in
      rw (found, take_out, take_found)
        (record {
          distinct = erase-IsDistinct model m.pipelines h.distinct;
          unborn = λ c old. omega (arith, fewer c, h.unborn c old);
          once = λ c. omega (arith, fewer c, h.once c);
          covered = λ c runs. omega (arith, fewer c, h.covered c runs);
        })
]

pub survives :
    (c d : ℕ) (l : List ℕ) → has_cmd c (kill d l) ≡ true → ((d == c) ≡ false) × (has_cmd c l ≡ true)
survives c d l h = ground (arith, has_cmd-kill c d l)

-- A process that has been killed need not be held any more.
pub kill-IsHeld :
    (f : ℕ → ℕ) (d : ℕ) (m : Manager)
    → IsHeld (λ c. one_if (d == c) + f c) m
    → IsHeld f (record m { running = kill d m.running })
kill-IsHeld f d m h = record {
  distinct = h.distinct;
  unborn = λ c old. omega (arith, h.unborn c old);
  once = λ c. omega (arith, h.once c);
  covered = λ c runs.
      let (other, ran) = survives c d m.running runs in
      omega (arith, h.covered c ran, ap one_if other);
}

pub exit-IsHeld :
    (f : ℕ → ℕ) (d : ℕ) (m : Manager)
    → IsHeld f m
    → IsHeld f (record m { running = kill d m.running })
exit-IsHeld f d m h = record {
  distinct = h.distinct;
  unborn = h.unborn;
  once = h.once;
  covered = λ c runs. h.covered c (survives c d m.running runs).1;
}

reaped-IsHeld :
    (f : ℕ → ℕ) (model : Text) (p : Pipeline) (m : Manager)
    → find model m.pipelines ≡ some p
    → IsHeld f m
    → IsHeld f (record m { pipelines = erase model m.pipelines; running = kill p.cmd m.running })
reaped-IsHeld f model p m found h =
    let fewer : (c : ℕ)
        → tally c (erase model m.pipelines) + one_if (p.cmd == c) ≡ tally c m.pipelines =
      λ c. tally-erase-some c model p m.pipelines h.distinct found in
    record {
      distinct = erase-IsDistinct model m.pipelines h.distinct;
      unborn = λ c old. omega (arith, fewer c, h.unborn c old);
      once = λ c. omega (arith, fewer c, h.once c);
      covered = λ c runs.
          let (other, ran) = survives c p.cmd m.running runs in
          omega (arith, fewer c, h.covered c ran, ap one_if other);
    }

own_cmd : (a b : ℕ) (x : Bool) → (a == b && x) ≡ true → a ≡ b
own_cmd a b x h = ground arith

pub reap-IsHeld :
    (f : ℕ → ℕ) (model : Text) (d : ℕ) (m : Manager) → IsHeld f m → IsHeld f (reap model d m)
unfolding reap
reap-IsHeld f model d m h = elim (Option-cases (find model m.pipelines)) [
  | inl absent ↦ rw (absent, reap) (exit-IsHeld f d m h)
  | inr (p, found) ↦
      rw (found, reap)
        (if_cases (IsHeld f) (p.cmd == d && not (is_error p.info.state)) _ _
          (λ own.
            subst
              (λ e.
                IsHeld f
                  (record m { pipelines = erase model m.pipelines; running = kill e m.running }))
              (own_cmd p.cmd d _ own) (reaped-IsHeld f model p m found h))
          (λ _. exit-IsHeld f d m h))
]

-- The manager once a process has been started and stored under the model.
abbrev with_entry : Text → Pipeline → Manager → Manager
with_entry model p m = record m {
  pipelines = store model p m.pipelines;
  running = m.next_cmd ∷ m.running;
  next_cmd = suc m.next_cmd;
}

-- What a new entry comes over is held as overwritten.
with_entry-IsHeld :
    (f : ℕ → ℕ) (model : Text) (p : Pipeline) (m : Manager)
    → p.cmd ≡ m.next_cmd
    → IsHeld f m
    → IsHeld (λ c. count c (cmd_of (find model m.pipelines)) + f c) (with_entry model p m)
with_entry-IsHeld f model p m new h =
    let more : (c : ℕ)
        → tally c (store model p m.pipelines) + count c (cmd_of (find model m.pipelines))
          ≡ one_if (m.next_cmd == c) + tally c m.pipelines =
      λ c.
        tally-store c model p m.pipelines ∙ ap (λ d. one_if (d == c) + tally c m.pipelines) new in
    record {
      distinct = store-IsDistinct model p m.pipelines h.distinct;
      unborn = λ c old. ground (arith, more c, h.unborn c);
      once = λ c. ground (arith, more c, h.once c, h.unborn c);
      covered = λ c runs. ground (arith, more c, h.covered c, h.unborn c);
    }

-- A launch that succeeds.
pub launch-IsHeld :
    (f : ℕ → ℕ) (w : World) (r : Request) (m m' : Manager) (port : ℕ)
    → launch w r m ≡ ok (port, m')
    → IsHeld f m
    → IsHeld (λ c. count c (cmd_of (find r.model m.pipelines)) + f c) m'
launch-IsHeld f w r m m' port started h =
    let l = launch-IsLaunched w r m m' port started in
    subst (IsHeld (λ c. count c (cmd_of (find r.model m.pipelines)) + f c)) (sym l.result)
      (with_entry-IsHeld f r.model (pipeline_for w r port m.next_cmd) m refl h)
