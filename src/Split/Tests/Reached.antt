-- ===== src/Split/Tests/Reached.antt =====
-- The rpc-server is started and connects at the third attempt.
use potluck.Prelude.{
  ℕ, zero, suc, ◌+◌, ◌*◌, ◌≡◌, refl, Bool, true, List, [], ◌∷◌, length, Text, bytes, arith, none,
  some, Option, ltb,
}
use potluck.Split.Worker.{Worker, new_worker}
use potluck.Split.Worker.Listening.{Attempt, WorkerError, ensure_listening}
use potluck.Split.Worker.Listening.Outcome.{IsSpaced, IsEnsured, ensure_listening_lem}

abbrev spare : Worker
spare = new_worker (bytes "/usr/bin/rpc-server") 50752

-- So many attempts, 200 milliseconds apart, of which those from the half second on connect.
abbrev attempts : ℕ → ℕ → List Attempt
attempts zero at = []
attempts (suc n) at =
    record { at = at; connects = ltb 500000000 at } ∷ attempts n (at + 200 * 1000000)

length-attempts : (n at : ℕ) → length (attempts n at) ≡ n
length-attempts zero at = refl
length-attempts (suc n) at = omega (arith, length-attempts n (at + 200 * 1000000))

attempts-IsSpaced : (n at : ℕ) → IsSpaced at (attempts n at)
attempts-IsSpaced zero at = tt
attempts-IsSpaced (suc n) at = (omega arith, attempts-IsSpaced n (at + 200 * 1000000))

abbrev starts : List Text → Bool
starts args = true

heard_test : (ensure_listening starts (bytes "CUDA0") 0 (attempts 51 0) spare).0 ≡ some none
unfolding ensure_listening new_worker
heard_test = refl

ensure_listening_lem_example :
    (e : Option WorkerError) × (w' : Worker) × (ensure_listening starts
        (bytes "CUDA0")
        0
        (attempts 51 0)
        spare
      ≡ (some e, w'))
    × IsEnsured starts (bytes "CUDA0") 0 (attempts 51 0) spare e w'
ensure_listening_lem_example =
    ensure_listening_lem starts (bytes "CUDA0") 0 (attempts 51 0) spare
      (omega (arith, length-attempts 51 0)) (attempts-IsSpaced 51 0)
