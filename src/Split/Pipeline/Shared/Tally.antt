-- ===== src/Split/Pipeline/Shared/Tally.antt =====
-- pipeline.go: how often a process is that of an entry, or of a task about to kill it.
use potluck.Prelude.{
  ℕ, ◌+◌, ◌≡◌, refl, inl, inr, Bool, true, false, List, [], ◌∷◌, ◌++◌, any, Text, text_eq_iff, ◌==◌,
  if◌then◌else◌, none, some, Option-cases, arith,
}
use potluck.Prelude.Dict.{store, find, erase, IsDistinct}
use potluck.Split.Pipeline.{Pipeline, kill}
use potluck.Split.Pipeline.Shared.{
  cmd_of, Task, ensures, clears, relaunches, waits, joins, readies, fails, drops, sweeps, kills,
  ends,
}

abbrev pub one_if : Bool → ℕ
one_if true = 1
one_if false = 0

-- The entries whose process is `c`.
abbrev pub tally : ℕ → List (Text × Pipeline) → ℕ
tally c [] = 0
tally c ((_, p) ∷ l) = one_if (p.cmd == c) + tally c l

-- How often a task is about to kill `c`.
abbrev pub doom : ℕ → Task → ℕ
doom c (kills d t) = one_if (d == c) + doom c t
doom c (ensures r) = 0
doom c (clears r) = 0
doom c (relaunches r) = 0
doom c (waits r port deadline) = 0
doom c (joins r port deadline) = 0
doom c (readies r port) = 0
doom c (fails r e) = 0
doom c (drops r e) = 0
doom c (sweeps models) = 0
doom c (ends result) = 0

abbrev pub dooms : ℕ → List Task → ℕ
dooms c [] = 0
dooms c (t ∷ ts) = doom c t + dooms c ts

abbrev pub count : ℕ → List ℕ → ℕ
count c [] = 0
count c (d ∷ l) = one_if (d == c) + count c l

abbrev pub has_cmd : ℕ → List ℕ → Bool
has_cmd c = any (λ d. d == c)

pub dooms-append :
    (c : ℕ) (ahead behind : List Task) → dooms c (ahead ++ behind) ≡ dooms c ahead + dooms c behind
dooms-append c [] behind = omega arith
dooms-append c (t ∷ ahead) behind = omega (arith, dooms-append c ahead behind)

pub count-append : (c : ℕ) (l k : List ℕ) → count c (l ++ k) ≡ count c l + count c k
count-append c [] k = omega arith
count-append c (d ∷ l) k = omega (arith, count-append c l k)

pub has_cmd-kill :
    (c d : ℕ) (l : List ℕ) → has_cmd c (kill d l) ≡ (if d == c then false else has_cmd c l)
has_cmd-kill c d [] = ground arith
has_cmd-kill c d (e ∷ l) = ground (arith, has_cmd-kill c d l)

-- An entry under a new key is one more.
tally-store-none :
    (c : ℕ) (key : Text) (p : Pipeline) (l : List (Text × Pipeline))
    → find key l ≡ none
    → tally c (store key p l) ≡ one_if (p.cmd == c) + tally c l
unfolding store find
tally-store-none c key p [] h = refl
tally-store-none c key p ((k, q) ∷ l) h =
    ground (arith, text_eq_iff k key, tally-store-none c key p l)

-- Under a key that is there it takes the place of another.
pub tally-store-some :
    (c : ℕ) (key : Text) (p q : Pipeline) (l : List (Text × Pipeline))
    → find key l ≡ some q
    → tally c (store key p l) + one_if (q.cmd == c) ≡ one_if (p.cmd == c) + tally c l
unfolding store find
tally-store-some c key p q [] h = cc
tally-store-some c key p q ((k, v) ∷ l) h =
    ground (arith, text_eq_iff k key, tally-store-some c key p q l)

tally-erase-none :
    (c : ℕ) (key : Text) (l : List (Text × Pipeline))
    → find key l ≡ none
    → tally c (erase key l) ≡ tally c l
unfolding erase find
tally-erase-none c key [] h = refl
tally-erase-none c key ((k, v) ∷ l) h = ground (arith, text_eq_iff k key, tally-erase-none c key l)

pub tally-erase-some :
    (c : ℕ) (key : Text) (q : Pipeline) (l : List (Text × Pipeline))
    → IsDistinct l
    → find key l ≡ some q
    → tally c (erase key l) + one_if (q.cmd == c) ≡ tally c l
unfolding erase find
tally-erase-some c key q [] d h = cc
tally-erase-some c key q ((k, v) ∷ l) d h =
    ground (arith, text_eq_iff k key, tally-erase-some c key q l d.1, tally-erase-none c key l)

-- An entry is stored in the place of what stands under its key.
pub tally-store :
    (c : ℕ) (key : Text) (p : Pipeline) (l : List (Text × Pipeline))
    → tally c (store key p l) + count c (cmd_of (find key l)) ≡ one_if (p.cmd == c) + tally c l
tally-store c key p l = elim (Option-cases (find key l)) [
  | inl absent ↦ rw absent (omega (arith, tally-store-none c key p l absent))
  | inr (q, found) ↦ rw found (omega (arith, tally-store-some c key p q l found))
]
