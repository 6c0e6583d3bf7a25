-- ===== src/Scheduler/Plan/Recruits.antt =====
-- splitplan.go, lines 81 to 88: which workers are recruited.
use mathlib.Core.List.{append_assoc, append-nil}
use potluck.Prelude.{
  ℕ, ◌+◌, ◌^◌, ◌≡◌, refl, sym, ◌∙◌, ap, ◌⊎◌, inl, inr, ◌≤◌, ◌<◌, List, [], ◌∷◌, ◌++◌, arith,
  Bool-cases, leb, leb→le, leb-false→lt,
}
use potluck.Registry.{NodeState}
use potluck.Scheduler.Plan.{recruit, share, add_u64}

-- The capacity with these workers, as the loop adds it up, and without overflow.
abbrev pub total_u64 : ℕ → List NodeState → ℕ
total_u64 capacity [] = capacity
total_u64 capacity (n ∷ ns) = total_u64 (add_u64 capacity (share n)) ns

abbrev pub total : ℕ → List NodeState → ℕ
total capacity [] = capacity
total capacity (n ∷ ns) = total (capacity + share n) ns

-- Each worker was recruited while the capacity was still short.
abbrev pub IsLean : ℕ → ℕ → List NodeState → Type 0
IsLean needed capacity [] = Unit
IsLean needed capacity (n ∷ ns) =
    (capacity < needed) × IsLean needed (add_u64 capacity (share n)) ns

total_mono : (a b : ℕ) (ns : List NodeState) → a ≤ b → total a ns ≤ total b ns
total_mono a b [] h = h
total_mono a b (n ∷ ns) h = total_mono (a + share n) (b + share n) ns (omega arith)

pub total_u64-le : (capacity : ℕ) (ns : List NodeState) → total_u64 capacity ns ≤ total capacity ns
total_u64-le capacity [] = omega arith
total_u64-le capacity (n ∷ ns) = omega (
  arith,
  total_u64-le (add_u64 capacity (share n)) ns,
  total_mono (add_u64 capacity (share n)) (capacity + share n) ns (omega arith),
)

total-le : (capacity : ℕ) (ns : List NodeState) → capacity ≤ total capacity ns
total-le capacity [] = omega arith
total-le capacity (n ∷ ns) = omega (arith, total-le (capacity + share n) ns)

pub total_u64-eq :
    (capacity : ℕ) (ns : List NodeState)
    → total capacity ns < 2 ^ 64
    → total_u64 capacity ns ≡ total capacity ns
total_u64-eq capacity [] h = refl
total_u64-eq capacity (n ∷ ns) h =
    let fits : add_u64 capacity (share n) ≡ capacity + share n =
      omega (arith, total-le (capacity + share n) ns) in
    ap (λ (k : ℕ). total_u64 k ns) fits ∙ total_u64-eq (capacity + share n) ns h

-- What the loop leaves: it takes candidates from the front until the need is met.
pub record IsRecruited (needed : ℕ) (cs ws : List NodeState) (capacity : ℕ) (r : List NodeState × ℕ)
    : Type 0 where
  pub taken : List NodeState
  pub left : List NodeState
  pub split : cs ≡ taken ++ left
  pub workers : r.0 ≡ ws ++ taken
  pub sum : r.1 ≡ total_u64 capacity taken
  pub lean : IsLean needed capacity taken
  pub stopped : (needed ≤ r.1) ⊎ (left ≡ [])

pub recruit-IsRecruited :
    (needed : ℕ) (cs ws : List NodeState) (capacity : ℕ)
    → IsRecruited needed cs ws capacity (recruit needed cs ws capacity)
unfolding recruit
recruit-IsRecruited needed [] ws capacity = record {
  taken = [];
  left = [];
  split = refl;
  workers = sym (append-nil ws);
  sum = refl;
  lean = tt;
  stopped = inr refl;
}
recruit-IsRecruited needed (n ∷ ns) ws capacity = elim (Bool-cases (leb needed capacity)) [
  | inl met ↦ rw met (record {
    taken = [];
    left = n ∷ ns;
    split = refl;
    workers = sym (append-nil ws);
    sum = refl;
    lean = tt;
    stopped = inl (leb→le _ _ met);
  })
  | inr short ↦
      let r = recruit-IsRecruited needed ns (ws ++ n ∷ []) (add_u64 capacity (share n)) in
      rw short (record {
        taken = n ∷ r.taken;
        left = r.left;
        split = ap (◌∷◌ n) r.split;
        workers = r.workers ∙ append_assoc ws (n ∷ []) r.taken;
        sum = r.sum;
        lean = (leb-false→lt _ _ short, r.lean);
        stopped = r.stopped;
      })
]
