-- ===== src/Scheduler/Plan/Missed.antt =====
-- splitplan.go, lines 66 to 76: only the largest driver is tried.
use mathlib.Core.Logic.Or
use mathlib.Core.List.{not-mem-nil, mem-cons, mem-cons_self}
use mathlib.Core.HLevel.{⊥_prop}
use mathlib.Core.Bool.{true≢false}
use native.Mathlib.Bridge.{le_prop}
use potluck.Prelude.{
  ℕ, ◌+◌, ◌≡◌, ◌≢◌, refl, sym, ap, ◌∙◌, subst, inl, inr, ◌⊎◌, ◌≤◌, ◌<◌, true, false, List, [], ◌∷◌,
  Mem, All, arith, Text,
}
use potluck.Prelude.Sort.{SliceSort}
use potluck.Registry.{NodeState, same_model}
use potluck.Scheduler.{eligible, serves}
use potluck.Scheduler.Plan.{
  Plan, PlanError, Decision, not_needed, split_over, impossible, share, plan_split,
}
use potluck.Scheduler.Plan.Sizes.{IsModelSize, IsReported, HeldAtMost, AtMost}
use potluck.Scheduler.Plan.Recruits.{total}
use potluck.Scheduler.Plan.Spec.{FitsNowhere, IsDriver, IsWorker, IsPlan, IsJustified}
use potluck.Scheduler.Plan.Justified.{plan_split-IsJustified}
use potluck.Split.{need}

-- What holds of all, used at one of them.
at_one {ℓ} :
    {A : Type ℓ} {Q : Type 0} (P : A → Type 0) (xs : List A) (x : A)
    → IsProp Q
    → All P xs
    → Mem x xs
    → (P x → Q)
    → Q
at_one P [] x prop h at use_it = absurd (not-mem-nil at)
at_one P (y ∷ ys) x prop h at use_it =
    Or.elim prop (mem-cons.0 at) (λ e. use_it (subst P (sym e) h.0))
      (λ further. at_one P ys x prop h.1 further use_it)

none_of : {A : Type 0} (xs : List A) → ((x : A) → Mem x xs → ⊥) → xs ≡ []
none_of [] h = refl
none_of (x ∷ xs) h = absurd (h x mem-cons_self)

module _ (now : ℕ) (nodes : List NodeState) (model : Text) where
  reported-le :
      (size bound : ℕ)
      → IsReported now model nodes size
      → HeldAtMost now model bound nodes
      → size ≤ bound
  reported-le size bound (n, listed, serving, m, pulled, named, e) held =
      at_one (λ k. serves now model k ≡ true → AtMost model bound k.models) nodes n le_prop held
        listed
        (λ h.
          at_one (λ k. same_model k.name model ≡ true → k.size ≤ bound) n.models m le_prop
            (h serving) pulled (λ below. omega (arith, e, below named)))

  size_unique :
      (size other : ℕ)
      → IsModelSize now model nodes size
      → IsModelSize now model nodes other
      → size ≤ other
  size_unique size other a b = elim a.attained [
    | inl empty ↦ omega (arith, empty)
    | inr reported ↦ reported-le size other reported b.bound
  ]

  -- A driver and workers that could run the model together, whether or not `PlanSplit` would try them.
  pub record IsAble (p : Plan) : Type 0 where
    pub size : IsModelSize now model nodes p.model_size
    pub needed : p.need ≡ need p.model_size
    pub listed : Mem p.driver nodes
    pub serving : serves now model p.driver ≡ true
    pub drives : p.driver.split.driver ≡ true
    pub workers : All (IsWorker now nodes model p.driver) p.workers
    pub enough : p.need ≤ total (share p.driver) p.workers

  -- A node has no rpc-server, and it cannot drive or has less memory than `a`.
  abbrev pub IsLesser : NodeState → NodeState → Type 0
  IsLesser a n =
      (n.split.worker ≡ false)
      × ((serves now model n ≡ false)
          ⊎ ((n.split.driver ≡ false) ⊎ (n.resources.mem_available < a.resources.mem_available)))

  -- `a` is the only node with rpc-server, and it has more memory than any other driver.
  pub record IsLoneWorker (a : NodeState) : Type 0 where
    pub listed : Mem a nodes
    pub fresh : eligible now a ≡ true
    pub able : a.split.worker ≡ true
    pub serving : serves now model a ≡ true
    pub drives : a.split.driver ≡ true
    pub others : All (λ n. (n.id ≡ a.id) ⊎ IsLesser a n) nodes

  module _ (a : NodeState) (l : IsLoneWorker a) where
    lesser-ne_driver : (d : NodeState) → IsDriver now nodes model d → IsLesser a d → ⊥
    lesser-ne_driver d j (idle, inl unserving) = true≢false (sym j.serving ∙ unserving)
    lesser-ne_driver d j (idle, inr (inl unable)) = true≢false (sym j.able ∙ unable)
    lesser-ne_driver d j (idle, inr (inr smaller)) =
        omega (arith, smaller, j.largest a l.listed l.serving l.drives)

    driver_id : (d : NodeState) → IsDriver now nodes model d → (d.id ≢ a.id) → ⊥
    driver_id d j other =
        at_one _ nodes d ⊥_prop l.others j.listed
          (λ c. elim c [ inl same ↦ other same | inr lesser ↦ lesser-ne_driver d j lesser ])

    -- A worker is not the driver, so one of the two is lesser.
    no_worker : (d n : NodeState) → IsDriver now nodes model d → IsWorker now nodes model d n → ⊥
    no_worker d n j k = at_one _ nodes n ⊥_prop l.others k.listed (λ c. elim c [
      | inl same ↦ driver_id d j (λ e. k.other (same ∙ sym e))
      | inr lesser ↦ true≢false (sym k.able ∙ lesser.0)
    ])

    -- The largest driver is `a`, which has no other node to recruit.
    no_plan : (p : Plan) → IsPlan now nodes model p → ⊥
    no_plan p j =
        let nobody : p.workers ≡ [] =
          none_of p.workers (λ n at. no_worker p.driver n j.driver (j.workers n at)) in
        let alone : p.need ≤ share p.driver =
          subst (λ ws. p.need ≤ total (share p.driver) ws) nobody j.enough in
        let short = j.too_big p.driver j.driver.listed j.driver.serving in
        omega (arith, alone, short)

    nothing_else :
        (size : ℕ) (d : Decision)
        → IsModelSize now model nodes size
        → 0 < size
        → FitsNowhere now nodes model (need size)
        → IsJustified now nodes model d
        → (e : PlanError) × (d ≡ impossible e)
    nothing_else size not_needed sized some_size nowhere (inl unknown) =
        absurd (true≢false (sym l.serving ∙ unknown a l.listed))
    nothing_else size not_needed sized some_size nowhere (inr (inl zero_size)) =
        absurd (omega (arith, some_size, size_unique size 0 sized zero_size))
    nothing_else size not_needed sized some_size nowhere
          (inr (inr (s, is_size, n, at, serving, fits))) =
        let same : s ≡ size =
          omega (arith, size_unique s size is_size sized, size_unique size s sized is_size) in
        let short = nowhere n at serving in
        let equal = ap need same in absurd (omega (arith, fits, short, equal))
    nothing_else size (split_over p) sized some_size nowhere j = absurd (no_plan p j)
    nothing_else size (impossible e) sized some_size nowhere j = (e, refl)

  -- In a pool whose only rpc-server stands on the driver with the most memory, `PlanSplit` gives up on
  -- any model that fits no node whole, although another driver may be able to run it with that worker:
  -- only the largest driver is tried, and a node is no worker of its own.
  pub plan_split_misses :
      (slice : SliceSort NodeState) (a b : NodeState) (size : ℕ)
      → IsLoneWorker a
      → IsModelSize now model nodes size
      → 0 < size
      → FitsNowhere now nodes model (need size)
      → Mem b nodes
      → serves now model b ≡ true
      → b.split.driver ≡ true
      → a.id ≢ b.id
      → need size ≤ share b + share a
      → ((e : PlanError) × (plan_split slice now nodes model ≡ impossible e))
        × IsAble (record { driver = b; workers = a ∷ []; model_size = size; need = need size })
  plan_split_misses slice a b size l sized some_size nowhere listed serving drives other enough = (
    nothing_else a l size (plan_split slice now nodes model) sized some_size nowhere
        (plan_split-IsJustified now nodes model slice),
    record {
      size = sized;
      needed = refl;
      listed = listed;
      serving = serving;
      drives = drives;
      workers = (record { listed = l.listed; fresh = l.fresh; able = l.able; other = other }, tt);
      enough = enough;
    },
  )
