-- ===== src/Split/Pipeline/Shared/Schedule.antt =====
-- pipeline.go: reachable states by evaluation: calls begin and tasks move in a given order.
use potluck.Prelude.{ℕ, zero, suc, ◌≡◌, refl, ap, List, [], ◌∷◌, ◌++◌, Text, Option, none, some}
use potluck.Split.Pipeline.Ensure.{World, Request, Poll}
use potluck.Split.Pipeline.Shared.{
  Task, move, Shared, settled, asks, moves, Reachable, fresh, later,
}

-- A call of `Ensure` begins, or the task at this place moves.
pub data Turn : Type 0 where
  begin : Request → Turn
  go : ℕ → World → Poll → Turn

-- The tasks around a place.
record Place (l : List Task) : Type 0 where
  ahead : List Task
  task : Task
  behind : List Task
  split : l ≡ ahead ++ task ∷ behind

further : (t : Task) (l : List Task) → Option (Place l) → Option (Place (t ∷ l))
further t l none = none
further t l (some p) =
    some
      (record { ahead = t ∷ p.ahead; task = p.task; behind = p.behind; split = ap (◌∷◌ t) p.split })

place : ℕ → (l : List Task) → Option (Place l)
unfolding further
place n [] = none
place zero (t ∷ l) = some (record { ahead = []; task = t; behind = l; split = refl })
place (suc n) (t ∷ l) = further t l (place n l)

pub record Run (bin : Text) (base_port : ℕ) : Type 0 where
  pub last : Shared
  pub reached : Reachable bin base_port last

gone_to :
    (bin : Text) (base_port : ℕ)
    → Run bin base_port
    → World
    → Poll
    → (s : Shared) → Reachable bin base_port s
    → Option (Place s.tasks)
    → Run bin base_port
gone_to bin base_port r w p s reached none = r
gone_to bin base_port r w p s reached (some at) = record {
  last = settled s at.ahead (move w p at.task s.manager) at.behind;
  reached = later s _ reached (moves w p at.ahead at.task at.behind at.split);
}

turn : (bin : Text) (base_port : ℕ) → Run bin base_port → Turn → Run bin base_port
unfolding gone_to place
turn bin base_port r (begin q) = record { last = _; reached = later r.last _ r.reached (asks q) }
turn bin base_port r (go n w p) =
    gone_to bin base_port r w p r.last r.reached (place n r.last.tasks)

turns : (bin : Text) (base_port : ℕ) → Run bin base_port → List Turn → Run bin base_port
unfolding turn
turns bin base_port r [] = r
turns bin base_port r (t ∷ ts) = turns bin base_port (turn bin base_port r t) ts

unfoldable pub run : (bin : Text) (base_port : ℕ) → List Turn → Run bin base_port
unfolding turns
run bin base_port ts = turns bin base_port (record { last = _; reached = fresh }) ts
