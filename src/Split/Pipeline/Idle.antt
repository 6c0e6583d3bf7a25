-- ===== src/Split/Pipeline/Idle.antt =====
-- pipeline.go: what `gcLoop` and `StopAll` stop.
use potluck.Prelude.{
  ℕ, ◌+◌, ◌<◌, ◌≡◌, refl, ◌∙◌, subst, inl, inr, Bool, true, false, List, [], ◌∷◌, map, filter, any,
  All, Text, text_eq, text_eq_iff, text_eq_refl, none, some, Option-cases, arith, lt→ltb,
  if◌then◌else◌,
}
use potluck.Prelude.Dict.{find, IsDistinct, any_value, passes}
use potluck.Prelude.Results.{ok}
use potluck.Split.Pipeline.{
  Pipeline, Manager, stop, stop_each, stop_all, models, is_idle, idle_models, collect, port,
  is_ready, idle_timeout,
}
use potluck.Split.Pipeline.Laws.{find-stop}
use potluck.Split.Pipeline.Tracked.{IsTracked, runs, stop_each-IsTracked}
use potluck.Split.Pipeline.Ensure.{World, Request, ensure}
use potluck.Split.Pipeline.Ensure.Outcome.{EndsWell, used-of_IsSettled, ensure-EndsWell}

abbrev named : Text → List Text → Bool
named j = any (λ s. text_eq j s)

find-stop_each :
    (ss : List Text) (m : Manager) (j : Text)
    → find j (stop_each ss m).pipelines ≡ (if named j ss then none else find j m.pipelines)
unfolding stop_each
find-stop_each [] m j = refl
find-stop_each (s ∷ ss) m j = ground (arith, find-stop_each ss (stop s m) j, find-stop s m j)

named_none :
    (q : Pipeline → Bool) (j : Text) (l : List (Text × Pipeline))
    → find j l ≡ none
    → named j (map (λ (e : Text × Pipeline). e.0) (filter (λ (e : Text × Pipeline). q e.1) l))
      ≡ false
unfolding find
named_none q j [] h = refl
named_none q j ((k, p) ∷ rest) h =
    ground (arith, text_eq_iff k j, text_eq_iff j k, named_none q j rest)

named-filter :
    (q : Pipeline → Bool) (j : Text) (l : List (Text × Pipeline))
    → IsDistinct l
    → named j (map (λ (e : Text × Pipeline). e.0) (filter (λ (e : Text × Pipeline). q e.1) l))
      ≡ passes q (find j l)
unfolding find
named-filter q j [] d = refl
named-filter q j ((k, p) ∷ rest) d =
    ground (arith, text_eq_iff k j, text_eq_iff j k, named-filter q j rest d.1, named_none q j rest)

-- A pass of `gcLoop` stops exactly the pipelines that are ready and have not been used for more
-- than ten minutes; every other entry stays as it was.
pub find-collect :
    (now : ℕ) (m : Manager) (j : Text)
    → IsTracked m
    → find j (collect now m).pipelines ≡ (elim (find j m.pipelines) [
      | none ↦ none
      | some p ↦ if is_idle now p then none else some p
    ])
unfolding collect
find-collect now m j t = ground (
  arith,
  find-stop_each (idle_models now m) m j,
  named-filter (is_idle now) j m.pipelines t.distinct,
)

named_key :
    (j : Text) (l : List (Text × Pipeline)) (p : Pipeline)
    → find j l ≡ some p
    → named j (map (λ (e : Text × Pipeline). e.0) l) ≡ true
unfolding find
named_key j [] p h = cc
named_key j ((k, w) ∷ rest) p h =
    ground (arith, text_eq_iff k j, text_eq_iff j k, named_key j rest p)

find-stop_all : (m : Manager) (j : Text) → find j (stop_all m).pipelines ≡ none
unfolding stop_all
find-stop_all m j = elim (Option-cases (find j m.pipelines)) [
  | inl absent ↦ ground (arith, find-stop_each (models m) m j)
  | inr (p, found) ↦ ground (arith, find-stop_each (models m) m j, named_key j m.pipelines p found)
]

nil_of_find : (l : List (Text × Pipeline)) → ((j : Text) → find j l ≡ none) → l ≡ []
unfolding find
nil_of_find [] h = refl
nil_of_find ((k, p) ∷ rest) h = ground (arith, h k, text_eq_refl k)

nil_of_owned :
    (m : Manager) (running : List ℕ)
    → m.pipelines ≡ []
    → All (λ c. any_value (runs c) m.pipelines ≡ true) running
    → running ≡ []
nil_of_owned m [] e a = refl
nil_of_owned m (c ∷ cs) e a =
    let h : any_value (runs c) [] ≡ true = subst (λ l. any_value (runs c) l ≡ true) e a.0 in cc

-- `StopAll` leaves no entry and no running llama-server, if before it each one that ran was that of an
-- entry of the map, and no other call comes between its stops.
pub stop_all_lem :
    (m : Manager) → IsTracked m → ((stop_all m).pipelines ≡ []) × ((stop_all m).running ≡ [])
unfolding stop_all
stop_all_lem m t =
    let after = stop_each-IsTracked (models m) m t in
    let none_left = nil_of_find (stop_all m).pipelines (find-stop_all m) in
    (none_left, nil_of_owned (stop_all m) (stop_all m).running none_left after.owned)

ready_of_port :
    (model : Text) (n : ℕ) (p : Pipeline) (m : Manager)
    → find model m.pipelines ≡ some p
    → port model m ≡ some n
    → is_ready p.info.state ≡ true
unfolding port
ready_of_port model n p m found h = ground arith

idle_of :
    (now start : ℕ) (p : Pipeline)
    → is_ready p.info.state ≡ true
    → p.info.last_used ≡ start
    → start + idle_timeout < now
    → is_idle now p ≡ true
unfolding is_idle
idle_of now start p is_up used late = rw (is_up, used) (lt→ltb _ _ (omega arith))

port_none : (model : Text) (m : Manager) → find model m.pipelines ≡ none → port model m ≡ none
unfolding port
port_none model m absent = rw (absent, port)

-- A pipeline whose load took more than ten minutes is torn down by the first pass of `gcLoop` after
-- it became ready: `Ensure` has just returned its port, and its last use is still the start of that
-- call.
pub collect_slow_load :
    (w : World) (r : Request) (m m' : Manager) (n now : ℕ)
    → IsTracked m
    → ensure w r m ≡ some (ok n, m')
    → port r.model m' ≡ some n
    → w.now + idle_timeout < now
    → port r.model (collect now m') ≡ none
collect_slow_load w r m m' n now t ended serving late =
    let (s, tracked) = subst (EndsWell w r m) ended (ensure-EndsWell w r m t) in
    let (entry, found, used) = used-of_IsSettled w r m n (find r.model m'.pipelines) s in
    let idle = idle_of now w.now entry (ready_of_port r.model n entry m' found serving) used late in
    port_none r.model (collect now m') (find-collect now m' r.model tracked ∙ rw (found, idle))
