-- ===== src/Gateway/Traffic/Counted.antt =====
-- gateway.go: what the counters and the history say however requests overlap.
use mathlib.Core.List.{mem-cons_self, mem-cons_of_mem}
use potluck.Prelude.{
  All, All_map, Mem, subst, ◌-◌, ◌/◌, ℕ, zero, suc, ◌+◌, ◌%◌, ◌^◌, ◌≤◌, ◌<◌, ◌≡◌, refl, ap, ◌∙◌,
  Bool, true, false, List, [], ◌∷◌, ◌++◌, length, take, Text, ◌==◌, arith,
}
use potluck.Prelude.Int.{ℤ, pos, negsuc, ◌+ℤ◌}
use potluck.Gateway.{
  keep, RequestRecord, Gateway, new_gateway, Finished, record_of, record_request, enter, leave,
}
use potluck.Gateway.Traffic.{
  take_id, drop_active, count_served, Traffic, Step, enters, leaves, counts, numbers, records,
  Reachable, fresh, later,
}

-- The deferred function, if no other request comes between its halves.
leave-halves : (g : Gateway) → leave g ≡ count_served (drop_active g)
unfolding leave drop_active count_served
leave-halves g = refl

one_if : Bool → ℕ
one_if true = 1
one_if false = 0

-- How many records have this number.
pub times : ℕ → List RequestRecord → ℕ
unfolding one_if
times id [] = 0
times id (r ∷ rs) = one_if (r.id == id) + times id rs

times-append :
    (id : ℕ) (rs qs : List RequestRecord) → times id (rs ++ qs) ≡ times id rs + times id qs
unfolding times
times-append id [] qs = omega arith
times-append id (r ∷ rs) qs = omega (arith, times-append id rs qs)

-- What a record says of a request that has ended.
pub record IsRecordOf (f : Finished) (r : RequestRecord) : Type 0 where
  pub time : r.time ≡ f.start
  pub path : r.path ≡ f.path
  pub model : r.model ≡ f.model
  pub node : r.node ≡ f.node
  pub status : r.status ≡ f.status
  pub duration : r.duration ≡ (f.stop - f.start) / 1000

-- The record is that of one of these requests.
abbrev pub IsFounded : List Finished → RequestRecord → Type 0
IsFounded fs r = (f : Finished) × Mem f fs × IsRecordOf f r

further-IsFounded :
    (f : Finished) (fs : List Finished) (r : RequestRecord) → IsFounded fs r → IsFounded (f ∷ fs) r
further-IsFounded f fs r (k, at, same) = (k, mem-cons_of_mem f at, same)

All-taken :
    (P : RequestRecord → Type 0) (ahead : List RequestRecord) (r : RequestRecord)
    (behind : List RequestRecord)
    → All P (ahead ++ r ∷ behind)
    → P r × All P (ahead ++ behind)
All-taken P [] r behind h = h
All-taken P (q ∷ ahead) r behind h =
    let (own, others) = All-taken P ahead r behind h.1 in (own, (h.0, others))

-- What holds of the counters and of the history.
pub record IsCounted (t : Traffic) : Type 0 where
  pub active : t.gateway.active ≡ pos t.executing
  pub served : t.gateway.total_served ≡ t.counted % 2 ^ 64
  pub numbered : length t.recorded + length t.unrecorded ≡ t.gateway.req_id
  pub once : (id : ℕ) → times id t.recorded + times id t.unrecorded ≤ 1
  pub given : (id : ℕ) → t.gateway.req_id < id → times id t.recorded + times id t.unrecorded ≡ 0
  pub kept : t.gateway.history ≡ take keep t.recorded
  pub founded : All (IsFounded t.asked) t.recorded
  pub awaited : All (IsFounded t.asked) t.unrecorded

take-take_cons {ℓ} :
    {A : Type ℓ} (n : ℕ) (x : A) (xs : List A) → take n (x ∷ take n xs) ≡ take n (x ∷ xs)
take-take_cons zero x xs = refl
take-take_cons (suc zero) x xs = refl
take-take_cons (suc (suc n)) x [] = refl
take-take_cons (suc (suc n)) x (y ∷ ys) = ap (◌∷◌ x) (take-take_cons (suc n) y ys)

one_up : (n : ℕ) → pos n +ℤ pos 1 ≡ pos (suc n)
unfolding ◌+ℤ◌
one_up n = ground arith

one_down : (n : ℕ) → pos (suc n) +ℤ negsuc 0 ≡ pos n
unfolding ◌+ℤ◌
one_down n = ground arith

enters-IsCounted :
    (t : Traffic)
    → IsCounted t
    → IsCounted (record t { gateway = enter t.gateway; executing = suc t.executing })
unfolding enter
enters-IsCounted t c = record {
  active = ap (λ (a : ℤ). a +ℤ pos 1) c.active ∙ one_up t.executing;
  served = c.served;
  numbered = c.numbered;
  once = c.once;
  given = c.given;
  kept = c.kept;
  founded = c.founded;
  awaited = c.awaited;
}

leaves-IsCounted :
    (t : Traffic) (n : ℕ)
    → t.executing ≡ suc n
    → IsCounted t
    → IsCounted
        (record t { gateway = drop_active t.gateway; executing = n; leaving = suc t.leaving })
unfolding drop_active
leaves-IsCounted t n e c = record {
  active = ap (λ (a : ℤ). a +ℤ negsuc 0) (c.active ∙ ap pos e) ∙ one_down n;
  served = c.served;
  numbered = c.numbered;
  once = c.once;
  given = c.given;
  kept = c.kept;
  founded = c.founded;
  awaited = c.awaited;
}

counts-IsCounted :
    (t : Traffic) (n : ℕ)
    → IsCounted t
    → IsCounted
        (record t { gateway = count_served t.gateway; leaving = n; counted = suc t.counted })
unfolding count_served
counts-IsCounted t n c = record {
  active = c.active;
  served = omega (arith, c.served);
  numbered = c.numbered;
  once = c.once;
  given = c.given;
  kept = c.kept;
  founded = c.founded;
  awaited = c.awaited;
}

numbers-IsCounted :
    (t : Traffic) (f : Finished)
    → IsCounted t
    → IsCounted (record t {
      gateway = take_id t.gateway;
      unrecorded = record_of f (t.gateway.req_id + 1) ∷ t.unrecorded;
      asked = f ∷ t.asked;
    })
unfolding times one_if
numbers-IsCounted t f c = record {
  active = c.active;
  served = c.served;
  numbered = omega (arith, c.numbered);
  once = λ id. ground (arith, c.once id, c.given id);
  given = λ id later. ground (arith, c.given id);
  kept = c.kept;
  founded = All_map _ _ t.recorded (further-IsFounded f t.asked) c.founded;
  awaited = (
    (
      f,
      mem-cons_self,
      record {
        time = refl;
        path = refl;
        model = refl;
        node = refl;
        status = refl;
        duration = refl;
      },
    ),
    All_map _ _ t.unrecorded (further-IsFounded f t.asked) c.awaited,
  );
}

length-append_cons :
    (ahead : List RequestRecord) (r : RequestRecord) (behind : List RequestRecord)
    → length (ahead ++ r ∷ behind) ≡ suc (length (ahead ++ behind))
length-append_cons [] r behind = refl
length-append_cons (q ∷ ahead) r behind = ap suc (length-append_cons ahead r behind)

-- A record that was in line is made.
times-recorded :
    (id : ℕ) (t : Traffic) (ahead : List RequestRecord) (r : RequestRecord)
    (behind : List RequestRecord)
    → t.unrecorded ≡ ahead ++ r ∷ behind
    → times id (r ∷ t.recorded) + times id (ahead ++ behind)
      ≡ times id t.recorded + times id t.unrecorded
unfolding times
times-recorded id t ahead r behind e =
    omega (arith, times-append id ahead behind, times-append id ahead (r ∷ behind), ap (times id) e)

records-IsCounted :
    (t : Traffic) (ahead : List RequestRecord) (r : RequestRecord) (behind : List RequestRecord)
    → t.unrecorded ≡ ahead ++ r ∷ behind
    → IsCounted t
    → IsCounted (record t {
      gateway = record_request r t.gateway;
      unrecorded = ahead ++ behind;
      recorded = r ∷ t.recorded;
    })
unfolding record_request
records-IsCounted t ahead r behind e c =
    let (own, others) =
      All-taken (IsFounded t.asked) ahead r behind (subst (All (IsFounded t.asked)) e c.awaited) in
    record {
      active = c.active;
      served = c.served;
      numbered = omega (arith, c.numbered, ap length e, length-append_cons ahead r behind);
      once = λ id. omega (arith, c.once id, times-recorded id t ahead r behind e);
      given = λ id later. omega (arith, c.given id later, times-recorded id t ahead r behind e);
      kept = ap (λ h. take keep (r ∷ h)) c.kept ∙ take-take_cons keep r t.recorded;
      founded = (own, c.founded);
      awaited = others;
    }

Step-IsCounted : (t t' : Traffic) → Step t t' → IsCounted t → IsCounted t'
Step-IsCounted t _ enters c = enters-IsCounted t c
Step-IsCounted t _ (leaves n e) c = leaves-IsCounted t n e c
Step-IsCounted t _ (counts n e) c = counts-IsCounted t n c
Step-IsCounted t _ (numbers f) c = numbers-IsCounted t f c
Step-IsCounted t _ (records ahead r behind e) c = records-IsCounted t ahead r behind e c

-- However requests overlap, `active` is the number of those that this node executes, and
-- `totalServed` the number of those that were counted, as a uint64. Every request that was numbered
-- is in line to be recorded or was recorded, once, under a number of its own that is not above the
-- last one given. Each record has the path, model, node, status, start and duration of a request, and
-- the history is the hundred records made last, newest first, or all if there are fewer.
pub Reachable-IsCounted :
    (self_id ollama_url token : Text) (t : Traffic)
    → Reachable self_id ollama_url token t
    → IsCounted t
unfolding new_gateway times
Reachable-IsCounted self_id ollama_url token _ fresh = record {
  active = refl;
  served = refl;
  numbered = refl;
  once = λ id. omega arith;
  given = λ id later. refl;
  kept = refl;
  founded = tt;
  awaited = tt;
}
Reachable-IsCounted self_id ollama_url token t' (later t _ r step) =
    Step-IsCounted t t' step (Reachable-IsCounted self_id ollama_url token t r)
