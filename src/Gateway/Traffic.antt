-- ===== src/Gateway/Traffic.antt =====
-- gateway.go: the counters and the history while requests overlap. Each step is one atomic operation,
-- or the section of `record` under its lock.
pub mod Counted
use potluck.Prelude.{ℕ, suc, ◌+◌, ◌%◌, ◌^◌, ◌≡◌, List, [], ◌∷◌, ◌++◌, Text}
use potluck.Prelude.Int.{negsuc, ◌+ℤ◌}
use potluck.Gateway.{
  RequestRecord, Gateway, new_gateway, Finished, record_of, record_request, enter,
}

-- The first half of the deferred function.
unfoldable pub drop_active : Gateway → Gateway
unfolding ◌+ℤ◌
drop_active g = record g { active = g.active +ℤ negsuc 0 }

-- The second half.
unfoldable pub count_served : Gateway → Gateway
count_served g = record g { total_served = (g.total_served + 1) % 2 ^ 64 }

-- `g.reqID.Add(1)`, an argument of `record`.
abbrev pub take_id : Gateway → Gateway
take_id g = record g { req_id = g.req_id + 1 }

-- The gateway, the requests that this node executes, those that have left and are not counted yet,
-- the records that have a number and are not in the history yet, how many requests were counted so
-- far, every record that was made, newest first, and every request that has got a number.
pub record Traffic : Type 0 where
  pub gateway : Gateway
  pub executing : ℕ
  pub leaving : ℕ
  pub unrecorded : List RequestRecord
  pub counted : ℕ
  pub recorded : List RequestRecord
  pub asked : List Finished

abbrev pub no_traffic : Gateway → Traffic
no_traffic g = record {
  gateway = g;
  executing = 0;
  leaving = 0;
  unrecorded = [];
  counted = 0;
  recorded = [];
  asked = [];
}

pub data Step (t : Traffic) : Traffic → Type 0 where
  enters : Step t (record t { gateway = enter t.gateway; executing = suc t.executing })
  leaves :
      (n : ℕ)
      → t.executing ≡ suc n
      → Step t
          (record t { gateway = drop_active t.gateway; executing = n; leaving = suc t.leaving })
  counts :
      (n : ℕ)
      → t.leaving ≡ suc n
      → Step t (record t { gateway = count_served t.gateway; leaving = n; counted = suc t.counted })
  numbers :
      (f : Finished)
      → Step t (record t {
        gateway = take_id t.gateway;
        unrecorded = record_of f (t.gateway.req_id + 1) ∷ t.unrecorded;
        asked = f ∷ t.asked;
      })
  records :
      (ahead : List RequestRecord) (r : RequestRecord) (behind : List RequestRecord)
      → t.unrecorded ≡ ahead ++ r ∷ behind
      → Step t (record t {
        gateway = record_request r t.gateway;
        unrecorded = ahead ++ behind;
        recorded = r ∷ t.recorded;
      })

pub data Reachable (self_id ollama_url token : Text) : Traffic → Type 0 where
  fresh : Reachable self_id ollama_url token (no_traffic (new_gateway self_id ollama_url token))
  later :
      (t t' : Traffic)
      → Reachable self_id ollama_url token t
      → Step t t'
      → Reachable self_id ollama_url token t'
