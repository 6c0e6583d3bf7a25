-- ===== src/Gateway/Tests/Overlap.antt =====
-- Two requests of which the one numbered later is recorded first.
use potluck.Prelude.{◌≡◌, refl, [], ◌∷◌, map, Text, bytes, ℕ}
use potluck.Prelude.Int.{pos}
use potluck.Samples.{small}
use potluck.Gateway.{Gateway, enter, RequestRecord, new_gateway, Finished, record_of}
use potluck.Gateway.Traffic.{
  Traffic, no_traffic, Step, enters, leaves, counts, numbers, records, Reachable, fresh, later,
}
use potluck.Gateway.Traffic.Counted.{IsCounted, Reachable-IsCounted}

abbrev ollama : Text
ollama = bytes "http://127.0.0.1:11434"

abbrev finished_at : ℕ → Finished
finished_at stop = record {
  start = 5;
  stop = stop;
  path = bytes "/api/chat";
  model = small;
  node = bytes "laptop";
  status = 200;
}

-- What the first of the two leaves, and the other.
abbrev both_recorded : Traffic
both_recorded = record {
  gateway = record {
    self_id = bytes "laptop";
    ollama_url = ollama;
    token = [];
    active = pos 1;
    total_served = 1;
    req_id = 2;
    history = record_of (finished_at 2005) 1 ∷ record_of (finished_at 3005) 2 ∷ [];
  };
  executing = 1;
  leaving = 0;
  unrecorded = [];
  counted = 1;
  recorded = record_of (finished_at 2005) 1 ∷ record_of (finished_at 3005) 2 ∷ [];
  asked = finished_at 3005 ∷ finished_at 2005 ∷ [];
}

newest_second : map (λ (r : RequestRecord). r.id) both_recorded.gateway.history ≡ 1 ∷ 2 ∷ []
newest_second = refl

program : Unit {0}
unfolding new_gateway enter potluck.Gateway.Traffic.drop_active potluck.Gateway.Traffic.count_served
    potluck.Gateway.record_request
program = tt

abbrev idle : Traffic
idle = no_traffic (new_gateway (bytes "laptop") ollama [])

both-reached : Reachable (bytes "laptop") ollama [] both_recorded
unfolding program
both-reached =
    later _ both_recorded
      (later _ _
        (later _ _
          (later _ _
            (later _ _ (later _ _ (later _ _ (later idle _ fresh enters) enters) (leaves 1 refl))
              (counts 0 refl))
            (numbers (finished_at 2005)))
          (numbers (finished_at 3005)))
        (records [] (record_of (finished_at 3005) 2) (record_of (finished_at 2005) 1 ∷ []) refl))
      (records [] (record_of (finished_at 2005) 1) [] refl)

Reachable-IsCounted_example : IsCounted both_recorded
Reachable-IsCounted_example =
    Reachable-IsCounted (bytes "laptop") ollama [] both_recorded both-reached
