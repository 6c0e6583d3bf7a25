-- ===== src/Gateway/Record.antt =====
-- gateway.go: the history of routed requests and the counters.
use potluck.Prelude.{
  ℕ, zero, suc, ◌+◌, ◌≡◌, refl, ap, ◌∙◌, List, [], ◌∷◌, length, take, reverse, reverse_aux, Text,
  arith,
}
use potluck.Gateway.{
  keep, RequestRecord, Gateway, new_gateway, record_request, Finished, record_of, finish,
}

-- The records of these requests, oldest first, numbered from `id + 1`.
pub numbered : List Finished → ℕ → List RequestRecord
numbered [] id = []
numbered (f ∷ fs) id = record_of f (id + 1) ∷ numbered fs (id + 1)

unfoldable pub finish_all : List Finished → Gateway → Gateway
unfolding finish
finish_all [] g = g
finish_all (f ∷ fs) g = finish_all fs (finish f g)

take-take_cons {ℓ} :
    {A : Type ℓ} (n : ℕ) (x : A) (xs : List A) → take n (x ∷ take n xs) ≡ take n (x ∷ xs)
take-take_cons zero x xs = refl
take-take_cons (suc zero) x xs = refl
take-take_cons (suc (suc n)) x [] = refl
take-take_cons (suc (suc n)) x (y ∷ ys) = ap (◌∷◌ x) (take-take_cons (suc n) y ys)

finish_history :
    (f : Finished) (g : Gateway) (older : List RequestRecord)
    → g.history ≡ take keep older
    → (finish f g).history ≡ take keep (record_of f (g.req_id + 1) ∷ older)
unfolding finish record_request
finish_history f g older e =
    ap (λ h. take keep (record_of f (g.req_id + 1) ∷ h)) e
    ∙ take-take_cons keep (record_of f (g.req_id + 1)) older

finish_all_from :
    (fs : List Finished) (g : Gateway) (older : List RequestRecord)
    → g.history ≡ take keep older
    → ((finish_all fs g).history ≡ take keep (reverse_aux (numbered fs g.req_id) older))
      × ((finish_all fs g).req_id ≡ g.req_id + length fs)
unfolding finish_all numbered finish record_request
finish_all_from [] g older e = (e, omega arith)
finish_all_from (f ∷ fs) g older e =
    let (h, i) =
      finish_all_from fs (finish f g) (record_of f (g.req_id + 1) ∷ older)
        (finish_history f g older e) in
    (h, omega (arith, i))

-- After any requests, in order, the history is the hundred newest of their records, newest first,
-- and the requests are numbered from one without a gap.
pub history_lem :
    (self_id ollama_url token : Text) (fs : List Finished)
    → ((finish_all fs (new_gateway self_id ollama_url token)).history
        ≡ take keep (reverse (numbered fs 0)))
      × ((finish_all fs (new_gateway self_id ollama_url token)).req_id ≡ length fs)
unfolding new_gateway
history_lem self_id ollama_url token fs =
    let (h, i) = finish_all_from fs (new_gateway self_id ollama_url token) [] refl in
    (h, omega (arith, i))
