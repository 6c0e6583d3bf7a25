-- ===== src/Agent/Steps/Present.antt =====
-- agent.go: when the registry holds the node's own state.
use potluck.Prelude.{
  if_cases, ℕ, ◌*◌, ◌≡◌, ◌≢◌, refl, sym, ◌∙◌, subst, inl, inr, Bool, true, false, List, [], ◌∷◌,
  ◌++◌, Text, text_eq, text_eq_iff, text_eq_refl, ne_of_text_eq, text_eq_of_ne, Option, none, some,
  Bool-cases, if◌then◌else◌,
}
use potluck.Discovery.{PeerHint}
use potluck.Registry.{NodeState}
use potluck.Registry.Laws.{IsValid, get-upsert}
use potluck.Registry.Snapshot.{prune_reports}
use potluck.Resources.{Machine, OllamaState}
use potluck.Scheduler.{stale_after}
use potluck.Agent.{
  Agent, Answers, own_state, refresh_self, collect_hint, learn, poll_each, prune_peers,
  handle_state,
}
use potluck.Agent.Steps.{Step, refreshes, hears, polls, learns, prunes, serves}

-- The registry answers for the node's own ID, and says whether the state is the node's own.
abbrev pub AnswersAs : Bool → Agent → Type 0
AnswersAs own a = (n : NodeState) × (handle_state a ≡ some n) × (n.self ≡ own)

-- No answer of this poll claims the node's own ID.
abbrev pub IsHonest :
    {a a' : Agent} {hints hints' : List PeerHint} → Step a hints a' hints' → Type 0
IsHonest {a} (polls answers targets same) =
    (addr : Text) (now : ℕ) (st : NodeState) → answers addr ≡ some (now, st) → st.id ≢ a.id
IsHonest {a} (learns addr answer hinted) =
    (now : ℕ) (st : NodeState) → answer ≡ some (now, st) → st.id ≢ a.id
IsHonest (refreshes now machine ollama) = Unit
IsHonest (hears es h m) = Unit
IsHonest (prunes now) = Unit
IsHonest (serves gateway worker pipelines e) = Unit

refresh_self-present :
    (now : ℕ) (machine : Machine) (ollama : OllamaState) (a : Agent)
    → handle_state (refresh_self now machine ollama a)
      ≡ some (record (own_state machine ollama a) { updated_at = now })
unfolding handle_state refresh_self own_state
refresh_self-present now machine ollama a =
    get-upsert now (own_state machine ollama a) a.reg a.id ∙ rw (text_eq_refl a.id)

learn-other :
    (addr : Text) (answer : Option (ℕ × NodeState)) (a : Agent)
    → ((now : ℕ) (st : NodeState) → answer ≡ some (now, st) → st.id ≢ a.id)
    → handle_state (learn addr answer a) ≡ handle_state a
unfolding handle_state learn
learn-other addr none a honest = refl
learn-other addr (some (now, st)) a honest =
    get-upsert now (record st { self = false; addr = addr }) a.reg a.id
    ∙ rw (text_eq_of_ne st.id a.id (honest now st refl))

learn-id :
    (addr : Text) (answer : Option (ℕ × NodeState)) (a : Agent) → (learn addr answer a).id ≡ a.id
unfolding learn
learn-id addr none a = refl
learn-id addr (some (now, st)) a = refl

if-id : (b : Bool) (a a' : Agent) → a'.id ≡ a.id → (if b then a else a').id ≡ a.id
if-id b a a' e = if_cases (λ x. x.id ≡ a.id) b a a' (λ _. refl) (λ _. e)

poll_each-other :
    (answers : Answers) (targets : List (Text × Text)) (self : Text) (a : Agent)
    → a.id ≡ self
    → ((addr : Text) (now : ℕ) (st : NodeState) → answers addr ≡ some (now, st) → st.id ≢ self)
    → handle_state (poll_each answers targets a) ≡ handle_state a
unfolding poll_each
poll_each-other answers [] self a same honest = refl
poll_each-other answers ((id, addr) ∷ targets) self a same honest =
    let a' = learn addr (answers addr) a in
    poll_each-other answers targets self (if text_eq id a.id then a else a')
      (if-id (text_eq id a.id) a a' (learn-id addr (answers addr) a) ∙ same) honest
    ∙ if_cases (λ x. handle_state x ≡ handle_state a) (text_eq id a.id) a a' (λ _. refl)
        (λ _.
          learn-other addr (answers addr) a
            (λ now st e claims. honest addr now st e (claims ∙ same)))

-- Once a well-formed registry has the node's own state, it keeps it and answers with it, also if it is
-- not refreshed for long: no tick, hint or request takes it away, as long as no polled peer claims the
-- node's ID.
pub own_state_kept :
    {a a' : Agent} {hints hints' : List PeerHint} (s : Step a hints a' hints')
    → IsHonest s
    → IsValid a.reg
    → AnswersAs true a
    → AnswersAs true a'
unfolding refresh_self collect_hint prune_peers handle_state own_state
own_state_kept {a} (refreshes now machine ollama) honest valid (n, here, own) = (
  record (own_state machine ollama a) { updated_at = now },
  refresh_self-present now machine ollama a,
  refl,
)
own_state_kept (hears es h m) honest valid (n, here, own) = (n, here, own)
own_state_kept {a} (polls answers targets same) honest valid (n, here, own) =
    (n, poll_each-other answers targets a.id a refl honest ∙ here, own)
own_state_kept {a} (learns addr answer hinted) honest valid (n, here, own) =
    (n, learn-other addr answer a honest ∙ here, own)
own_state_kept {a} (prunes now) honest valid (n, here, own) =
    (n, (prune_reports now (stale_after * 2) a.reg a.id valid).2 n here own, own)
own_state_kept (serves gateway worker pipelines e) honest valid (n, here, own) = (n, here, own)

-- An answer that claims the node's own ID takes the place of its state.
learn-impostor :
    (addr : Text) (now : ℕ) (st : NodeState) (a : Agent)
    → st.id ≡ a.id
    → AnswersAs false (learn addr (some (now, st)) a)
unfolding learn handle_state
learn-impostor addr now st a claims = (
  record st { self = false; addr = addr; updated_at = now },
  get-upsert now (record st { self = false; addr = addr }) a.reg a.id
      ∙ rw ((text_eq_iff st.id a.id).1 claims),
  refl,
)

learn-keeps_false :
    (addr : Text) (answer : Option (ℕ × NodeState)) (a : Agent)
    → AnswersAs false a
    → AnswersAs false (learn addr answer a)
learn-keeps_false addr none a h = unfold learn in h
learn-keeps_false addr (some (now, st)) a (n, here, not_own) =
    elim (Bool-cases (text_eq st.id a.id)) [
      | inl claims ↦ learn-impostor addr now st a ((text_eq_iff st.id a.id).0 claims)
      | inr other ↦ (
        n,
        learn-other addr (some (now, st)) a (λ now' st' e.
              let same : st ≡ st' = cc in
              subst (λ (x : NodeState). x.id ≢ a.id) same (ne_of_text_eq st.id a.id other))
            ∙ here,
        not_own,
      )
    ]

poll_each-keeps_false :
    (answers : Answers) (targets : List (Text × Text)) (a : Agent)
    → AnswersAs false a
    → AnswersAs false (poll_each answers targets a)
unfolding poll_each
poll_each-keeps_false answers [] a h = h
poll_each-keeps_false answers ((id, addr) ∷ targets) a h =
    poll_each-keeps_false answers targets
      (if text_eq id a.id then a else learn addr (answers addr) a)
      (if_cases (AnswersAs false) (text_eq id a.id) a _ (λ _. h)
        (λ _. learn-keeps_false addr (answers addr) a h))

-- A poll that reaches, under another node's ID, an agent that states this node's ID makes the
-- registry forget that the node's own state is its own, whoever else is polled.
pub poll_each_impostor :
    (answers : Answers) (ahead behind : List (Text × Text)) (id addr : Text) (now : ℕ)
    (st : NodeState) (a : Agent)
    → id ≢ a.id
    → answers addr ≡ some (now, st)
    → st.id ≡ a.id
    → AnswersAs false (poll_each answers (ahead ++ (id, addr) ∷ behind) a)
unfolding poll_each
poll_each_impostor answers [] behind id addr now st a other answered claims =
    let learned : AnswersAs false (learn addr (answers addr) a) =
      subst (λ (o : Option (ℕ × NodeState)). AnswersAs false (learn addr o a)) (sym answered)
        (learn-impostor addr now st a claims) in
    poll_each-keeps_false answers behind
      (if text_eq id a.id then a else learn addr (answers addr) a)
      (if_cases (AnswersAs false) (text_eq id a.id) a _
        (λ e. absurd (other ((text_eq_iff id a.id).0 e))) (λ _. learned))
poll_each_impostor answers ((k, at) ∷ ahead) behind id addr now st a other answered claims =
    let a' = if text_eq k a.id then a else learn at (answers at) a in
    let same : a'.id ≡ a.id =
      if-id (text_eq k a.id) a (learn at (answers at) a) (learn-id at (answers at) a) in
    poll_each_impostor answers ahead behind id addr now st a' (λ e. other (e ∙ same)) answered
      (claims ∙ sym same)
