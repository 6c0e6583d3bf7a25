-- ===== src/Gateway/Stream/Copied.antt =====
-- gateway.go: what `flushCopy` passes on of a body, and when.
use potluck.Prelude.{
  append_assoc, ℕ, suc, ◌≡◌, refl, ap, ◌∙◌, inl, inr, Bool, true, false, List, [], ◌∷◌, ◌++◌, any,
  Text, length, ◌==◌, if◌then◌else◌, some, Bool-cases, arith,
}
use potluck.Gateway.Stream.{
  Read, Event, wrote, refused, flushed, then_events, written_chunk, copy_from, flush_copy,
}

-- The body up to the first read that fails.
abbrev pub body_of : List Read → Text
body_of [] = []
body_of (r ∷ rs) = r.content ++ (if r.fails then [] else body_of rs)

-- The bytes that the client was sent.
abbrev pub sent : List Event → Text
sent [] = []
sent (wrote content ∷ es) = content ++ sent es
sent (refused content ∷ es) = sent es
sent (flushed ∷ es) = sent es

-- Each chunk that was written is flushed before anything else is done, and none is empty.
abbrev pub IsFlushed : List Event → Type 0
IsFlushed [] = Unit
IsFlushed (wrote content ∷ []) = ⊥
IsFlushed (wrote content ∷ flushed ∷ es) = (length content == 0) ≡ false × IsFlushed es
IsFlushed (wrote content ∷ wrote c ∷ es) = ⊥
IsFlushed (wrote content ∷ refused c ∷ es) = ⊥
IsFlushed (refused content ∷ es) = IsFlushed es
IsFlushed (flushed ∷ es) = IsFlushed es

-- What was done after `n` writes, with these reads still to come.
pub record IsCopied (flushes : Bool) (takes : ℕ → Bool) (n : ℕ) (rs : List Read) : Type 0 where
  pub events : List Event
  pub ends : copy_from flushes takes n rs ≡ some events
  pub unsent : Text
  pub in_order : sent events ++ unsent ≡ body_of rs
  pub complete : ((k : ℕ) → takes k ≡ true) → unsent ≡ []
  pub at_once : flushes ≡ true → IsFlushed events

sent-written_chunk :
    (flushes : Bool) (content : Text) (es : List Event)
    → sent (written_chunk flushes content ++ es) ≡ content ++ sent es
sent-written_chunk true content es = refl
sent-written_chunk false content es = refl

written_chunk-IsFlushed :
    (flushes : Bool) (content : Text) (es : List Event)
    → (length content == 0) ≡ false
    → flushes ≡ true
    → IsFlushed es
    → IsFlushed (written_chunk flushes content ++ es)
written_chunk-IsFlushed true content es filled yes_flushes h = (filled, h)
written_chunk-IsFlushed false content es filled yes_flushes h = cc

module _ (flushes : Bool) (takes : ℕ → Bool) where
  abbrev read : Text → Bool → Read
  read content fails = record { content = content; fails = fails }

  filled_chunk :
      (n b : ℕ) (content : Text) (fails : Bool) (rs : List Read)
      → copy_from flushes takes n (read (b ∷ content) fails ∷ rs) ≡ (
          if takes n
          then then_events
              (written_chunk flushes (b ∷ content))
              (if fails then some [] else copy_from flushes takes (suc n) rs)
          else some (refused (b ∷ content) ∷ []))
  unfolding copy_from
  filled_chunk n b content fails rs = ground arith

  -- One read of a chunk that is written, before what follows.
  chunk-IsCopied :
      (n : ℕ) (b : ℕ) (content : Text) (fails : Bool) (rs : List Read) (es : List Event)
      (unsent : Text)
      → takes n ≡ true
      → (if fails then some [] else copy_from flushes takes (suc n) rs) ≡ some es
      → sent es ++ unsent ≡ (if fails then [] else body_of rs)
      → (((k : ℕ) → takes k ≡ true) → unsent ≡ [])
      → (flushes ≡ true → IsFlushed es)
      → IsCopied flushes takes n (read (b ∷ content) fails ∷ rs)
  unfolding copy_from
  chunk-IsCopied n b content fails rs es unsent taken ends order complete at_once = record {
    events = written_chunk flushes (b ∷ content) ++ es;
    ends =
        filled_chunk n b content fails rs
        ∙ rw taken (ap (then_events (written_chunk flushes (b ∷ content))) ends);
    unsent = unsent;
    in_order =
        ap (λ t. t ++ unsent) (sent-written_chunk flushes (b ∷ content) es)
        ∙ append_assoc (b ∷ content) (sent es) unsent
        ∙ ap (λ t. (b ∷ content) ++ t) order;
    complete = complete;
    at_once = λ h. written_chunk-IsFlushed flushes (b ∷ content) es (ground arith) h (at_once h);
  }

  -- The client is gone.
  lost-IsCopied :
      (n b : ℕ) (content : Text) (fails : Bool) (rs : List Read)
      → takes n ≡ false
      → IsCopied flushes takes n (read (b ∷ content) fails ∷ rs)
  lost-IsCopied n b content fails rs lost = record {
    events = refused (b ∷ content) ∷ [];
    ends = filled_chunk n b content fails rs ∙ rw lost refl;
    unsent = (b ∷ content) ++ (if fails then [] else body_of rs);
    in_order = refl;
    complete = λ all. let taken = all n in cc;
    at_once = λ h. tt;
  }

  read-IsCopied :
      (n : ℕ) (content : Text) (fails : Bool) (rs : List Read)
      → ((k : ℕ) → fails ≡ false → IsCopied flushes takes k rs)
      → IsCopied flushes takes n (read content fails ∷ rs)
  unfolding copy_from
  read-IsCopied n [] true rs later = record {
    events = [];
    ends = refl;
    unsent = [];
    in_order = refl;
    complete = λ all. refl;
    at_once = λ h. tt;
  }
  read-IsCopied n [] false rs later =
      let c = later n refl in
      record {
        events = c.events;
        ends = c.ends;
        unsent = c.unsent;
        in_order = c.in_order;
        complete = c.complete;
        at_once = c.at_once;
      }
  read-IsCopied n (b ∷ content) true rs later = elim (Bool-cases (takes n)) [
    | inr lost ↦ lost-IsCopied n b content true rs lost
    | inl taken ↦ chunk-IsCopied n b content true rs [] [] taken refl refl (λ all. refl) (λ h. tt)
  ]
  read-IsCopied n (b ∷ content) false rs later = elim (Bool-cases (takes n)) [
    | inr lost ↦ lost-IsCopied n b content false rs lost
    | inl taken ↦
        let c = later (suc n) refl in
        chunk-IsCopied n b content false rs c.events c.unsent taken c.ends c.in_order c.complete
          c.at_once
  ]

  copy_from-IsCopied :
      (n : ℕ) (rs : List Read) → any (λ r. r.fails) rs ≡ true → IsCopied flushes takes n rs
  copy_from-IsCopied n [] ends = cc
  copy_from-IsCopied n (r ∷ rs) ends =
      read-IsCopied n r.content r.fails rs (λ k goes_on. copy_from-IsCopied k rs (ground arith))

  -- `flushCopy` returns if a read fails, as it does at the end of the body. What the client was sent
  -- is the body up to the first read that fails, in order, or a part of it from the start if a write
  -- failed. On a response that is a Flusher each chunk is flushed before anything else is done.
  pub flush_copy-IsCopied :
      (rs : List Read)
      → any (λ r. r.fails) rs ≡ true
      → (events : List Event) × (unsent : Text) × (flush_copy flushes takes rs ≡ some events)
        × (sent events ++ unsent ≡ body_of rs)
        × (((k : ℕ) → takes k ≡ true) → unsent ≡ [])
        × (flushes ≡ true → IsFlushed events)
  unfolding flush_copy
  flush_copy-IsCopied rs ends =
      let c = copy_from-IsCopied 0 rs ends in
      (c.events, c.unsent, c.ends, c.in_order, c.complete, c.at_once)
