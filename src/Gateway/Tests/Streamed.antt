-- ===== src/Gateway/Tests/Streamed.antt =====
-- A body of two chunks, read with an empty read between them.
use potluck.Prelude.{ℕ, ◌≡◌, refl, Bool, true, false, List, [], ◌∷◌, ◌++◌, Text, bytes, some}
use potluck.Gateway.Stream.{Read, Event, wrote, flushed, flush_copy}
use potluck.Gateway.Stream.Copied.{body_of, sent, IsFlushed, flush_copy-IsCopied}

abbrev reads : List Read
reads =
    record { content = bytes "one"; fails = false }
    ∷ record { content = []; fails = false }
    ∷ record { content = bytes "two"; fails = true }
    ∷ []

abbrev takes : ℕ → Bool
takes k = true

streamed_test :
    flush_copy true takes reads
    ≡ some (wrote (bytes "one") ∷ flushed ∷ wrote (bytes "two") ∷ flushed ∷ [])
unfolding flush_copy
streamed_test = refl

flush_copy-IsCopied_example :
    (events : List Event) × (unsent : Text) × (flush_copy true takes reads ≡ some events)
    × (sent events ++ unsent ≡ body_of reads)
    × (((k : ℕ) → takes k ≡ true) → unsent ≡ [])
    × (true ≡ true → IsFlushed events)
flush_copy-IsCopied_example = flush_copy-IsCopied true takes reads refl
