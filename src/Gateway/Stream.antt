-- ===== src/Gateway/Stream.antt =====
-- gateway.go: `flushCopy`. What each read of the body gives is an argument.
pub mod Copied
use potluck.Prelude.{
  ℕ, suc, Bool, true, false, List, [], ◌∷◌, ◌++◌, Text, length, ◌==◌, if◌then◌else◌, Option, none,
  some,
}

-- The bytes of one read, and whether it also gives an error, which may be the end of the body.
pub record Read : Type 0 where
  pub content : Text
  pub fails : Bool

-- What is done to the response.
pub data Event : Type 0 where
  wrote refused : Text → Event
  flushed : Event

abbrev pub then_events : List Event → Option (List Event) → Option (List Event)
then_events es none = none
then_events es (some later) = some (es ++ later)

-- What is done with a chunk that was written.
abbrev pub written_chunk : Bool → Text → List Event
written_chunk flushes content = if flushes then wrote content ∷ flushed ∷ [] else wrote content ∷ []

-- `takes n` tells whether the write after `n` others succeeds, and `flushes` whether the response is a
-- Flusher. `none` if the loop has not ended after these reads.
unfoldable pub copy_from : Bool → (ℕ → Bool) → ℕ → List Read → Option (List Event)
copy_from flushes takes n [] = none
copy_from flushes takes n (r ∷ rs) =
    let same = copy_from flushes takes n rs in
    let next = copy_from flushes takes (suc n) rs in
    if length r.content == 0
    then (if r.fails then some [] else same)
    else if takes n
    then then_events (written_chunk flushes r.content) (if r.fails then some [] else next)
    else some (refused r.content ∷ [])

unfoldable pub flush_copy : Bool → (ℕ → Bool) → List Read → Option (List Event)
unfolding copy_from
flush_copy flushes takes reads = copy_from flushes takes 0 reads
