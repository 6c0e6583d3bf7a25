-- ===== src/Agent/Identity.antt =====
-- agent.go, `loadOrCreateID`: a node's ID, kept in a file.
pub mod Stable
use potluck.Prelude.{
  ℕ, ◌+◌, ◌-◌, ◌/◌, ◌%◌, Bool, true, false, List, [], ◌∷◌, ◌++◌, length, Text, leb, ltb,
  if◌then◌else◌, Option, none, some,
}
use potluck.Resources.{trim_space}

abbrev pub hex_digit : ℕ → ℕ
hex_digit d = if ltb d 10 then b'0' + d else b'a' + (d - 10)

-- `hex.EncodeToString`
unfoldable pub hex : List ℕ → Text
hex [] = []
hex (b ∷ bs) = hex_digit (b / 16) ∷ hex_digit (b % 16) ∷ hex bs

-- What the outside answers: whether there is a home directory, the file if it can be read, eight
-- random bytes, and whether the directory and the file can be written.
pub record Disk : Type 0 where
  pub home : Bool
  pub file : Option Text
  pub random : Option (List ℕ)
  pub makes_dir : Bool
  pub writes : Bool

-- The ID, or `none` on an error, and the file as it is afterwards: by whether the directory could
-- be made and the file written.
pub write_id : Disk → Text → Bool → Bool → Option Text × Option Text
write_id d id true true = (some id, some (id ++ b'\n' ∷ []))
write_id d id true false = (none, d.file)
write_id d id false writes = (none, d.file)

pub create_id : Disk → Option (List ℕ) → Option Text × Option Text
unfolding hex write_id
create_id d none = (none, d.file)
create_id d (some bs) = write_id d (hex bs) d.makes_dir d.writes

-- What was read is an ID if it is long enough.
pub checked_id : Disk → Text → Bool → Option Text × Option Text
unfolding create_id
checked_id d id true = (some id, d.file)
checked_id d id false = create_id d d.random

pub kept_id : Disk → Option Text → Option Text × Option Text
unfolding create_id checked_id trim_space
kept_id d none = create_id d d.random
kept_id d (some b) = let id = trim_space b in checked_id d id (leb 8 (length id))

unfoldable pub load_or_create_id : Disk → Option Text × Option Text
unfolding kept_id
load_or_create_id d = if d.home then kept_id d d.file else (none, d.file)
