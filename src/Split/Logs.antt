-- ===== src/Split/Logs.antt =====
-- internal/split/split.go: the log files of the processes that a node starts. The environment and
-- `filepath.Join` are arguments.
pub mod Inside
use potluck.Prelude.{
  ℕ, Bool, true, false, ◌||◌, List, [], ◌∷◌, ◌++◌, map, Text, bytes, ◌==◌, if◌then◌else◌, Option,
  none, some,
}

-- `os.UserHomeDir`, `os.TempDir`, `filepath.Join`, and whether a file can be opened for appending.
pub record Places : Type 0 where
  pub home : Option Text
  pub temp_dir : Text
  pub join : List Text → Text
  pub opens : Text → Bool

-- The source also makes the directory, and ignores whether that succeeds.
unfoldable pub log_dir : Places → Text
log_dir p = elim p.home [
  | none ↦ p.temp_dir
  | some home ↦ p.join (home ∷ bytes ".potluck" ∷ bytes "logs" ∷ [])
]

abbrev pub safe_byte : ℕ → ℕ
safe_byte b = if b == b'/' || b == b':' || b == b' ' then b'_' else b

-- The replacer and the extension.
unfoldable pub log_name : Text → Text
log_name name = map safe_byte name ++ bytes ".log"

abbrev pub log_path : Places → Text → Text
log_path p name = p.join (log_dir p ∷ log_name name ∷ [])

-- The file that was opened, if it could be.
unfoldable pub open_log : Places → Text → Option Text
unfolding log_dir log_name
open_log p name = if p.opens (log_path p name) then some (log_path p name) else none

-- The file that takes the output, and the error of starting the process, which is started either way.
unfoldable pub start_logged {ℓ} : {E : Type ℓ} → Places → Text → Option E → Option Text × Option E
unfolding open_log
start_logged p name failure = (open_log p name, failure)
