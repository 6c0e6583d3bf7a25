-- ===== src/Split/Tests/Logged.antt =====
-- The log file of a pipeline whose model holds slashes.
use potluck.Prelude.{◌≡◌, refl, true, List, [], ◌∷◌, ◌++◌, Text, bytes, Option, none, some}
use potluck.Split.Logs.{Places, log_dir, start_logged}
use potluck.Split.Logs.Inside.{IsInside, start_logged-IsInside}

abbrev joined_by_slash : List Text → Text
joined_by_slash [] = []
joined_by_slash (part ∷ []) = part
joined_by_slash (part ∷ rest ∷ parts) = part ++ b'/' ∷ joined_by_slash (rest ∷ parts)

abbrev places : Places
places = record {
  home = some (bytes "/home/ann");
  temp_dir = bytes "/tmp";
  join = joined_by_slash;
  opens = λ path. true;
}

abbrev model : Text
model = bytes "pipeline-../../etc/qwen3:8b"

failure : Option Text
failure = none

logged_test :
    (start_logged places model failure).0
    ≡ some (bytes "/home/ann/.potluck/logs/pipeline-.._.._etc_qwen3_8b.log")
unfolding start_logged
logged_test = refl

start_logged-IsInside_example : IsInside (log_dir places) (start_logged places model failure).0
unfolding log_dir
start_logged-IsInside_example =
    start_logged-IsInside places model failure (λ name none_slash some_name no_dot no_dots. refl)
