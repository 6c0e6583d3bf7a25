-- ===== src/Cli/Status.antt =====
-- cmd/potluck/main.go: `status`. Each cell is given before it is padded.
pub mod Shown
use potluck.Prelude.{
  ℕ, Bool, true, false, not, ◌&&◌, List, [], ◌∷◌, ◌++◌, map, Text, bytes, length, ◌==◌,
  if◌then◌else◌, Option, none, some,
}
use potluck.Prelude.Int.{ℤ}
use potluck.Registry.{NodeState, Model}
use potluck.Agent.{PoolView}
use potluck.Cli.{Printed, plain, scaled, index_panic, fmt_bytes}

pub record Title : Type 0 where
  pub pool : Text
  pub online : ℕ
  pub total : Printed
  pub available : Printed

pub record Row : Type 0 where
  pub device : Text
  pub status : Text
  pub free : Printed
  pub active : ℤ
  pub models : Text

-- What was printed on standard output, and the exit code, `none` after a panic. `servable` is the
-- number of models in the last line, which is printed only if there are any.
pub record Output : Type 0 where
  pub title : Option Title
  pub rows : List Row
  pub servable : Option ℕ
  pub exit : Option ℕ

-- What `fmtBytes` returns, `none` if it panics.
pub returned : Option Printed → Option Printed
returned none = none
returned (some (plain n)) = some (plain n)
returned (some (scaled n div letter)) = some (scaled n div letter)
returned (some index_panic) = none

unfoldable pub amount : ℕ → Option Printed
unfolding returned fmt_bytes
amount n = returned (fmt_bytes n)

abbrev pub status_of : NodeState → Text
status_of n =
    if not n.sharing
    then bytes "consume"
    else if not n.ollama_ok
    then bytes "no-ollama"
    else bytes "online"

abbrev pub device_of : NodeState → Text
device_of n = if n.self then n.name ++ bytes "*" else n.name

-- The loop over the models of a node.
pub names_of : List Model → Text
names_of [] = []
names_of (m ∷ []) = m.name
names_of (m ∷ k ∷ ms) = m.name ++ bytes ", " ++ names_of (k ∷ ms)

abbrev pub row_of : NodeState → Printed → Row
row_of n free = record {
  device = device_of n;
  status = status_of n;
  free = free;
  active = n.active;
  models = names_of n.models;
}

unfoldable pub add_row : NodeState → List Row × Bool → Option Printed → List Row × Bool
unfolding names_of
add_row n later none = ([], false)
add_row n (rows, ends) (some free) = (row_of n free ∷ rows, ends)

-- The rows that are printed, and whether the loop ends without a panic.
unfoldable pub rows_of : List NodeState → List Row × Bool
unfolding add_row
rows_of [] = ([], true)
rows_of (n ∷ ns) = add_row n (rows_of ns) (amount n.resources.mem_available)

abbrev pub failed_output : Output
failed_output = record { title = none; rows = []; servable = none; exit = some 1 }

abbrev pub panicked : Output
panicked = record { title = none; rows = []; servable = none; exit = none }

-- Everything after the title.
unfoldable pub below_title : PoolView → Title → List Row × Bool → Output
below_title v title (rows, false) = record {
  title = some title;
  rows = rows;
  servable = none;
  exit = none;
}
below_title v title (rows, true) = record {
  title = some title;
  rows = rows;
  servable = if length v.models == 0 then none else some (length v.models);
  exit = some 0;
}

unfoldable pub show : PoolView → Option Printed → Option Printed → Output
unfolding below_title
show v none available = panicked
show v (some total) none = panicked
show v (some total) (some available) =
    below_title v
      (record { pool = v.pool; online = v.online_nodes; total = total; available = available })
      (rows_of v.nodes)

-- The answer of the local agent: none, one that is not read, or the pool.
pub data Answer : Type 0 where
  no_agent bad_response : Answer
  pool_is : PoolView → Answer

unfoldable pub status : Answer → Output
unfolding show
status no_agent = failed_output
status bad_response = failed_output
status (pool_is v) = show v (amount v.total_mem) (amount v.available_mem)
