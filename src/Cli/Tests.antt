-- ===== src/Cli/Tests.antt =====
-- Amounts, and the theorem at a concrete one.
use potluck.Prelude.{none, [], ◌∷◌, map, bytes, ◌*◌, ◌^◌, ◌≤◌, ◌<◌, ◌≡◌, refl, ◌⊎◌, some, arith}
use potluck.Cli.{plain, index_panic, scaled, fmt_bytes}
use potluck.Samples.{laptop, mini, desktop}
use potluck.Registry.{NodeState}
use potluck.Agent.{PoolView}
use potluck.Cli.Status.{Row, rows_of, amount, status, pool_is}
use potluck.Cli.Status.Shown.{IsStatus, status-IsStatus}
use potluck.Cli.Amounts.{IsScaled, fmt_bytes_lem}

gibibytes : fmt_bytes (24 * 2 ^ 30) ≡ some (scaled (24 * 2 ^ 30) (2 ^ 30) b'G')
unfolding fmt_bytes
gibibytes = refl

fmt_bytes_lem_example :
    ((2 ^ 60 < 1024) × (fmt_bytes (2 ^ 60) ≡ some (plain (2 ^ 60))))
    ⊎ (((1024 ≤ 2 ^ 60) × (2 ^ 60 < 2 ^ 60) × IsScaled (2 ^ 60) (fmt_bytes (2 ^ 60)))
        ⊎ ((2 ^ 60 ≤ 2 ^ 60) × (fmt_bytes (2 ^ 60) ≡ some index_panic)))
fmt_bytes_lem_example = fmt_bytes_lem (2 ^ 60) (omega arith)

-- The second of three nodes reports an exbibyte.
abbrev huge : NodeState
huge = record mini { resources = record mini.resources { mem_available = 2 ^ 60 } }

abbrev view : PoolView
view = record {
  pool = bytes "home";
  self = bytes "laptop";
  nodes = laptop ∷ huge ∷ desktop ∷ [];
  models = [];
  requests = [];
  total_mem = 2 ^ 50;
  available_mem = 2 ^ 50;
  online_nodes = 3;
}

status_test :
    ((status (pool_is view)).exit ≡ none)
    × (map (λ (r : Row). r.status) (status (pool_is view)).rows ≡ bytes "online" ∷ [])
unfolding status rows_of amount
status_test = (refl, refl)

status-IsStatus_example : IsStatus view (status (pool_is view))
status-IsStatus_example =
    status-IsStatus view (omega arith) (omega arith) (omega arith, (omega arith, (omega arith, tt)))
