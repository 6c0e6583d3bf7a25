-- ===== src/Lib.antt =====
-- Potluck joins the Ollama servers of a home network into one pool. This library models the parts
-- of it that decide: which nodes are known, which of them serves a request, how a model that fits
-- no node is split, and how the llama-server processes of a split are kept.
--
-- - Prelude: tests, lists, byte strings, integers, sorting, association lists, doubles.
-- - Registry (internal/registry/registry.go): the map of known nodes is an association list.
--   `upsert`, `touch`, `remove`, `prune`, `snapshot` and `get` are the methods, each under the lock
--   and so a function of the whole table; the clock is an argument. Registry/State has the records.
-- - Scheduler (internal/scheduler/scheduler.go): `pick`, `pool_models` and `pool_model_details` on
--   the nodes of a snapshot. Scheduler/Plan (internal/scheduler/splitplan.go): `plan_split`, whose
--   loops are `held_size` and `recruit`. `sort.Slice` is not stable, so it is a parameter, any
--   function that permutes a list into order; `sort.SliceStable` is insertion.
-- - Split (internal/split/split.go): `detect`, `need` and `usable`, with the rounding of doubles
--   written out. Split/Pipeline (internal/split/pipeline.go): the manager's map and the set of its
--   running processes, which `exec.Cmd` stands for in the source; a process is named by the number
--   of its start. Split/Pipeline/Ensure: `ensure` runs alone, with the busy ports, the start of the
--   process and each round of polling as arguments. Split/Pipeline/Shared: calls that overlap are
--   tasks, and `move` does the next section of a task under the lock, its next kill or its next round
--   of polling. Split/Logs: the log files of the processes.
-- - Split/Worker (internal/split/worker.go): the rpc-server's state and a step for each section of
--   `Ensure` and `Stop` under the lock and for each event of the operating system. Split/Worker/
--   Devices has `pickDevices`, with the regular expression of a device as an argument, and
--   Split/Worker/Listening `Ensure` to its end, with the attempts to connect as an argument.
-- - Ollamafs (internal/ollamafs/ollamafs.go): `split_name` and `model_blob_path`; reading a file,
--   its existence, `filepath.Join` and JSON are the record `Store`.
-- - Gateway (internal/gateway/gateway.go and internal/gateway/split.go): `handle_inference` calls
--   the scheduler and returns what was sent upstream; JSON, the HTTP client and the split runner
--   are the record `Outside`. `finish` numbers a request and keeps the history. Gateway/Traffic lets
--   requests overlap, one step for each atomic operation. Gateway/Stream is `flushCopy`, Gateway/Models
--   has the two listings. Gateway/Proxy has the endpoints for peers, with the agent's manager behind
--   the split runner (internal/agent/split.go).
-- - Discovery (internal/discovery/discovery.go): what `Advertise` registers, `parse_entry` and the
--   loop of `browseOnce`; an entry is what the mDNS library has resolved.
-- - Resources (internal/resources/resources.go): `collect`, with nvidia-smi's output read, and
--   `probe_ollama`; the answers of the operating system and of Ollama are arguments.
-- - Agent (internal/agent/agent.go): the agent's state and one function for each of its loops'
--   bodies and of its reports. Agent/Steps lets them follow one another in any order, beside the hints
--   taken so far; a request may change the gateway's counters and the processes at any time.
--   Agent/Identity is `loadOrCreateID`. Agent/Drive (internal/agent/split.go) is `EnsureLocal`, which
--   recruits workers over the network, the record `Net`, and calls the pipeline manager. Agent/Serve
--   (internal/agent/split.go) has the endpoints by which peers use this node.
-- - Cli (cmd/potluck/main.go): `fmt_bytes`. Cli/Status is `potluck status`, whose output is the cells
--   of its table before they are padded.
-- - Samples: a pool of three nodes, which the tests of the modules use.
--
-- The agent's scans find peers, its polls fill the registry with their states, the gateway asks the
-- scheduler with a snapshot of the registry, and the scheduler's plan becomes a call of `EnsureLocal`
-- on the driver, which recruits the workers and calls `ensure`.
--
-- Numbers: sizes are of uint64, and where the source adds or multiplies them the wrap is written
-- out; times are nanoseconds. Fuel: `scale` has seven rounds and `decimal` twenty, enough for a
-- uint64; `free_port` has
-- the hundred rounds of the source; `wait_until` consumes one poll a round, and 1801 polls that
-- begin a second apart are enough for its deadline of 30 minutes; `wait_for_port` consumes one attempt
-- a round, and 51 that begin 200 milliseconds apart are enough for its ten seconds.
--
-- Not modelled: the mDNS library and the repetition of scans, the agent's tickers, HTTP server, routes
-- and shutdown, the dashboard, flags, logs, and the copying of headers: they are input and output.
-- Two simplifications: Go leaves the conversion of a double to uint64 open from 2^64 on, which `need`
-- reaches only for sizes from 0.8 times 2^64, and there the model has the exact product; and the URL of
-- Ollama is kept as it was given, where the source prints the URL that it has parsed.
pub mod Prelude
pub mod Split
pub mod Registry
pub mod Scheduler
pub mod Ollamafs
pub mod Gateway
pub mod Discovery
pub mod Resources
pub mod Agent
pub mod Cli
mod Samples
