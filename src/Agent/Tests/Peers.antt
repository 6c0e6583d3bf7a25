-- ===== src/Agent/Tests/Peers.antt =====
-- The endpoints for peers and `EnsureLocal`, and their theorems at concrete inputs.
use potluck.Prelude.{
  ℕ, zero, suc, ◌+◌, ◌*◌, ◌<◌, ◌≡◌, refl, true, false, List, [], ◌∷◌, ◌++◌, length, Text, bytes,
  text_eq, Option, none, some, arith, if◌then◌else◌,
}
use potluck.Samples.{second, big}
use potluck.Ollamafs.{Store, model_media_type}
use potluck.Split.Pipeline.{Manager, new_manager}
use potluck.Split.Pipeline.Tracked.{IsTracked, new_manager-IsTracked}
use potluck.Split.Pipeline.Ensure.{Poll, World}
use potluck.Split.Pipeline.Ensure.Waiting.{IsSpaced}
use potluck.Agent.{Agent, build_agent}
use potluck.Agent.Drive.{Net, recruit_all}
use potluck.Agent.Serve.{
  Start, handle_rpc_start, handle_rpc_stop, EnsureRequest, handle_pipeline_ensure,
}
use potluck.Agent.Serve.Gated.{IsRpcStart, handle_rpc_start-IsRpcStart}
use potluck.Agent.Serve.Answered.{Ended, handle_pipeline_ensure_lem}

-- Ports that are read from no more than the answer's status and body; the second worker refuses.
abbrev net : Net
net = record {
  valid = λ target. true;
  answer = λ u.
      if text_eq u.target (bytes "http://10.0.0.9:11444/api/rpc/start")
      then some (403, [])
      else some (200, bytes "50752");
  port_of = λ body. some body;
  host_of = λ addr. some (bytes "10.0.0.7");
  join_host_port = λ host port. host ++ b':' ∷ port;
}

abbrev addrs : List Text
addrs = bytes "10.0.0.9:11444" ∷ bytes "10.0.0.7:11444" ∷ []

one_recruited : recruit_all net (bytes "secret") addrs ≡ bytes "10.0.0.7:50752" ∷ []
unfolding recruit_all text_eq
one_recruited = refl

abbrev store : Store
store = record {
  read_file = λ path. some (bytes "{}");
  exists = λ path. true;
  join = λ parts. bytes "/m/blobs/sha256-2";
  decode = λ b. some (record { media_type = model_media_type; digest = bytes "sha256:2" } ∷ []);
}

-- A model that takes so many seconds to load.
abbrev loads : ℕ → ℕ → List Poll
loads zero at = []
loads (suc n) at =
    record { at = at; cancelled = false; exited = false; healthy = false; cancelled_asleep = false }
    ∷ loads n (at + second)

length-loads : (n at : ℕ) → length (loads n at) ≡ n
length-loads zero at = refl
length-loads (suc n) at = omega (arith, length-loads n (at + second))

loads-IsSpaced : (n at : ℕ) → IsSpaced at (loads n at)
loads-IsSpaced zero at = tt
loads-IsSpaced (suc n) at = (omega arith, loads-IsSpaced n (at + second))

abbrev world : World
world = record {
  now = 100 * second;
  busy = λ p. false;
  starts = λ args. none;
  wait_from = 100 * second;
  polls = loads 1801 (100 * second);
}

enough : 1800 < length world.polls
enough = omega (arith, length-loads 1801 (100 * second))

abbrev driver : Manager
driver = new_manager (bytes "/usr/bin/llama-server") 11500

driver-IsTracked : IsTracked driver
driver-IsTracked = new_manager-IsTracked (bytes "/usr/bin/llama-server") 11500

abbrev lender : Agent
lender =
    build_agent (λ name. some name) none (bytes "mini")
      (record {
        name = bytes "mini";
        port = 11444;
        ollama_url = bytes "http://127.0.0.1:11434";
        pool = bytes "default";
        token = bytes "secret";
        share = true;
        version = bytes "dev";
        rpc_server_bin = bytes "/usr/bin/rpc-server";
        llama_server_bin = bytes "/usr/bin/llama-server";
        rpc_port = 50752;
        ctx_size = 4096;
        models_dir = bytes "/m";
      })

abbrev start : Start
start = record { starts = λ args. true; devices = bytes "CUDA0"; listens = true }

abbrev lent : ℕ × Agent
lent = handle_rpc_start start (bytes "secret") lender

program : Unit {0}
unfolding build_agent handle_rpc_start handle_rpc_stop
program = tt

lent_runs : (lent.0 ≡ 200) × (lent.1.worker.alive ≡ 0 ∷ [])
unfolding program
lent_runs = (refl, refl)

handle_rpc_start-IsRpcStart_example : IsRpcStart start (bytes "secret") lender lent
handle_rpc_start-IsRpcStart_example = handle_rpc_start-IsRpcStart start (bytes "secret") lender

lender-IsTracked : IsTracked lender.pipelines
unfolding program
lender-IsTracked = driver-IsTracked

abbrev wish : Option EnsureRequest
wish = some (record { model = big; workers = addrs })

handle_pipeline_ensure_lem_example :
    Ended net store world lender
      (bytes "secret")
      wish
      (handle_pipeline_ensure net store world (bytes "secret") wish lender)
handle_pipeline_ensure_lem_example =
    handle_pipeline_ensure_lem net store world lender enough (loads-IsSpaced 1801 (100 * second))
      lender-IsTracked (bytes "secret") wish
