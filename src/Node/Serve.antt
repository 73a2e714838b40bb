-- ===== src/Node/Serve.antt =====
-- `serve` of src/python_server/server.py. gRPC hands the calls to `Fetch` in a pool of ten threads,
-- until the interrupt that ends `wait_for_termination`. `Fetch` reads of the servicer only what
-- `__init__` has set, and writes only the two counters; these are left as the interleaving of the
-- threads leaves them, which is an argument.
pub mod Counts
use mini2_anu_asim.Prelude.{ℕ, String, Bool, Option, List, map, Result, ok, ◌>>=◌}
use mini2_anu_asim.Prelude.Floats.{Floats}
use mini2_anu_asim.Node.Config.{Config, Endpoint, port_of}
use mini2_anu_asim.Node.Payload.{Files}
use mini2_anu_asim.Node.Servicer.{Query, Stub, Servicer, Outcome, fetch, init, average_us}
use mini2_anu_asim.Node.Counters.{Counters}

-- A call as gRPC delivers it: the answers of `context.is_active()`, the time it takes, its query.
pub record Call : Type 0 where
  pub active : ℕ → Bool
  pub dt : ℕ
  pub query : Query

-- How the call ends.
unfoldable pub outcome_of : Servicer → Call → Outcome
unfolding fetch
outcome_of s c = (fetch c.active c.dt c.query s).0

-- What a run leaves: the port, how the calls ended, and the two figures of the last line.
pub record Shutdown : Type 0 where
  pub port : ℕ
  pub outcomes : List Outcome
  pub requests : ℕ
  pub avg_us : ℕ

-- The servicer when it stops.
abbrev pub stopped : Counters → Servicer → Servicer
stopped counters s = record s { req_count = counters.req_count; total_ns = counters.total_ns }

module _ (fl : Floats) (fs : Files) (env : Option String) (channel : String → Endpoint → Stub) where
  unfoldable pub serve : String → Config → List Call → Counters → Result Shutdown
  unfolding outcome_of init port_of average_us
  serve node cfg calls counters = do
    port ← port_of node cfg
    servicer ← init fl fs env channel node cfg
    ok (record {
      port = port;
      outcomes = map (outcome_of servicer) calls;
      requests = counters.req_count;
      avg_us = average_us (stopped counters servicer);
    })
