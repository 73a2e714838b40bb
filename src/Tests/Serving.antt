-- ===== src/Tests/Serving.antt =====
-- A node that serves three calls.
use mini2_anu_asim.Prelude.{
  ◌≡◌, refl, String, str_eq, true, false, some, none, List, [], ◌∷◌, ok, if◌then◌else◌, replicate,
}
use mini2_anu_asim.Prelude.Dict.{get, set, contains}
use mini2_anu_asim.Prelude.Int.{pos}
use mini2_anu_asim.Prelude.Paths.{join_path}
use mini2_anu_asim.Node.Config.{Endpoint, port_of, node_endpoint}
use mini2_anu_asim.Node.Tree.{build_children}
use mini2_anu_asim.Node.Payload.{Files, base_of, init_payload}
use mini2_anu_asim.Node.Servicer.{Query, Stub, Servicer, Answer, replied, rpc_error, init, fetch}
use mini2_anu_asim.Node.Serve.{Call, outcome_of, Shutdown, serve}
use mini2_anu_asim.Node.Serve.Counts.{replies, busy, IsReported, serve_counts}
use mini2_anu_asim.Node.Counters.{
  Counters, Run, fresh, count_read, count_written, total_read, total_written, moved, fresh_counters,
  elsewhere, read_count, between, read_total,
}
use mini2_anu_asim.Tests.Samples.{counting, overlay}

abbrev one_file : Files
one_file path = if str_eq path "shards/shard_A.bin" then some (replicate 20 1) else none

-- Child C answers the client "cli" only.
abbrev answer_by : String → Query → Answer
answer_by id q =
    if str_eq id "B"
    then replied (record { payload = 2 ∷ []; last = true } ∷ [])
    else if str_eq q.client_id "cli"
    then replied []
    else rpc_error "unknown client"

abbrev channel : String → Endpoint → Stub
channel id endpoint = record { id = id; fetch = answer_by id }

abbrev pub query_by : String → Query
query_by client = record {
  client_id = client;
  request_id = "req";
  chunk_size = pos 0;
  offset = pos 0;
}

abbrev calls : List Call
calls =
    record { active = λ k. true; dt = 4000; query = query_by "cli" }
    ∷ record { active = λ k. false; dt = 900; query = query_by "cli" }
    ∷ record { active = λ k. true; dt = 7000; query = query_by "eve" }
    ∷ record { active = λ k. true; dt = 6000; query = query_by "cli" }
    ∷ []

abbrev pub node_a : Servicer
node_a = record {
  node_id = "A";
  base = pos 0;
  child_stubs =
      record { id = "B"; fetch = answer_by "B" } ∷ record { id = "C"; fetch = answer_by "C" } ∷ [];
  req_count = 0;
  total_ns = 0;
  payload = replicate 20 1;
}

node_a-init : init counting one_file none channel "A" overlay ≡ ok node_a
unfolding init join_path get set contains base_of build_children node_endpoint init_payload
node_a-init = refl

two_replies : (replies node_a calls ≡ 2) × (busy node_a calls ≡ 10000)
unfolding replies busy outcome_of fetch
two_replies = (refl, refl)

port_a : port_of "A" overlay ≡ ok 50051
unfolding port_of get
port_a = refl

-- The two calls that reply count themselves at the same time: one of the updates is lost.
abbrev lost : Counters
lost = record {
  req_count = 1;
  total_ns = 10000;
  phase =
      moved
        (moved
          (moved
            (moved
              (moved
                (moved
                  (moved (moved fresh_counters.phase 0 (read_count 0 4000)) 3 (read_count 0 6000)) 0
                  (between 4000))
                3 (between 6000))
              0 (read_total 0 4000))
            0 elsewhere)
          3 (read_total 4000 6000))
        3 elsewhere;
}

lost_run : Run lost 2 10000
lost_run =
    total_written 3 4000 6000
      (total_read 3 6000
        (total_written 0 0 4000
          (total_read 0 4000
            (count_written 3 0 6000
              (count_written 0 0 4000 (count_read 3 6000 (count_read 0 4000 fresh refl) refl) refl)
              refl)
            refl)
          refl)
        refl)
      refl

lost_calls : Run lost (replies node_a calls) (busy node_a calls)
lost_calls = rw (two_replies.0, two_replies.1) lost_run

serve_counts_example :
    (out : Shutdown) × (serve counting one_file none channel "A" overlay calls lost ≡ ok out)
    × (out.port ≡ 50051)
    × IsReported node_a calls out
serve_counts_example =
    serve_counts counting one_file none channel "A" overlay calls 50051 node_a lost port_a
      node_a-init lost_calls
