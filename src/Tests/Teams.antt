-- ===== src/Tests/Teams.antt =====
-- A C++ node with the children of the Python node A.
use mini2_anu_asim.Prelude.{◌≡◌, refl, String, eq_iff, true, false, some, subst}
use mini2_anu_asim.Prelude.Paths.{ends_with_slash}
use mini2_anu_asim.Node.Payload.{load_shard_payload}
use mini2_anu_asim.Node.Servicer.{fetch}
use mini2_anu_asim.Team.{TeamService, fetch_all}
use mini2_anu_asim.Team.Agrees.{fetch_all-fetch}
use mini2_anu_asim.Team.Payload.{IsPlain, load_payload, load_payload-load_shard_payload}
use mini2_anu_asim.Tests.Serving.{node_a, query_by}
use mini2_anu_asim.Tests.Querying.{disk}

abbrev team_a : TeamService
team_a = record {
  payload = node_a.payload;
  child_stubs = node_a.child_stubs;
  req_count = 0;
  total_ns = 0;
}

-- Child C refuses the client "eve".
fetch_all-fetch_example :
    ((fetch_all (λ k. false) 900 (query_by "eve") team_a).0
      ≡ (fetch (λ k. true) 900 (query_by "eve") node_a).0)
    × ((fetch_all (λ k. false) 900 (query_by "eve") team_a).1.req_count
        ≡ (fetch (λ k. true) 900 (query_by "eve") node_a).1.req_count)
    × ((fetch_all (λ k. false) 900 (query_by "eve") team_a).1.total_ns
        ≡ (fetch (λ k. true) 900 (query_by "eve") node_a).1.total_ns)
fetch_all-fetch_example =
    fetch_all-fetch (λ k. true) (λ k. false) (query_by "eve") (λ k. refl) (λ k. refl) 900 node_a
      team_a refl refl refl refl

pub out-IsPlain : IsPlain "out"
unfolding ends_with_slash
out-IsPlain = (λ h. let same = (eq_iff "out" "").1 h in cc, refl)

plain : (dir : String) → some "out" ≡ some dir → IsPlain dir
plain dir h = let same : "out" ≡ dir = cc in subst IsPlain same out-IsPlain

load_payload-load_shard_payload_example :
    load_payload disk (some "out") "B" ≡ load_shard_payload disk (some "out") "B"
load_payload-load_shard_payload_example =
    load_payload-load_shard_payload disk (some "out") "B" plain
