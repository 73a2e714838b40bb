-- ===== src/Rpc/Reaches.antt =====
-- A stub whose channel leads to a server gets what the registered servicer answers.
use mini2_anu_asim.Prelude.{ℕ, String, eq_iff, ◌≡◌, ◌≢◌, refl, ap, ◌∙◌, Bool, Option, some}
use mini2_anu_asim.Node.Servicer.{Query, Servicer, Outcome, reply, abort, fetch}
use mini2_anu_asim.Node.Cluster.{answer_of}
use mini2_anu_asim.Rpc.{
  Message, Wire, response, failure, Grpc, ShardRequest, ShardReply, AggregatedReply, Messages,
  path_of, team_stub, leader_stub, team_fetch, leader_query_once, add_team_servicer,
  add_leader_servicer, wire_of, answer_from, child_stub,
}

-- A call through the channel ends as the server ends it, with the response read from its bytes.
pub record Leads {Bytes : Type 0} (grpc : Grpc Bytes) (channel : grpc.Channel)
    (server : grpc.Server) : Type 1 where
  pub on_response :
      {A B : Type 0} (path : String) (to : A → Bytes) (from : Bytes → Option B) (a : A) (b : B)
      (bs : Bytes)
      → grpc.answer server path (to a) ≡ response bs
      → from bs ≡ some b
      → grpc.unary_unary channel path to from a ≡ response b
  pub on_failure :
      {A B : Type 0} (path : String) (to : A → Bytes) (from : Bytes → Option B) (a : A)
      (details : String)
      → grpc.answer server path (to a) ≡ failure details
      → grpc.unary_unary channel path to from a ≡ failure details

module _ {Bytes : Type 0} (grpc : Grpc Bytes) {A B : Type 0} (request : Message Bytes A)
    (result : Message Bytes B) where
  -- The bytes that go through a handler and back.
  handled :
      (f : A → Wire B) (channel : grpc.Channel) (server : grpc.Server) (path : String) (a : A)
      → Leads grpc channel server
      → ((bs : Bytes)
          → grpc.answer server path bs
            ≡ grpc.handle (grpc.method_handler f request.from_bytes result.to_bytes) bs)
      → (w : Wire B) → f a ≡ w
      → grpc.unary_unary channel path request.to_bytes result.from_bytes a ≡ w
  handled f channel server path a leads own (response b) e =
      leads.on_response path request.to_bytes result.from_bytes a b (result.to_bytes b)
        (own (request.to_bytes a)
          ∙ grpc.handle_response f request.from_bytes result.to_bytes (request.to_bytes a) a b
              (request.from-to a) e)
        (result.from-to b)
  handled f channel server path a leads own (failure details) e =
      leads.on_failure path request.to_bytes result.from_bytes a details (
        own (request.to_bytes a)
        ∙ grpc.handle_failure f request.from_bytes result.to_bytes (request.to_bytes a) a details
            (request.from-to a) e)

paths_apart : "/mini2.TeamService/Fetch" ≢ path_of "mini2.LeaderService" "QueryOnce"
paths_apart h =
    let same = (eq_iff "/mini2.TeamService/Fetch" "/mini2.LeaderService/QueryOnce").1 h in cc

answer_from-wire_of : (o : Outcome) → answer_from (wire_of o) ≡ answer_of o
unfolding answer_from wire_of answer_of
answer_from-wire_of (reply segments) = refl
answer_from-wire_of (abort code details) = refl

module _ {Bytes : Type 0} (grpc : Grpc Bytes) (pb2 : Messages Bytes) (channel : grpc.Channel)
    (server : grpc.Server) where
  -- A stub over a channel to a server that registered a servicer returns what this servicer's
  -- `Fetch` replies, and raises an `RpcError` with the details of its abort.
  pub child_stub_reaches :
      (id : String) (active : ℕ → Bool) (dt : ℕ) (q : Query) (s : Servicer)
      → Leads grpc channel
          (add_team_servicer grpc pb2 (λ r. wire_of (fetch active dt r.query s).0) server)
      → (child_stub grpc pb2 id channel).fetch q ≡ answer_of (fetch active dt q s).0
  unfolding child_stub add_team_servicer team_stub
  child_stub_reaches id active dt q s leads =
      ap answer_from (
        handled grpc pb2.shard_request pb2.shard_reply (λ r. wire_of (fetch active dt r.query s).0)
          channel _ "/mini2.TeamService/Fetch" (record { query = q }) leads
          (λ bs. grpc.answer_own _ "mini2.TeamService" "Fetch" _ bs) _ refl)
      ∙ answer_from-wire_of (fetch active dt q s).0

  -- On a server with both services, each stub gets the answers of its own servicer.
  pub services_apart :
      (fetch : ShardRequest → Wire ShardReply) (query_once : Query → Wire AggregatedReply)
      → Leads grpc channel
          (add_leader_servicer grpc pb2 query_once (add_team_servicer grpc pb2 fetch server))
      → ((r : ShardRequest) → team_stub grpc pb2 channel r ≡ fetch r)
        × ((q : Query) → leader_stub grpc pb2 channel q ≡ query_once q)
  unfolding team_stub leader_stub add_team_servicer add_leader_servicer
  services_apart fetch query_once leads = (
    λ r.
        handled grpc pb2.shard_request pb2.shard_reply fetch channel _ "/mini2.TeamService/Fetch" r
          leads
          (λ bs.
            grpc.answer_other _ "mini2.LeaderService" "QueryOnce" "/mini2.TeamService/Fetch" _ bs
              paths_apart
            ∙ grpc.answer_own _ "mini2.TeamService" "Fetch" _ bs)
          _ refl,
    λ q.
        handled grpc pb2.query pb2.aggregated_reply query_once channel _
          "/mini2.LeaderService/QueryOnce" q leads
          (λ bs. grpc.answer_own _ "mini2.LeaderService" "QueryOnce" _ bs) _ refl,
  )

module _ {Bytes : Type 0} (grpc : Grpc Bytes) (pb2 : Messages Bytes) (server : grpc.Server) where
  -- A single call without a stub reaches the servicer of its service on the target, as a stub does.
  pub single_calls_reach :
      (target : String) (options : grpc.Options) (fetch : ShardRequest → Wire ShardReply)
      (query_once : Query → Wire AggregatedReply)
      → Leads grpc
          (grpc.channel_to target options)
          (add_leader_servicer grpc pb2 query_once (add_team_servicer grpc pb2 fetch server))
      → ((r : ShardRequest) → team_fetch grpc pb2 r target options ≡ fetch r)
        × ((q : Query) → leader_query_once grpc pb2 q target options ≡ query_once q)
  unfolding team_fetch leader_query_once team_stub leader_stub
  single_calls_reach target options fetch query_once leads =
      let (to_team, to_leader) =
        services_apart grpc pb2 (grpc.channel_to target options) server fetch query_once leads in
      (
        λ r. grpc.single_channel r target _ _ _ options ∙ to_team r,
        λ q. grpc.single_channel q target _ _ _ options ∙ to_leader q,
      )
