-- ===== src/Rpc.antt =====
-- src/python_server/cluster_pb2_grpc.py: the stubs of the two services and the registration of their
-- servicers. The gRPC library and the serialisers of protobuf are parameters, and so is the type of
-- the bytes that go over the wire, which the code only passes on.
pub mod Reaches
use mini2_anu_asim.Prelude.{ℕ, String, ◌<>◌, ◌≡◌, ◌≢◌, Bool, Option, some, List, [], ◌∷◌}
use mini2_anu_asim.Prelude.Int.{ℤ}
use mini2_anu_asim.Prelude.Dict.{Dict}
use mini2_anu_asim.Node.Servicer.{
  Query, Segment, Status, Answer, replied, rpc_error, Stub, Outcome, reply, abort,
}

-- `SerializeToString` and `FromString` of a message: what was written is read back.
pub record Message (Bytes M : Type 0) : Type 0 where
  pub to_bytes : M → Bytes
  pub from_bytes : Bytes → Option M
  pub from-to : (x : M) → from_bytes (to_bytes x) ≡ some x

-- How a call ends, at the server or at the client: a response, or a status with its details.
pub data Wire (R : Type 0) : Type 0 where
  response : R → Wire R
  failure : String → Wire R

-- The path of a method.
abbrev pub path_of : String → String → String
path_of service method = "/" <> service <> "/" <> method

-- What the code uses of the library. `answer` is the way a server treats the bytes of a call to a
-- path; a handler of a service gets the calls to "/service/method", and leaves the other paths alone.
pub record Grpc (Bytes : Type 0) : Type 1 where
  pub Handler : Type 0
  pub Server : Type 0
  pub Channel : Type 0
  -- The optional arguments of a single call: options, credentials, `insecure`, compression,
  -- `wait_for_ready`, timeout and metadata.
  pub Options : Type 0
  -- A channel to a target, made for a single call.
  pub channel_to : String → Options → Channel
  -- `unary_unary_rpc_method_handler(behavior, request_deserializer, response_serializer)`.
  pub method_handler : {A B : Type 0} → (A → Wire B) → (Bytes → Option A) → (B → Bytes) → Handler
  -- `add_generic_rpc_handlers`, of the generic handler of a service.
  pub add_generic : String → Dict Handler → Server → Server
  -- `add_registered_method_handlers`.
  pub add_registered : String → Dict Handler → Server → Server
  pub handle : Handler → Bytes → Wire Bytes
  pub answer : Server → String → Bytes → Wire Bytes
  -- `channel.unary_unary(path, request_serializer, response_deserializer)`, called on a request.
  pub unary_unary :
      {A B : Type 0} → Channel → String → (A → Bytes) → (Bytes → Option B) → A → Wire B
  -- `grpc.experimental.unary_unary(request, target, path, …)`.
  pub single :
      {A B : Type 0} → A → String → String → (A → Bytes) → (Bytes → Option B) → Options → Wire B
  pub handle_response :
      {A B : Type 0} (f : A → Wire B) (from : Bytes → Option A) (to : B → Bytes) (bs : Bytes)
      (a : A) (b : B)
      → from bs ≡ some a
      → f a ≡ response b
      → handle (method_handler f from to) bs ≡ response (to b)
  pub handle_failure :
      {A B : Type 0} (f : A → Wire B) (from : Bytes → Option A) (to : B → Bytes) (bs : Bytes)
      (a : A) (details : String)
      → from bs ≡ some a
      → f a ≡ failure details
      → handle (method_handler f from to) bs ≡ failure details
  pub answer_own :
      (server : Server) (service method : String) (h : Handler) (bs : Bytes)
      → answer
          (add_registered service
            ((method, h) ∷ [])
            (add_generic service ((method, h) ∷ []) server))
          (path_of service method)
          bs
        ≡ handle h bs
  pub answer_other :
      (server : Server) (service method path : String) (h : Handler) (bs : Bytes)
      → path ≢ path_of service method
      → answer
          (add_registered service
            ((method, h) ∷ [])
            (add_generic service ((method, h) ∷ []) server))
          path
          bs
        ≡ answer server path bs
  pub single_channel :
      {A B : Type 0} (a : A) (target path : String) (to : A → Bytes) (from : Bytes → Option B)
      (options : Options)
      → single a target path to from options
        ≡ unary_unary (channel_to target options) path to from a

-- The messages of proto/cluster.proto around a query and its segments.
pub record ShardRequest : Type 0 where
  pub query : Query

pub record ShardReply : Type 0 where
  pub segments : List Segment

pub record AggregatedReply : Type 0 where
  pub segments : List Segment
  pub complete : Bool
  pub next_offset : ℤ
  pub has_more : Bool

-- The serialisers that the generated code names.
pub record Messages (Bytes : Type 0) : Type 0 where
  pub shard_request : Message Bytes ShardRequest
  pub shard_reply : Message Bytes ShardReply
  pub query : Message Bytes Query
  pub aggregated_reply : Message Bytes AggregatedReply

-- The servicer's `Fetch` as gRPC calls it, and its stub as the parent's loop sees it.
unfoldable pub wire_of : Outcome → Wire ShardReply
wire_of (reply segments) = response (record { segments = segments })
wire_of (abort code details) = failure details

unfoldable pub answer_from : Wire ShardReply → Answer
answer_from (response r) = replied r.segments
answer_from (failure details) = rpc_error details

module _ {Bytes : Type 0} (grpc : Grpc Bytes) (pb2 : Messages Bytes) where
  -- `TeamServiceStub(channel).Fetch`.
  unfoldable pub team_stub : grpc.Channel → ShardRequest → Wire ShardReply
  team_stub channel =
      grpc.unary_unary channel "/mini2.TeamService/Fetch" pb2.shard_request.to_bytes
        pb2.shard_reply.from_bytes

  -- `LeaderServiceStub(channel).QueryOnce`.
  unfoldable pub leader_stub : grpc.Channel → Query → Wire AggregatedReply
  leader_stub channel =
      grpc.unary_unary channel "/mini2.LeaderService/QueryOnce" pb2.query.to_bytes
        pb2.aggregated_reply.from_bytes

  unfoldable pub add_team_servicer : (ShardRequest → Wire ShardReply) → grpc.Server → grpc.Server
  add_team_servicer fetch server =
      let handlers =
        ("Fetch", grpc.method_handler fetch pb2.shard_request.from_bytes pb2.shard_reply.to_bytes)
        ∷ [] in
      grpc.add_registered "mini2.TeamService" handlers
        (grpc.add_generic "mini2.TeamService" handlers server)

  unfoldable pub add_leader_servicer : (Query → Wire AggregatedReply) → grpc.Server → grpc.Server
  add_leader_servicer query_once server =
      let handlers =
        (
          "QueryOnce",
          grpc.method_handler query_once pb2.query.from_bytes pb2.aggregated_reply.to_bytes,
        )
        ∷ [] in
      grpc.add_registered "mini2.LeaderService" handlers
        (grpc.add_generic "mini2.LeaderService" handlers server)

  -- An entry of `_child_stubs`; the request wraps the query, as `Fetch` does it.
  unfoldable pub child_stub : String → grpc.Channel → Stub
  unfolding team_stub answer_from
  child_stub id channel = record {
    id = id;
    fetch = λ q. answer_from (team_stub channel (record { query = q }));
  }

  -- `TeamService.Fetch`, a single call without a stub.
  unfoldable pub team_fetch : ShardRequest → String → grpc.Options → Wire ShardReply
  team_fetch request target options =
      grpc.single request target "/mini2.TeamService/Fetch" pb2.shard_request.to_bytes
        pb2.shard_reply.from_bytes options

  -- `LeaderService.QueryOnce`, a single call without a stub.
  unfoldable pub leader_query_once : Query → String → grpc.Options → Wire AggregatedReply
  leader_query_once request target options =
      grpc.single request target "/mini2.LeaderService/QueryOnce" pb2.query.to_bytes
        pb2.aggregated_reply.from_bytes options
