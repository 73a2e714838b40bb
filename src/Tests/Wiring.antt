-- ===== src/Tests/Wiring.antt =====
-- A gRPC library in which a server is a list of handlers, and a channel is the server it leads to.
use mini2_anu_asim.Prelude.{
  ◌≡◌, ◌≢◌, refl, String, str_eq, eq_iff, true, Option, some, none, [], ◌∷◌, arith, if◌then◌else◌,
}
use mini2_anu_asim.Prelude.Dict.{Dict}
use mini2_anu_asim.Node.Servicer.{Query, fetch}
use mini2_anu_asim.Node.Cluster.{answer_of}
use mini2_anu_asim.Rpc.{
  Wire, response, failure, Grpc, ShardRequest, ShardReply, AggregatedReply, Messages, path_of,
  add_team_servicer, wire_of, child_stub,
}
use mini2_anu_asim.Rpc.Reaches.{Leads, child_stub_reaches}
use mini2_anu_asim.Tests.Serving.{node_a, query_by}

data Packet : Type 0 where
  request : ShardRequest → Packet
  shards : ShardReply → Packet
  asked : Query → Packet
  page : AggregatedReply → Packet

abbrev read_request : Packet → Option ShardRequest
read_request (request r) = some r
read_request _ = none

abbrev read_shards : Packet → Option ShardReply
read_shards (shards r) = some r
read_shards _ = none

abbrev read_asked : Packet → Option Query
read_asked (asked q) = some q
read_asked _ = none

abbrev read_page : Packet → Option AggregatedReply
read_page (page r) = some r
read_page _ = none

abbrev packets : Messages Packet
packets = record {
  shard_request = record { to_bytes = request; from_bytes = read_request; from-to = λ x. refl };
  shard_reply = record { to_bytes = shards; from_bytes = read_shards; from-to = λ x. refl };
  query = record { to_bytes = asked; from_bytes = read_asked; from-to = λ x. refl };
  aggregated_reply = record { to_bytes = page; from_bytes = read_page; from-to = λ x. refl };
}

abbrev Table : Type 0
Table = Dict (Packet → Wire Packet)

abbrev sent : {B : Type 0} → (B → Packet) → Wire B → Wire Packet
sent to (response b) = response (to b)
sent to (failure details) = failure details

abbrev received : {B : Type 0} → (Packet → Option B) → Wire Packet → Wire B
received from (response bs) = elim (from bs) [
  | none ↦ failure "Exception deserializing response!"
  | some b ↦ response b
]
received from (failure details) = failure details

abbrev behave :
    {A B : Type 0} → (A → Wire B) → (Packet → Option A) → (B → Packet) → Packet → Wire Packet
behave f from to bs = elim (from bs) [
  | none ↦ failure "Exception deserializing request!"
  | some a ↦ sent to (f a)
]

abbrev under : String → Table → Table → Table
under service [] server = server
under service ((method, h) ∷ rest) server = (path_of service method, h) ∷ under service rest server

abbrev look_up : Table → String → Packet → Wire Packet
look_up [] path bs = failure "Method not found!"
look_up ((p, h) ∷ rest) path bs = if str_eq p path then h bs else look_up rest path bs

look_up_own :
    (server : Table) (service method : String) (h : Packet → Wire Packet) (bs : Packet)
    → look_up (under service ((method, h) ∷ []) server) (path_of service method) bs ≡ h bs
look_up_own server service method h bs =
    ground (arith, eq_iff (path_of service method) (path_of service method))

look_up_other :
    (server : Table) (service method path : String) (h : Packet → Wire Packet) (bs : Packet)
    → path ≢ path_of service method
    → look_up (under service ((method, h) ∷ []) server) path bs ≡ look_up server path bs
look_up_other server service method path h bs apart =
    ground (arith, eq_iff (path_of service method) path)

abbrev table_grpc : Grpc Packet
table_grpc = record {
  Handler = Packet → Wire Packet;
  Server = Table;
  Channel = Table;
  Options = Table;
  channel_to = λ target table. table;
  single = λ a target path to from table. received from (look_up table path (to a));
  single_channel = λ a target path to from table. refl;
  method_handler = behave;
  add_generic = under;
  add_registered = λ service handlers server. server;
  handle = λ h bs. h bs;
  answer = look_up;
  unary_unary = λ channel path to from a. received from (look_up channel path (to a));
  handle_response = λ f from to bs a b e h. rw (e, h, behave) refl;
  handle_failure = λ f from to bs a details e h. rw (e, h, behave) refl;
  answer_own = look_up_own;
  answer_other = look_up_other;
}

Leads-itself : (server : Table) → Leads table_grpc server server
Leads-itself server = record {
  on_response = λ path to from a b bs e h. rw (e, h, received) refl;
  on_failure = λ path to from a details e. rw (e) refl;
}

-- Node A, registered alone.
abbrev served : Table
served =
    add_team_servicer table_grpc packets (λ r. wire_of (fetch (λ k. true) 900 r.query node_a).0) []

child_stub_reaches_example :
    (child_stub table_grpc packets "A" served).fetch (query_by "cli")
    ≡ answer_of (fetch (λ k. true) 900 (query_by "cli") node_a).0
child_stub_reaches_example =
    child_stub_reaches table_grpc packets served [] "A" (λ k. true) 900 (query_by "cli") node_a
      (Leads-itself served)
