-- ===== src/Node/Servicer.antt =====
-- `TeamServicer`: its state and `Fetch`. The stubs of the children and the answers of
-- `context.is_active()` come from gRPC and are parameters: a stub is a function from a query to a
-- reply or an `RpcError`, and `active k` is the answer before the call of the child number `k`.
pub mod Fetches
use mini2_anu_asim.Prelude.{
  ℕ, zero, suc, ◌+◌, ◌*◌, ◌/◌, String, ◌<>◌, Bool, true, false, Option, none, some, List, [], ◌∷◌,
  ◌++◌, if◌then◌else◌, Result, ok, err, ◌>>=◌, leb,
}
use mini2_anu_asim.Prelude.Int.{ℤ}
use mini2_anu_asim.Prelude.Dict.{Dict, get}
use mini2_anu_asim.Prelude.Floats.{Floats}
use mini2_anu_asim.Node.Config.{Config, Endpoint, node_endpoint, or_default}
use mini2_anu_asim.Node.Tree.{Graph, build_children}
use mini2_anu_asim.Node.Payload.{Files, base_of, init_payload}

-- The messages of proto/cluster.proto.
pub record Query : Type 0 where
  pub client_id : String
  pub request_id : String
  pub chunk_size : ℤ
  pub offset : ℤ

pub record Segment : Type 0 where
  pub payload : List ℕ
  pub last : Bool

pub data Status : Type 0 where
  cancelled internal : Status

-- What a stub's call gives: the segments of a reply, or the details of an `RpcError`.
pub data Answer : Type 0 where
  replied : List Segment → Answer
  rpc_error : String → Answer

pub record Stub : Type 0 where
  pub id : String
  pub fetch : Query → Answer

pub record Servicer : Type 0 where
  pub node_id : String
  pub base : ℤ
  pub child_stubs : List Stub
  pub req_count : ℕ
  pub total_ns : ℕ
  pub payload : List ℕ

-- How a call of `Fetch` ends: a reply, or the exception of `context.abort`.
pub data Outcome : Type 0 where
  reply : List Segment → Outcome
  abort : Status → String → Outcome

-- The loop over the children.
unfoldable pub gather : (ℕ → Bool) → Query → ℕ → List Stub → List Segment → Outcome
gather active q k [] segments = reply segments
gather active q k (stub ∷ stubs) segments = elim (active k) [
  | false ↦ abort cancelled "upstream cancelled"
  | true ↦ elim (stub.fetch q) [
    | rpc_error details ↦ abort internal ("child fetch failed: " <> stub.id <> ": " <> details)
    | replied more ↦ gather active q (suc k) stubs (segments ++ more)
  ]
]

-- `segments[-1] = Segment(payload=last.payload, last=True)`, if there is a segment.
unfoldable pub mark_last : List Segment → List Segment
mark_last [] = []
mark_last (s ∷ []) = record s { last = true } ∷ []
mark_last (s ∷ t ∷ rest) = s ∷ mark_last (t ∷ rest)

abbrev pub own_segment : List ℕ → Segment
own_segment payload = record { payload = payload; last = false }

-- The counters change only behind a complete reply; `dt` is the time that the call took.
unfoldable pub finish_fetch : ℕ → Servicer → Outcome → Outcome × Servicer
unfolding mark_last
finish_fetch dt s (abort code details) = (abort code details, s)
finish_fetch dt s (reply segments) = (
  reply (mark_last segments),
  record s { req_count = s.req_count + 1; total_ns = s.total_ns + dt },
)

-- `Fetch`.
unfoldable pub fetch : (ℕ → Bool) → ℕ → Query → Servicer → Outcome × Servicer
unfolding gather finish_fetch
fetch active dt q s =
    finish_fetch dt s (gather active q 0 s.child_stubs (own_segment s.payload ∷ []))

-- The stubs of `__init__`, one for each child, over the gRPC library's way to make one.
unfoldable pub connect : (String → Endpoint → Stub) → Config → List String → Result (List Stub)
connect channel cfg [] = ok []
connect channel cfg (child ∷ children) = do
  endpoint ← node_endpoint child cfg
  rest ← connect channel cfg children
  ok (channel child endpoint ∷ rest)

-- `__init__`.
unfoldable pub init :
    Floats → Files → Option String → (String → Endpoint → Stub) → String → Config → Result Servicer
unfolding connect
init fl fs env channel node cfg = do
  base ← base_of node
  tree ← build_children cfg
  stubs ← connect channel cfg (or_default [] (get node tree))
  payload ← init_payload fl fs env node
  ok (record {
    node_id = node;
    base = base;
    child_stubs = stubs;
    req_count = 0;
    total_ns = 0;
    payload = payload;
  })

-- The average that `serve` prints when it stops, in microseconds.
unfoldable pub average_us : Servicer → ℕ
average_us s = s.total_ns / (if leb s.req_count 1 then 1 else s.req_count) / 1000
