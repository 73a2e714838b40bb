-- ===== src/Team.antt =====
-- `TeamServiceImpl` of src/team_node/team_node.cpp: `Fetch`, and in Team/Payload its
-- `loadShardPayload`. The worker threads of a call are all joined before their results are looked at;
-- `gone k` is what `IsCancelled` answers to the worker of the child number `k`.
pub mod Agrees
pub mod Mixed
pub mod Payload
use mini2_anu_asim.Prelude.{
  ℕ, suc, ◌+◌, String, ◌<>◌, Bool, true, false, Option, none, some, List, [], ◌∷◌, ◌++◌,
}
use mini2_anu_asim.Node.Servicer.{
  Query, Segment, internal, Answer, replied, rpc_error, Stub, Outcome, reply, abort, mark_last,
  own_segment,
}

pub record TeamService : Type 0 where
  pub payload : List ℕ
  pub child_stubs : List Stub
  pub req_count : ℕ
  pub total_ns : ℕ

-- What a worker leaves in `child_errors[i]` and `child_replies[i]`: nothing if the call has been
-- cancelled.
abbrev pub worker_error : Bool → String → Answer → Option String
worker_error true id answer = none
worker_error false id (replied segments) = none
worker_error false id (rpc_error details) = some (id <> ": " <> details)

abbrev pub worker_reply : Bool → Answer → List Segment
worker_reply true answer = []
worker_reply false (replied segments) = segments
worker_reply false (rpc_error details) = []

-- The loop over the errors: the first that is not empty.
unfoldable pub first_worker_error : (ℕ → Bool) → Query → ℕ → List Stub → Option String
first_worker_error gone q k [] = none
first_worker_error gone q k (stub ∷ stubs) = elim (worker_error (gone k) stub.id (stub.fetch q)) [
  | some message ↦ some message
  | none ↦ first_worker_error gone q (suc k) stubs
]

-- The loop over the replies.
unfoldable pub worker_segments : (ℕ → Bool) → Query → ℕ → List Stub → List Segment
worker_segments gone q k [] = []
worker_segments gone q k (stub ∷ stubs) =
    worker_reply (gone k) (stub.fetch q) ++ worker_segments gone q (suc k) stubs

-- `Fetch`.
unfoldable pub fetch_all : (ℕ → Bool) → ℕ → Query → TeamService → Outcome × TeamService
unfolding first_worker_error worker_segments
fetch_all gone dt q s = elim (first_worker_error gone q 0 s.child_stubs) [
  | some message ↦ (abort internal ("child fetch failed: " <> message), s)
  | none ↦ (
    reply (mark_last (own_segment s.payload ∷ worker_segments gone q 0 s.child_stubs)),
    record s { req_count = s.req_count + 1; total_ns = s.total_ns + dt },
  )
]
