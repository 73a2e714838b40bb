-- ===== src/Node/Cluster.antt =====
-- A tree of team nodes: each node's stubs call the `Fetch` of its children, as the servers that
-- `serve` starts do. A child may be out of reach, and then the call of its stub raises.
pub mod Gathered
pub mod Marks
use mini2_anu_asim.Prelude.{ℕ, zero, suc, ◌+◌, String, Bool, true, false, List, [], ◌∷◌, ◌++◌}
use mini2_anu_asim.Prelude.Int.{pos}
use mini2_anu_asim.Node.Servicer.{
  Query, Segment, Answer, replied, rpc_error, Stub, Servicer, Outcome, reply, abort, fetch,
}

mutual
  pub data Tree : Type 0 where
    node : String → List ℕ → Forest → Tree
    unreachable : String → String → Tree

  pub data Forest : Type 0 where
    nil : Forest
    cons : Tree → Forest → Forest

abbrev pub tree_id : Tree → String
tree_id (node id payload kids) = id
tree_id (unreachable id details) = id

-- How the client of a stub sees the end of the call.
unfoldable pub answer_of : Outcome → Answer
answer_of (reply segments) = replied segments
answer_of (abort code details) = rpc_error details

-- A fresh servicer over its stubs.
abbrev pub servicer_of : String → List ℕ → List Stub → Servicer
servicer_of id payload stubs = record {
  node_id = id;
  base = pos 0;
  child_stubs = stubs;
  req_count = 0;
  total_ns = 0;
  payload = payload;
}

-- The call of a node from its parent, where no call is cancelled on the way.
unfoldable mutual
  unfolding answer_of

  pub call : Tree → Query → Answer
  call (node id payload kids) q =
      answer_of (fetch (λ _. true) 0 q (servicer_of id payload (stubs_of kids))).0
  call (unreachable id details) q = rpc_error details

  pub stubs_of : Forest → List Stub
  stubs_of nil = []
  stubs_of (cons t kids) = record { id = tree_id t; fetch = λ q. call t q } ∷ stubs_of kids
