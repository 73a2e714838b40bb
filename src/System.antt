-- ===== src/System.antt =====
-- scripts/make_shards.py and src/python_server/server.py together: the nodes of a tree serve the
-- shards that `main` wrote, and the client's decoder reads what a call at the root returns.
pub mod Bodies
pub mod Complete
pub mod Started
pub mod Paging
pub mod Deployed
pub mod Listed
use mini2_anu_asim.Prelude.{ℕ, String, List, [], ◌∷◌, ◌++◌}
use mini2_anu_asim.Node.Cluster.{Tree, Forest, node, unreachable, nil, cons}

-- The nodes of a tree, from the root down, each with the payload that it serves.
unfoldable mutual
  pub members : Tree → List (String × List ℕ)
  members (node id payload kids) = (id, payload) ∷ members_of kids
  members (unreachable id details) = []

  pub members_of : Forest → List (String × List ℕ)
  members_of nil = []
  members_of (cons t kids) = members t ++ members_of kids

-- The payloads of some nodes behind each other.
abbrev pub served : List (String × List ℕ) → List ℕ
served [] = []
served ((id, payload) ∷ rest) = payload ++ served rest
