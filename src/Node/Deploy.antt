-- ===== src/Node/Deploy.antt =====
-- The nodes that a table of children starts: each node's stubs lead to the nodes that the table lists
-- for it, and these nodes have stubs of their own.
pub mod Plant
pub mod Derived
pub mod Explicit
use mini2_anu_asim.Prelude.{ℕ, ◌+◌, ◌≡◌, String, str_eq, List, [], ◌∷◌, if◌then◌else◌}
use mini2_anu_asim.Node.Cluster.{Tree, Forest, node, unreachable, nil, cons, tree_id}

abbrev pub ids : Forest → List String
ids nil = []
ids (cons t rest) = tree_id t ∷ ids rest

-- Every node runs, serves its payload, and has stubs for the children that the table lists, in order.
unfoldable mutual
  pub IsDeployed : (String → List ℕ) → (String → List String) → Tree → Type 0
  IsDeployed pay children (node id payload below) =
      (ids below ≡ children id) × (payload ≡ pay id) × AreDeployed pay children below
  IsDeployed pay children (unreachable id details) = ⊥

  pub AreDeployed : (String → List ℕ) → (String → List String) → Forest → Type 0
  AreDeployed pay children nil = Unit
  AreDeployed pay children (cons t rest) = IsDeployed pay children t × AreDeployed pay children rest

-- How many nodes of a tree have a name.
unfoldable mutual
  pub times : String → Tree → ℕ
  times v (node id payload below) = (if str_eq id v then 1 else 0) + times_in v below
  times v (unreachable id details) = 0

  pub times_in : String → Forest → ℕ
  times_in v nil = 0
  times_in v (cons t rest) = times v t + times_in v rest
