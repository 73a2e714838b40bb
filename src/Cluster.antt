-- ===== src/Cluster.antt =====
-- `ClusterConfig` of src/common/config.hpp, as far as the tree goes: the overlay, the root, the
-- explicit children or `buildTree`, and `getChildren`. `as<std::string>()` throws where the file has
-- no text, and `load` then returns false, which is an error here. The first key of `nodes_`, which is
-- the root if no role is the leader's, is an argument; Cluster/Nodes has the rest of this table.
pub mod Same
pub mod Agrees
pub mod Dangling
pub mod Nodes
use mini2_anu_asim.Prelude.{
  ℕ, zero, suc, String, str_eq, Bool, true, false, Option, none, some, List, [], ◌∷◌, ◌++◌,
  if◌then◌else◌, Result, ok, err, value_error, out_of_fuel, dangling_reference, ◌>>=◌,
}
use mini2_anu_asim.Prelude.Dict.{Dict, get, set}
use mini2_anu_asim.Node.Config.{Config, Role, mapping, other, or_default}
use mini2_anu_asim.Node.Tree.{Graph, neighbours, rounds}

-- `m[key].push_back(x)`.
unfoldable pub push : String → String → Graph → Graph
push key x m = set key (or_default [] (get key m) ++ x ∷ []) m

-- The loop over the overlay; what an edge has behind its two ends is not looked at.
unfoldable pub join_edges : List (List String) → Graph → Result Graph
unfolding push
join_edges [] adj = ok adj
join_edges ((a ∷ b ∷ _) ∷ edges) adj = join_edges edges (push b a (push a b adj))
join_edges ((a ∷ []) ∷ edges) adj = err value_error
join_edges ([] ∷ edges) adj = err value_error

-- The loop over the roles.
unfoldable pub find_root : Dict Role → Result (Option String)
find_root [] = ok none
find_root ((nid, mapping (some role)) ∷ roles) =
    let rest = find_root roles in if str_eq role "leader" then ok (some nid) else rest
find_root ((nid, mapping none) ∷ roles) = err value_error
find_root ((nid, other) ∷ roles) = err value_error

-- `root_` behind the two steps: an empty one is replaced by the first node.
unfoldable pub root_of : Option String → Option String → String
root_of first found =
    let root = or_default "" found in if str_eq root "" then or_default "" first else root

-- `visited`, `children_`, the part of `q` from `i` on, the size of `q`, and whether the reference `cur`
-- into `q` dangles.
pub record TreeSearch : Type 0 where
  pub visited : Dict Bool
  pub children : Graph
  pub pending : List String
  pub size : ℕ
  pub dangles : Bool

abbrev pub is_visited : String → TreeSearch → Bool
is_visited v s = or_default false (get v s.visited)

-- `moves n` says whether `push_back` on a vector of size `n` moves its elements, which leaves the
-- references to them dangling. The C++ library decides it.
module _ (moves : ℕ → Bool) where
  -- What the body of the inner loop does at a node that was not visited, while `cur` can be read.
  unfoldable pub discovered : String → TreeSearch → String → TreeSearch
  unfolding push
  discovered cur s nb = record {
    visited = set nb true s.visited;
    children = push cur nb s.children;
    pending = s.pending ++ nb ∷ [];
    size = suc s.size;
    dangles = moves s.size;
  }

  -- The body of the inner loop of `buildTree`; `children_[cur]` reads the reference.
  unfoldable pub discover : String → TreeSearch → String → Result TreeSearch
  unfolding discovered
  discover cur s nb =
      if is_visited nb s
      then ok s
      else if s.dangles
      then err dangling_reference
      else ok (discovered cur s nb)

  unfoldable pub explore : String → List String → TreeSearch → Result TreeSearch
  unfolding discover
  explore cur [] s = ok s
  explore cur (nb ∷ nbs) s = do s' ← discover cur s nb; explore cur nbs s'

  -- `cur = q[i]`, a new reference.
  abbrev pub next_cur : List String → TreeSearch → TreeSearch
  next_cur rest s = record s { pending = rest; dangles = false }

  -- The outer loop, which goes on over what is pushed into `q`.
  unfoldable pub grow_tree : ℕ → Graph → TreeSearch → Result Graph
  unfolding explore
  grow_tree zero adj s = elim s.pending [ [] ↦ ok s.children | _ ∷ _ ↦ err out_of_fuel ]
  grow_tree (suc fuel) adj s = elim s.pending [
    | [] ↦ ok s.children
    | cur ∷ rest ↦ explore cur (neighbours adj cur) (next_cur rest s) >>= grow_tree fuel adj
  ]

  abbrev pub tree_start : String → TreeSearch
  tree_start root = record {
    visited = (root, true) ∷ [];
    children = [];
    pending = root ∷ [];
    size = 1;
    dangles = false;
  }

  -- `buildTree`.
  unfoldable pub build_tree : Graph → String → Result Graph
  unfolding grow_tree
  build_tree adj root = elim (str_eq root "") [
    | true ↦ ok []
    | false ↦ grow_tree (rounds adj) adj (tree_start root)
  ]

-- The loops over `children`.
unfoldable pub push_all : String → List String → Graph → Graph
unfolding push
push_all parent [] tree = tree
push_all parent (c ∷ cs) tree = push_all parent cs (push parent c tree)

unfoldable pub listed_children : Dict (Option (List String)) → Graph → Graph
unfolding push_all
listed_children [] tree = tree
listed_children ((parent, cs) ∷ rest) tree =
    listed_children rest (push_all parent (or_default [] cs) tree)

-- `load` from the overlay on: what it leaves in `children_`.
unfoldable pub load_tree : (ℕ → Bool) → Option String → Config → Result Graph
unfolding join_edges find_root root_of build_tree listed_children
load_tree moves first cfg = do
  adj ← join_edges (or_default [] cfg.overlay) []
  found ← find_root (or_default [] cfg.roles)
  elim cfg.children [
    | some explicit ↦ ok (listed_children explicit [])
    | none ↦ build_tree moves adj (root_of first found)
  ]

-- `getChildren(id)`.
abbrev pub get_children : String → Graph → List String
get_children id tree = or_default [] (get id tree)
