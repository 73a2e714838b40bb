-- ===== src/Node/Tree.antt =====
-- `_build_children`: the explicit tree of the configuration, or a breadth-first tree of the overlay.
pub mod Grow
pub mod Reach
pub mod Links
pub mod Correct
pub mod Overlay
use mini2_anu_asim.Prelude.{
  ℕ, zero, suc, ◌+◌, String, str_eq, Bool, true, false, Option, none, some, List, [], ◌∷◌, ◌++◌,
  map, if◌then◌else◌, Result, ok, err, key_error, value_error, stop_iteration, out_of_fuel,
  or_raise, ◌>>=◌, length, flatten,
}
use mini2_anu_asim.Prelude.Dict.{Dict, get, set, keys, values, contains}
use mini2_anu_asim.Node.Config.{Config, Role, mapping, other, or_default}

-- The neighbours of each node.
abbrev pub Graph : Type 0
Graph = Dict (List String)

-- `adj.get(u, [])`.
abbrev pub neighbours : Graph → String → List String
neighbours adj u = or_default [] (get u adj)

-- `adj.setdefault(a, []).append(b)`.
unfoldable pub add_neighbour : String → String → Graph → Graph
add_neighbour a b adj = set a (neighbours adj a ++ b ∷ []) adj

-- `a, b = edge` raises `ValueError` unless there are two values.
unfoldable pub add_edge : List String → Graph → Result Graph
unfolding add_neighbour
add_edge (a ∷ b ∷ []) adj = ok (add_neighbour b a (add_neighbour a b adj))
add_edge _ adj = err value_error

unfoldable pub add_edges : List (List String) → Graph → Result Graph
unfolding add_edge
add_edges [] adj = ok adj
add_edges (edge ∷ edges) adj = do adj' ← add_edge edge adj; add_edges edges adj'

unfoldable pub is_leader : Role → Bool
is_leader (mapping (some role)) = str_eq role "leader"
is_leader (mapping none) = false
is_leader other = false

-- `next(…)` over the roles.
unfoldable pub find_leader : Dict Role → Result String
unfolding is_leader
find_leader [] = err stop_iteration
find_leader ((k, v) ∷ roles) = if is_leader v then ok k else find_leader roles

-- The nodes found so far with their parents, and the part of the queue still to be visited.
pub record Search : Type 0 where
  pub parent : Dict (Option String)
  pub pending : List String

-- The body of the inner loop.
unfoldable pub offer : String → Search → String → Search
offer cur s nb =
    if contains nb (keys s.parent)
    then s
    else record { parent = set nb (some cur) s.parent; pending = s.pending ++ nb ∷ [] }

-- The inner loop, over the neighbours of `cur`.
unfoldable pub visit : String → List String → Search → Search
unfolding offer
visit cur [] s = s
visit cur (nb ∷ nbs) s = visit cur nbs (offer cur s nb)

-- The outer loop: `for cur in queue` goes on over what is appended to the queue.
unfoldable pub grow : ℕ → Graph → Search → Result (Dict (Option String))
grow zero adj s = elim s.pending [ [] ↦ ok s.parent | _ ∷ _ ↦ err out_of_fuel ]
grow (suc fuel) adj s = elim s.pending [
  | [] ↦ ok s.parent
  | cur ∷ rest ↦ grow fuel adj (visit cur (neighbours adj cur) (record s { pending = rest }))
]

-- Each round visits another node: at most the leader and the ends of all edges.
abbrev pub rounds : Graph → ℕ
rounds adj = suc (length (flatten (values adj)))

unfoldable pub search_start : String → Search
search_start leader = record { parent = (leader, none) ∷ []; pending = leader ∷ [] }

-- `children[par].append(child)`.
unfoldable pub add_child : String → String → Graph → Result Graph
add_child par child tree = do
  siblings ← or_raise key_error (get par tree)
  ok (set par (siblings ++ child ∷ []) tree)

-- The last loop, over `parent.items()`.
unfoldable pub link : Dict (Option String) → Graph → Result Graph
unfolding add_child
link [] tree = ok tree
link ((child, none) ∷ rest) tree = link rest tree
link ((child, some par) ∷ rest) tree = do tree' ← add_child par child tree; link rest tree'

-- `{n: [] for n in parent}`.
abbrev pub childless : List String → Graph
childless [] = []
childless (n ∷ ns) = (n, []) ∷ childless ns

-- `{k: list(v or []) for k, v in cfg["children"].items()}`.
abbrev pub listed : Dict (Option (List String)) → Graph
listed [] = []
listed ((k, v) ∷ rest) = (k, or_default [] v) ∷ listed rest

-- The tree that the overlay gives from a leader.
unfoldable pub derive_tree : Graph → String → Result Graph
unfolding grow search_start visit link
derive_tree adj leader = do
  parent ← grow (rounds adj) adj (search_start leader)
  link parent (childless (keys parent))

-- `_build_children(cfg)`.
unfoldable pub build_children : Config → Result Graph
unfolding add_edges find_leader derive_tree
build_children cfg = elim cfg.children [
  | some explicit ↦ ok (listed explicit)
  | none ↦ do
    adj ← add_edges (or_default [] cfg.overlay) []
    leader ← find_leader (or_default [] cfg.roles)
    derive_tree adj leader
]
