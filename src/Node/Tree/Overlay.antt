-- ===== src/Node/Tree/Overlay.antt =====
-- `_build_children` from the overlay: the neighbours that the edges give, and the three ways to end.
use mini2_anu_asim.Prelude.{
  ◌≡◌, refl, ap, ◌∙◌, String, str_eq, eq_iff, Bool, true, false, ◌&&◌, ◌||◌, none, List, [], ◌∷◌,
  ◌++◌, arith, ok, err, Exc, value_error, stop_iteration, inl, inr, Result-cases, Bool-cases, All,
}
use mini2_anu_asim.Prelude.Dict.{Dict, get, contains, get-set, contains-append, contains-singleton}
use mini2_anu_asim.Node.Config.{Config, Role, or_default}
use mini2_anu_asim.Node.Tree.{
  Graph, neighbours, add_neighbour, add_edges, find_leader, is_leader, build_children,
}
use mini2_anu_asim.Node.Tree.Correct.{IsSpanningTree, derive_tree_spans}

-- Whether an edge of the overlay joins `u` to `v`, in one direction or the other.
unfoldable pub joins : String → String → List (List String) → Bool
joins u v [] = false
joins u v ((a ∷ b ∷ []) ∷ edges) =
    (str_eq a u && str_eq b v || str_eq b u && str_eq a v) || joins u v edges
joins u v (_ ∷ edges) = joins u v edges

neighbours-add_neighbour :
    (a b u v : String) (adj : Graph)
    → contains v (neighbours (add_neighbour a b adj) u)
      ≡ contains v (neighbours adj u) || (str_eq a u && str_eq b v)
unfolding add_neighbour
neighbours-add_neighbour a b u v adj = elim (Bool-cases (str_eq a u)) [
  | inl e ↦
      let same : a ≡ u = ground (arith, eq_iff a u) in
      let at_u : contains v (neighbours adj a) ≡ contains v (neighbours adj u) =
        ap (λ w. contains v (neighbours adj w)) same in
      let l = neighbours adj a ++ b ∷ [] in
      rw (get-set a u l adj, e)
        (contains-append v (neighbours adj a) (b ∷ [])
          ∙ ground (arith, at_u, contains-singleton v b))
  | inr e ↦ rw (get-set a u (neighbours adj a ++ b ∷ []) adj, e) (ground arith)
]

neighbours-add_edges :
    (edges : List (List String)) (adj adj' : Graph) (u v : String)
    → add_edges edges adj ≡ ok adj'
    → contains v (neighbours adj' u) ≡ contains v (neighbours adj u) || joins u v edges
unfolding add_edges joins
neighbours-add_edges [] adj adj' u v h = ground arith
neighbours-add_edges ([] ∷ edges) adj adj' u v h = absurd (cc)
neighbours-add_edges ((a ∷ []) ∷ edges) adj adj' u v h = absurd (cc)
neighbours-add_edges ((a ∷ b ∷ []) ∷ edges) adj adj' u v h = ground (
  arith,
  neighbours-add_edges edges (add_neighbour b a (add_neighbour a b adj)) adj' u v h,
  neighbours-add_neighbour b a u v (add_neighbour a b adj),
  neighbours-add_neighbour a b u v adj,
)
neighbours-add_edges ((a ∷ b ∷ c ∷ d) ∷ edges) adj adj' u v h = absurd (cc)

-- Every edge has two ends.
unfoldable pub two_ended : List (List String) → Bool
two_ended [] = true
two_ended ((a ∷ b ∷ []) ∷ edges) = two_ended edges
two_ended (_ ∷ edges) = false

-- No role is a leader's.
abbrev pub Leaderless : Dict Role → Type 0
Leaderless = All (λ entry. is_leader entry.1 ≡ false)

-- The three ways for `_build_children` to end on a configuration without an explicit tree.
pub data Derived (cfg : Config) : Type 0 where
  -- An edge does not have two ends.
  bad_edge :
      two_ended (or_default [] cfg.overlay) ≡ false
      → build_children cfg ≡ err value_error
      → Derived cfg
  -- No role is the leader's.
  no_leader :
      Leaderless (or_default [] cfg.roles) → build_children cfg ≡ err stop_iteration → Derived cfg
  spans :
      (adj : Graph) (leader : String) (tree : Graph)
      → ((u v : String) → contains v (neighbours adj u) ≡ joins u v (or_default [] cfg.overlay))
      → find_leader (or_default [] cfg.roles) ≡ ok leader
      → build_children cfg ≡ ok tree
      → IsSpanningTree adj leader tree
      → Derived cfg

pub add_edges_error :
    (edges : List (List String)) (adj : Graph) (e : Exc)
    → add_edges edges adj ≡ err e
    → (e ≡ value_error) × (two_ended edges ≡ false)
unfolding add_edges two_ended
add_edges_error [] adj e h = absurd (cc)
add_edges_error ([] ∷ edges) adj e h = (cc, refl)
add_edges_error ((a ∷ []) ∷ edges) adj e h = (cc, refl)
add_edges_error ((a ∷ b ∷ []) ∷ edges) adj e h =
    add_edges_error edges (add_neighbour b a (add_neighbour a b adj)) e h
add_edges_error ((a ∷ b ∷ c ∷ d) ∷ edges) adj e h = (cc, refl)

find_leader_error :
    (roles : Dict Role) (e : Exc)
    → find_leader roles ≡ err e
    → (e ≡ stop_iteration) × Leaderless roles
unfolding find_leader
find_leader_error [] e h = (cc, tt)
find_leader_error ((k, v) ∷ roles) e h = elim (Bool-cases (is_leader v)) [
  | inl p ↦ absurd (ground arith)
  | inr p ↦
      let (same, rest) = find_leader_error roles e (rw (p, find_leader) at h) in (same, (p, rest))
]

-- On a configuration without an explicit tree `_build_children` raises `ValueError` or
-- `StopIteration`, or it returns a spanning tree of what the edges of the overlay, taken in both
-- directions, join to the leader that the roles name.
pub build_children_derives : (cfg : Config) → cfg.children ≡ none → Derived cfg
unfolding contains get
build_children_derives cfg h = elim (Result-cases (add_edges (or_default [] cfg.overlay) [])) [
  | inl (e, p) ↦
      let (k, bad) = add_edges_error (or_default [] cfg.overlay) [] e p in
      bad_edge bad (unfold build_children in rw (h, p) (ap err k))
  | inr (adj, p) ↦ elim (Result-cases (find_leader (or_default [] cfg.roles))) [
    | inl (e, r) ↦
        let (k, none_leads) = find_leader_error (or_default [] cfg.roles) e r in
        no_leader none_leads (unfold build_children in rw (h, p, r) (ap err k))
    | inr (leader, r) ↦
        let (tree, built, is_tree) = derive_tree_spans adj leader in
        spans adj leader tree (λ u v. neighbours-add_edges (or_default [] cfg.overlay) [] adj u v p)
          r (unfold build_children in rw (h, p, r) built) is_tree
  ]
]
