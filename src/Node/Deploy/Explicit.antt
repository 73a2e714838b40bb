-- ===== src/Node/Deploy/Explicit.antt =====
-- The nodes that an explicit table of children starts: a table without a cycle starts one tree.
use mini2_anu_asim.Prelude.{
  Bool-cases, inl, inr, subst, ℕ, zero, suc, ◌≤◌, ◌<◌, ◌≡◌, refl, ap, sym, ◌∙◌, String, true, List,
  [], ◌∷◌, arith, str_eq, eq_iff, All, map, flatten,
}
use mini2_anu_asim.Prelude.Dict.{contains, get}
use mini2_anu_asim.Node.Config.{or_default}
use mini2_anu_asim.Node.Tree.{Graph}
use mini2_anu_asim.Node.Cluster.{Tree, Forest, node, unreachable, nil, cons, tree_id}
use mini2_anu_asim.Node.Deploy.{ids, IsDeployed, AreDeployed}

-- Each child stands on a lower level than its parent, so the table has no cycle.
abbrev pub IsLevelled : (String → List String) → (String → ℕ) → Type 0
IsLevelled children level = (p c : String) → contains c (children p) ≡ true → level c < level p

module _ (pay : String → List ℕ) (children : String → List String) where
  -- Two trees of a table have the same nodes if they have the same root.
  mutual
    unfolding IsDeployed

    pub IsDeployed-unique :
        (s t : Tree)
        → IsDeployed pay children s
        → IsDeployed pay children t
        → tree_id s ≡ tree_id t
        → s ≡ t
    IsDeployed-unique (node i p below) (node j q under) d e h =
        let same : ids below ≡ ids under = d.0 ∙ ap children h ∙ sym e.0 in
        let payload : p ≡ q = d.1 ∙ ap pay h ∙ sym e.1 in
        rw (← h, ← payload, ← AreDeployed-unique below under d.2 e.2 same) refl
    IsDeployed-unique (unreachable i m) t d e h = absurd d
    IsDeployed-unique (node i p below) (unreachable j m) d e h = absurd e

    AreDeployed-unique :
        (below under : Forest)
        → AreDeployed pay children below
        → AreDeployed pay children under
        → ids below ≡ ids under
        → below ≡ under
    AreDeployed-unique nil nil d e h = refl
    AreDeployed-unique nil (cons t rest) d e h = absurd cc
    AreDeployed-unique (cons s rest) nil d e h = absurd cc
    AreDeployed-unique (cons s rest) (cons t more) d e h =
        let first : tree_id s ≡ tree_id t = cc in
        let others : ids rest ≡ ids more = cc in
        rw (IsDeployed-unique s t d.0 e.0 first, AreDeployed-unique rest more d.1 e.1 others) refl

  -- The trees of some nodes.
  abbrev pub forest_by : (String → Tree) → List String → Forest
  forest_by f [] = nil
  forest_by f (c ∷ cs) = cons (f c) (forest_by f cs)

  -- The tree below a node, to so many levels.
  abbrev pub tree_of : ℕ → String → Tree
  tree_of zero id = node id (pay id) nil
  tree_of (suc n) id = node id (pay id) (forest_by (tree_of n) (children id))

  ids-forest_by :
      (f : String → Tree) (cs : List String)
      → ((c : String) → tree_id (f c) ≡ c)
      → ids (forest_by f cs) ≡ cs
  ids-forest_by f [] h = refl
  ids-forest_by f (c ∷ cs) h = rw (h c, ids-forest_by f cs h) refl

  AreDeployed-forest_by :
      (f : String → Tree) (cs : List String)
      → ((c : String) → contains c cs ≡ true → IsDeployed pay children (f c))
      → AreDeployed pay children (forest_by f cs)
  unfolding contains IsDeployed
  AreDeployed-forest_by f [] h = tt
  AreDeployed-forest_by f (c ∷ cs) h =
      (h c (ground (arith, eq_iff c c)), AreDeployed-forest_by f cs (λ d k. h d (ground arith)))

  pub tree_id-tree_of : (n : ℕ) (id : String) → tree_id (tree_of n id) ≡ id
  tree_id-tree_of zero id = refl
  tree_id-tree_of (suc n) id = refl

  childless_level :
      (level : String → ℕ) (id : String) (cs : List String)
      → level id ≤ 0
      → ((c : String) → contains c cs ≡ true → level c < level id)
      → cs ≡ []
  unfolding contains
  childless_level level id [] h k = refl
  childless_level level id (c ∷ cs) h k =
      let lower = k c (ground (arith, eq_iff c c)) in absurd (omega (arith, h, lower))

  -- A table without a cycle starts a tree below every node.
  pub IsDeployed-tree_of :
      (level : String → ℕ) (n : ℕ) (id : String)
      → IsLevelled children level
      → level id ≤ n
      → IsDeployed pay children (tree_of n id)
  unfolding IsDeployed
  IsDeployed-tree_of level zero id levelled h =
      (sym (childless_level level id (children id) h (levelled id)), refl, tt)
  IsDeployed-tree_of level (suc n) id levelled h = (
    ids-forest_by (tree_of n) (children id) (tree_id-tree_of n),
    refl,
    AreDeployed-forest_by (tree_of n) (children id) (λ c k.
        IsDeployed-tree_of level n c levelled
          (let lower = levelled id c k in omega (arith, h, lower))),
  )

-- The nodes of a table from one on, to so many levels: each before the nodes below it.
abbrev pub listing : (String → List String) → ℕ → String → List String
listing children zero id = id ∷ []
listing children (suc n) id = id ∷ flatten (map (listing children n) (children id))

-- The same without the first, which is the leader.
abbrev pub listing_below : (String → List String) → ℕ → String → List String
listing_below children zero id = []
listing_below children (suc n) id = flatten (map (listing children n) (children id))

All-contained {ℓ} :
    (P : String → Type ℓ) (cs : List String) → All P cs → (c : String) → contains c cs ≡ true → P c
unfolding contains
All-contained P [] all c h = absurd cc
All-contained P (d ∷ cs) all c h = elim (Bool-cases (str_eq d c)) [
  | inl e ↦ subst P ((eq_iff d c).0 e) all.0
  | inr e ↦ All-contained P cs all.1 c (ground arith)
]

-- To see that a table has no cycle, it is enough to go through its entries.
pub IsLevelled-entries :
    (level : String → ℕ) (table : Graph)
    → All (λ entry. All (λ c. level c < level entry.0) entry.1) table
    → IsLevelled (λ p. or_default [] (get p table)) level
unfolding contains get
IsLevelled-entries level [] all p c h = absurd cc
IsLevelled-entries level ((k, cs) ∷ table) all p c h = elim (Bool-cases (str_eq k p)) [
  | inl e ↦
      let same : k ≡ p = (eq_iff k p).0 e in
      subst (λ q. level c < level q) same
        (All-contained (λ d. level d < level k) cs all.0 c (rw e at h))
  | inr e ↦ IsLevelled-entries level table all.1 p c (rw e at h)
]
