-- ===== src/Node/Cluster/Marks.antt =====
-- How many segments of a reply carry the mark `last`: each node marks the end of its own reply.
use mini2_anu_asim.Prelude.{
  ℕ, ◌+◌, ◌≡◌, refl, ap, ◌∙◌, String, List, [], ◌∷◌, ◌++◌, arith, if◌then◌else◌, flatten, inl, inr,
}
use mini2_anu_asim.Node.Servicer.{Query, Segment, replied}
use mini2_anu_asim.Node.Cluster.{Tree, Forest, node, unreachable, nil, cons, call}
use mini2_anu_asim.Node.Cluster.Gathered.{is_nil, preorder, preorders, call_all_or_nothing}

-- The marked segments.
unfoldable pub marks : List Segment → ℕ
marks [] = 0
marks (s ∷ rest) = (if s.last then 1 else 0) + marks rest

marks-append : (xs ys : List Segment) → marks (xs ++ ys) ≡ marks xs + marks ys
unfolding marks
marks-append [] ys = omega arith
marks-append (x ∷ xs) ys = omega (arith, marks-append xs ys)

-- The nodes without children.
unfoldable mutual
  pub leaves : Tree → ℕ
  leaves (node id payload kids) = if is_nil kids then 1 else leaves_of kids
  leaves (unreachable id details) = 0

  pub leaves_of : Forest → ℕ
  leaves_of nil = 0
  leaves_of (cons t kids) = leaves t + leaves_of kids

root_marks :
    (id : String) (payload : List ℕ) (kids : Forest)
    → marks (flatten (preorders kids)) ≡ leaves_of kids
    → marks (preorder (node id payload kids)) ≡ leaves (node id payload kids)
unfolding marks preorder leaves
root_marks id payload nil h = refl
root_marks id payload (cons t kids) h = omega (arith, h)

mutual
  unfolding preorder leaves marks

  tree_marks : (t : Tree) → marks (preorder t) ≡ leaves t
  tree_marks (node id payload kids) = root_marks id payload kids (forest_marks kids)
  tree_marks (unreachable id details) = refl

  forest_marks : (kids : Forest) → marks (flatten (preorders kids)) ≡ leaves_of kids
  forest_marks nil = refl
  forest_marks (cons t kids) =
      omega (
        arith,
        marks-append (preorder t) (flatten (preorders kids)),
        tree_marks t,
        forest_marks kids,
      )

-- In a reply from the root of a tree, the mark `last` stands on as many segments as the tree has
-- leaves.
pub marks_of_reply :
    (t : Tree) (q : Query) (segments : List Segment)
    → call t q ≡ replied segments
    → marks segments ≡ leaves t
marks_of_reply t q segments h = elim (call_all_or_nothing t q) [
  | inl (up, e) ↦ let same : segments ≡ preorder t = cc in ap marks same ∙ tree_marks t
  | inr (down, details, e) ↦ absurd (cc)
]
