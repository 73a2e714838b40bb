-- ===== src/Cluster/Dangling.antt =====
-- What `buildTree` does at a root with several children.
use mini2_anu_asim.Prelude.{
  ℕ, ◌≡◌, ◌≢◌, refl, String, str_eq, eq_iff, Bool, true, false, List, ◌∷◌, err, dangling_reference,
  arith,
}
use mini2_anu_asim.Prelude.Dict.{get, set}
use mini2_anu_asim.Node.Tree.{Graph, neighbours}
use mini2_anu_asim.Cluster.{discovered, discover, explore, grow_tree, build_tree}

differ : (a b : String) → a ≢ b → str_eq a b ≡ false
differ a b h = ground (arith, eq_iff a b)

-- Where the second `push_back` moves what the vector holds, `buildTree` reads a reference that dangles
-- in every graph whose first two neighbours of the root are two nodes other than the root: the
-- reference to the root, at its second child.
pub branching_root_dangles :
    (moves : ℕ → Bool) (adj : Graph) (root a b : String) (more : List String)
    → moves 1 ≡ true
    → root ≢ ""
    → neighbours adj root ≡ a ∷ b ∷ more
    → root ≢ a
    → root ≢ b
    → a ≢ b
    → build_tree moves adj root ≡ err dangling_reference
unfolding build_tree grow_tree explore discover discovered get set
branching_root_dangles moves adj root a b more moved named edges ra rb ab =
    rw
      (
        differ root "" named,
        edges,
        build_tree,
        grow_tree,
        explore,
        discover,
        get,
        differ root a ra,
        differ root b rb,
        differ a b ab,
        moved,
      )
      refl
