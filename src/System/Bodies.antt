-- ===== src/System/Bodies.antt =====
-- The bytes of a reply are those of the nodes, one behind the other.
use mini2_anu_asim.Prelude.{
  ℕ, zero, suc, ◌≤◌, ◌≡◌, refl, ap, String, List, [], ◌∷◌, ◌++◌, arith, length, take, flatten,
  append_assoc,
}
use mini2_anu_asim.Node.Servicer.{Segment}
use mini2_anu_asim.Node.Cluster.{Tree, Forest, node, unreachable, nil, cons}
use mini2_anu_asim.Node.Cluster.Gathered.{preorder, preorders}
use mini2_anu_asim.Leader.Handler.{body}
use mini2_anu_asim.System.{members, members_of, served}

body-append : (xs ys : List Segment) → body (xs ++ ys) ≡ body xs ++ body ys
body-append [] ys = refl
body-append (s ∷ xs) ys = simp (body-append xs ys, append_assoc)

pub served-append : (xs ys : List (String × List ℕ)) → served (xs ++ ys) ≡ served xs ++ served ys
served-append [] ys = refl
served-append ((id, payload) ∷ xs) ys = simp (served-append xs ys, append_assoc)

mutual
  unfolding preorder members

  pub body-preorder : (t : Tree) → body (preorder t) ≡ served (members t)
  body-preorder (node id payload kids) = ap (λ bs. payload ++ bs) (body-preorders kids)
  body-preorder (unreachable id details) = refl

  body-preorders : (kids : Forest) → body (flatten (preorders kids)) ≡ served (members_of kids)
  body-preorders nil = refl
  body-preorders (cons t kids) =
      rw
        (
          body-append (preorder t) (flatten (preorders kids)),
          served-append (members t) (members_of kids),
          body-preorder t,
          body-preorders kids,
        )
        refl

pub take_all : (n : ℕ) (bs : List ℕ) → length bs ≤ n → take n bs ≡ bs
take_all zero [] h = refl
take_all (suc n) [] h = refl
take_all zero (b ∷ bs) h = absurd (omega arith)
take_all (suc n) (b ∷ bs) h = ap (λ r. b ∷ r) (take_all n bs (omega arith))
