-- ===== src/System/Deployed/Nodes.antt =====
-- The nodes that start along a table: their names, and what they serve.
use mini2_anu_asim.Prelude.{
  ℕ, ◌≡◌, refl, sym, ap, subst, ◌∙◌, String, true, List, [], ◌∷◌, ◌++◌, map, arith, All-append, All,
}
use mini2_anu_asim.Prelude.Items.{occurrences, occurrences-append}
use mini2_anu_asim.Node.Cluster.{Tree, Forest, node, unreachable, nil, cons}
use mini2_anu_asim.Node.Cluster.Gathered.{is_up, are_up}
use mini2_anu_asim.Node.Deploy.{IsDeployed, AreDeployed, times, times_in}
use mini2_anu_asim.System.{members, members_of}

-- The names of some nodes.
abbrev pub names : Forest → List String
names below = map (λ n. n.0) (members_of below)

pub map-append-names :
    (xs ys : List (String × List ℕ))
    → map (λ n. n.0) (xs ++ ys) ≡ map (λ n. n.0) xs ++ map (λ n. n.0) ys
map-append-names [] ys = refl
map-append-names (x ∷ xs) ys = ap (λ l. x.0 ∷ l) (map-append-names xs ys)

mutual
  unfolding members times

  occurrences-members :
      (v : String) (t : Tree) → occurrences v (map (λ n. n.0) (members t)) ≡ times v t
  occurrences-members v (node id payload below) = omega (arith, occurrences-names v below)
  occurrences-members v (unreachable id details) = refl

  pub occurrences-names :
      (v : String) (below : Forest) → occurrences v (names below) ≡ times_in v below
  occurrences-names v nil = refl
  occurrences-names v (cons t rest) =
      ap (occurrences v) (map-append-names (members t) (members_of rest))
      ∙ occurrences-append v (map (λ n. n.0) (members t)) (names rest)
      ∙ omega (arith, occurrences-members v t, occurrences-names v rest)

module _ (pay : String → List ℕ) (children : String → List String) where
  mutual
    unfolding IsDeployed is_up

    IsDeployed-is_up : (t : Tree) → IsDeployed pay children t → is_up t ≡ true
    IsDeployed-is_up (node id payload below) d = AreDeployed-are_up below d.2
    IsDeployed-is_up (unreachable id details) d = absurd d

    pub AreDeployed-are_up : (below : Forest) → AreDeployed pay children below → are_up below ≡ true
    AreDeployed-are_up nil d = refl
    AreDeployed-are_up (cons t rest) d = rw (IsDeployed-is_up t d.0) (AreDeployed-are_up rest d.1)

  module _ {ℓ} (P : String × List ℕ → Type ℓ) where
    -- What holds of every name with its payload holds of the nodes.
    pub All-payloads :
        (ns : List (String × List ℕ))
        → All (λ n. n.1 ≡ pay n.0) ns
        → All (λ v. P (v, pay v)) (map (λ n. n.0) ns)
        → All P ns
    All-payloads [] own h = tt
    All-payloads ((id, payload) ∷ ns) own h =
        (subst (λ p. P (id, p)) (sym own.0) h.0, All-payloads ns own.1 h.1)

  mutual
    unfolding IsDeployed members

    members-IsDeployed :
        (t : Tree) → IsDeployed pay children t → All (λ n. n.1 ≡ pay n.0) (members t)
    members-IsDeployed (node id payload below) d = (d.1, members-AreDeployed below d.2)
    members-IsDeployed (unreachable id details) d = absurd d

    pub members-AreDeployed :
        (below : Forest)
        → AreDeployed pay children below
        → All (λ n. n.1 ≡ pay n.0) (members_of below)
    members-AreDeployed nil d = tt
    members-AreDeployed (cons t rest) d =
        All-append (λ n. n.1 ≡ pay n.0) (members t) (members_of rest) (members-IsDeployed t d.0)
          (members-AreDeployed rest d.1)
