-- ===== src/Node/Deploy/Plant.antt =====
-- A tree with one more node below each node of a name.
use mini2_anu_asim.Prelude.{
  ℕ, ◌+◌, ◌≡◌, refl, ap, sym, ◌∙◌, String, str_eq, eq_iff, Bool, true, false, List, [], ◌∷◌, ◌++◌,
  arith, append-nil, if◌then◌else◌,
}
use mini2_anu_asim.Node.Cluster.{Tree, Forest, node, unreachable, nil, cons, tree_id}
use mini2_anu_asim.Node.Deploy.{ids, IsDeployed, AreDeployed, times, times_in}

module _ (pay : String → List ℕ) (p c : String) where
  abbrev leaf : Tree
  leaf = node c (pay c) nil

  unfoldable pub hang : Bool → Forest → Forest
  hang false below = below
  hang true nil = cons leaf nil
  hang true (cons t rest) = cons t (hang true rest)

  unfoldable mutual
    pub plant : Tree → Tree
    plant (node id payload below) = node id payload (hang (str_eq p id) (plant_all below))
    plant (unreachable id details) = unreachable id details

    pub plant_all : Forest → Forest
    plant_all nil = nil
    plant_all (cons t rest) = cons (plant t) (plant_all rest)

  -- The nodes below the root of a tree with one more node.
  unfoldable pub plant_below : String → Forest → Forest
  plant_below id below = hang (str_eq p id) (plant_all below)

  tree_id-plant : (t : Tree) → tree_id (plant t) ≡ tree_id t
  unfolding plant
  tree_id-plant (node id payload below) = refl
  tree_id-plant (unreachable id details) = refl

  ids-plant_all : (below : Forest) → ids (plant_all below) ≡ ids below
  unfolding plant_all
  ids-plant_all nil = refl
  ids-plant_all (cons t rest) = λ i. tree_id-plant t i ∷ ids-plant_all rest i

  ids-hang :
      (b : Bool) (below : Forest) → ids (hang b below) ≡ ids below ++ (if b then c ∷ [] else [])
  unfolding hang
  ids-hang false below = sym (append-nil (ids below))
  ids-hang true nil = refl
  ids-hang true (cons t rest) = ap (λ r. tree_id t ∷ r) (ids-hang true rest)

  times_in-hang :
      (v : String) (b : Bool) (below : Forest)
      → times_in v (hang b below)
        ≡ times_in v below + (if b then (if str_eq c v then 1 else 0) else 0)
  unfolding hang times_in
  times_in-hang v false below = omega arith
  times_in-hang v true nil = omega arith
  times_in-hang v true (cons t rest) = omega (arith, times_in-hang v true rest)

  mutual
    unfolding plant times

    pub times-plant :
        (v : String) (t : Tree)
        → times v (plant t) ≡ times v t + (if str_eq c v then times p t else 0)
    times-plant v (node id payload below) = ground (
      arith,
      times_in-hang v (str_eq p id) (plant_all below),
      times_in-plant_all v below,
      eq_iff p id,
      eq_iff id p,
    )
    times-plant v (unreachable id details) = ground arith

    times_in-plant_all :
        (v : String) (below : Forest)
        → times_in v (plant_all below)
          ≡ times_in v below + (if str_eq c v then times_in p below else 0)
    times_in-plant_all v nil = ground arith
    times_in-plant_all v (cons t rest) = ground (arith, times-plant v t, times_in-plant_all v rest)

  module _ (old new : String → List String)
      (more : (q : String) → new q ≡ old q ++ (if str_eq p q then c ∷ [] else []))
      (childless : new c ≡ []) where
    AreDeployed-hang :
        (b : Bool) (below : Forest) → AreDeployed pay new below → AreDeployed pay new (hang b below)
    unfolding hang AreDeployed
    AreDeployed-hang false below d = d
    AreDeployed-hang true nil d = ((sym childless, refl, tt), tt)
    AreDeployed-hang true (cons t rest) d = (d.0, AreDeployed-hang true rest d.1)

    mutual
      unfolding plant IsDeployed

      pub IsDeployed-plant : (t : Tree) → IsDeployed pay old t → IsDeployed pay new (plant t)
      IsDeployed-plant (node id payload below) (same, own, d) = (
        ids-hang (str_eq p id) (plant_all below)
            ∙ ap (λ l. l ++ (if str_eq p id then c ∷ [] else [])) (ids-plant_all below ∙ same)
            ∙ sym (more id),
        own,
        AreDeployed-hang (str_eq p id) (plant_all below) (AreDeployed-plant_all below d),
      )
      IsDeployed-plant (unreachable id details) d = d

      AreDeployed-plant_all :
          (below : Forest) → AreDeployed pay old below → AreDeployed pay new (plant_all below)
      AreDeployed-plant_all nil d = tt
      AreDeployed-plant_all (cons t rest) d =
          (IsDeployed-plant t d.0, AreDeployed-plant_all rest d.1)
