-- ===== src/Node/Deploy/Derived.antt =====
-- The table that `_build_children` derives from an overlay starts a finite tree, in which every node
-- that the overlay joins to the leader stands once.
use native.Mathlib.Nat.{ℕ_set}
use mathlib.Core.Logic.{∥∥₁_elim}
use mini2_anu_asim.Prelude.{
  ℕ, ◌≤◌, ◌≡◌, refl, sym, subst, ◌∙◌, String, str_eq, eq_iff, true, false, some, List, [], ◌∷◌,
  ◌++◌, arith, ok, if◌then◌else◌, inl, inr, ◌↔◌, Bool-cases,
}
use mini2_anu_asim.Prelude.Dict.{get, set, keys, contains, get-set, is_some, contains-keys}
use mini2_anu_asim.Node.Config.{or_default}
use mini2_anu_asim.Node.Tree.{
  Graph, neighbours, Search, offer, visit, search_start, rounds, derive_tree,
}
use mini2_anu_asim.Node.Tree.Grow.{known, get-offer}
use mini2_anu_asim.Node.Tree.Reach.{Reach, search_rule}
use mini2_anu_asim.Node.Tree.Links.{Parents, kids, kids-set}
use mini2_anu_asim.Node.Tree.Correct.{derive_tree_lem}
use mini2_anu_asim.Node.Cluster.{Tree, Forest, node, nil}
use mini2_anu_asim.Node.Deploy.{IsDeployed, times}
use mini2_anu_asim.Node.Deploy.Plant.{plant, plant_below, times-plant, IsDeployed-plant}

module _ (pay : String → List ℕ) (adj : Graph) (leader : String) where
  abbrev rooted : Forest → Tree
  rooted below = node leader (pay leader) below

  -- A tree of the nodes that the search has found, each below its parent.
  record Planted (s : Search) (below : Forest) : Type 0 where
    deployed : IsDeployed pay (λ q. kids q s.parent) (rooted below)
    once : (v : String) → times v (rooted below) ≡ (if known s v then 1 else 0)
    orphan : (v : String) → known s v ≡ false → kids v s.parent ≡ []

  start-Planted : Planted (search_start leader) nil
  unfolding search_start IsDeployed times kids get
  start-Planted = record {
    deployed = (refl, refl, tt);
    once = λ v. ground arith;
    orphan = λ v h. refl;
  }

  module _ (cur nb : String) (s : Search) (below : Forest) (at : known s cur ≡ true)
      (fresh : contains nb (keys s.parent) ≡ false) (planted : Planted s below) where
    abbrev parents : Parents
    parents = set nb (some cur) s.parent

    known-set : (v : String) → is_some (get v parents) ≡ (if str_eq nb v then true else known s v)
    known-set v = ground (arith, get-set nb v (some cur) s.parent)

    unknown : known s nb ≡ false
    unknown = sym (contains-keys nb s.parent) ∙ fresh

    set-Planted :
        (queue : List String)
        → Planted
            (record { parent = parents; pending = queue })
            (plant_below pay cur nb leader below)
    unfolding plant_below plant
    set-Planted queue =
        let grown = λ (q : String). kids-set q cur nb s.parent fresh in
        let other : str_eq cur nb ≡ false = ground (arith, eq_iff cur nb, at, unknown) in
        let alone : kids nb s.parent ++ (if str_eq cur nb then nb ∷ [] else []) ≡ [] =
          rw (other, planted.orphan nb unknown) refl in
        record {
          deployed =
              IsDeployed-plant pay cur nb (λ q. kids q s.parent) (λ q. kids q parents) grown
                (grown nb ∙ alone) (rooted below) planted.deployed;
          once = λ v.
              times-plant pay cur nb v (rooted below)
              ∙ ground (
                arith,
                planted.once v,
                planted.once cur,
                planted.once nb,
                known-set v,
                unknown,
                at,
                eq_iff nb v,
              );
          orphan = λ v h.
              let new : str_eq nb v ≡ false = ground (arith, known-set v) in
              let old : known s v ≡ false = ground (arith, known-set v) in
              let apart : str_eq cur v ≡ false = ground (arith, eq_iff cur v, at) in
              grown v ∙ rw (apart, planted.orphan v old) refl;
        }

  offer-Planted :
      (cur nb : String) (s : Search) (below : Forest)
      → known s cur ≡ true
      → Planted s below
      → (more : Forest) × Planted (offer cur s nb) more
  unfolding offer
  offer-Planted cur nb s below at planted = elim (Bool-cases (contains nb (keys s.parent))) [
    | inl e ↦ (below, rw (e, offer) planted)
    | inr e ↦ (
      plant_below pay cur nb leader below,
      rw (e, offer) (set-Planted cur nb s below at e planted (s.pending ++ nb ∷ [])),
    )
  ]

  visit-Planted :
      (cur : String) (nbs : List String) (s : Search) (below : Forest)
      → known s cur ≡ true
      → Planted s below
      → (more : Forest) × Planted (visit cur nbs s) more
  unfolding visit
  visit-Planted cur [] s below at planted = (below, planted)
  visit-Planted cur (nb ∷ nbs) s below at planted =
      let (more, grown) = offer-Planted cur nb s below at planted in
      visit-Planted cur nbs (offer cur s nb) more (ground (arith, get-offer cur nb cur s)) grown

  -- The table that the search and the last loop return starts a finite tree below the leader. In this
  -- tree every node that a walk from the leader reaches stands once, and no other; each has stubs for
  -- its children in the table, in their order, and serves its payload.
  pub derive_tree_starts :
      (table : Graph) × (below : Forest) × (derive_tree adj leader ≡ ok table)
      × IsDeployed pay (λ q. or_default [] (get q table)) (rooted below)
      × ((v : String) → times v (rooted below) ≤ 1)
      × ((v : String) → (times v (rooted below) ≡ 1) ↔ ∥ Reach adj leader v ∥₁)
  derive_tree_starts =
      let (parents, table, ends, derived, span, _, children) = derive_tree_lem adj leader in
      let (below, planted) =
        search_rule adj leader (λ s. (below : Forest) × Planted s below) (nil, start-Planted)
          (λ s u rest e at p.
            visit-Planted u (neighbours adj u) (record s { pending = rest }) p.0 at
              (record { deployed = p.1.deployed; once = p.1.once; orphan = p.1.orphan }))
          (rounds adj) parents ends in
      (
        table,
        below,
        derived,
        subst (λ children. IsDeployed pay children (rooted below)) (λ i q. sym (children q) i)
            planted.deployed,
        λ v. ground (arith, planted.once v),
        λ v. (
          λ h. ∣ span.sound v (ground (arith, planted.once v)) ∣₁,
          λ w. ∥∥₁_elim w (ℕ_set _ _) (λ r. ground (arith, planted.once v, span.full v r)),
        ),
      )
