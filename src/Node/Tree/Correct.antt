-- ===== src/Node/Tree/Correct.antt =====
-- The derived tree spans what the overlay joins to the leader.
use mathlib.Core.Bool.{So-prop}
use mathlib.Core.Logic.{∥∥₁_elim}
use mini2_anu_asim.Prelude.{
  ◌≡◌, ◌≢◌, refl, sym, ap, ◌∙◌, String, eq_iff, Bool, true, false, Option, none, some, List, [],
  ◌∷◌, arith, if◌then◌else◌, ok, Bool-cases, List-cases, inl, inr, ◌↔◌, subst,
}
use mini2_anu_asim.Prelude.Dict.{get, keys, contains, is_some, contains-keys, Distinct}
use mini2_anu_asim.Node.Config.{or_default}
use mini2_anu_asim.Node.Tree.{Graph, rounds, childless, grow, search_start, derive_tree}
use mini2_anu_asim.Node.Tree.Reach.{Edge, Reach, Spanning, grow-Spanning, search_returns}
use mini2_anu_asim.Node.Tree.Links.{
  Parents, kids, Rooted, appended, link_lem, contains-kids, Distinct-kids, get-childless,
}

-- `tree` holds the children of every node that a walk from the leader reaches, and of no other; it
-- follows the edges; the leader is nobody's child; every other node is the child of exactly one node,
-- and listed there once.
pub record IsSpanningTree (adj : Graph) (leader : String) (tree : Graph) : Type 0 where
  pub nodes : (v : String) → (is_some (get v tree) ≡ true) ↔ ∥ Reach adj leader v ∥₁
  pub follows :
      (p c : String) (l : List String) → get p tree ≡ some l → contains c l ≡ true → Edge adj p c
  pub root : (p : String) (l : List String) → get p tree ≡ some l → contains leader l ≡ false
  pub parented :
      (c : String)
      → Reach adj leader c
      → c ≢ leader
      → (p : String) × (l : List String) × (get p tree ≡ some l) × (contains c l ≡ true)
  pub one_parent :
      (c p q : String) (l m : List String)
      → get p tree ≡ some l
      → get q tree ≡ some m
      → contains c l ≡ true
      → contains c m ≡ true
      → p ≡ q
  pub listed_once : (p : String) (l : List String) → get p tree ≡ some l → Distinct l

Rooted-of :
    (is_key : String → Bool) (d : Parents)
    → Distinct (keys d)
    → ((v p : String) → get v d ≡ some (some p) → is_key p ≡ true)
    → Rooted is_key d
unfolding get
Rooted-of is_key [] h k = tt
Rooted-of is_key ((c, none) ∷ rest) h k =
    Rooted-of is_key rest h.1 (λ v p e. k v p (ground (arith, contains-keys c rest, eq_iff c v)))
Rooted-of is_key ((c, some q) ∷ rest) h k = (
  k c q (ground (arith, eq_iff c c)),
  Rooted-of is_key rest h.1 (λ v p e. k v p (ground (arith, contains-keys c rest, eq_iff c v))),
)

module _ (adj : Graph) (leader : String) (parents : Parents) (span : Spanning adj leader parents)
    (tree : Graph)
    (entries : (p : String)
      → get p tree ≡ appended (get p (childless (keys parents))) (kids p parents)) where
  entry :
      (p : String) → get p tree ≡ (if is_some (get p parents) then some (kids p parents) else none)
  entry p = ground (arith, entries p, get-childless p (keys parents), contains-keys p parents)

  listed : (p : String) (l : List String) → get p tree ≡ some l → l ≡ kids p parents
  listed p l e = ground (arith, entry p)

  child_of :
      (p c : String) (l : List String)
      → get p tree ≡ some l
      → contains c l ≡ true
      → get c parents ≡ some (some p)
  child_of p c l e m =
      (contains-kids p c parents span.distinct).0 (ap (contains c) (sym (listed p l e)) ∙ m)

  has_parent :
      (c : String)
      → is_some (get c parents) ≡ true
      → ¬ (get c parents ≡ some none)
      → (p : String) × (l : List String) × (get p tree ≡ some l) × (contains c l ≡ true)
  has_parent c h far = by_entry (get c parents) refl
    where
      by_entry :
          (o : Option (Option String))
          → get c parents ≡ o
          → (p : String) × (l : List String) × (get p tree ≡ some l) × (contains c l ≡ true)
      by_entry none e = absurd (ground arith)
      by_entry (some none) e = absurd (far e)
      by_entry (some (some p)) e = (
        p,
        kids p parents,
        ground (arith, entry p, (span.edges c p e).0),
        (contains-kids p c parents span.distinct).1 e,
      )

  spanning : IsSpanningTree adj leader tree
  spanning = record {
    nodes = λ v. (
      λ h. ∣ span.sound v (ground (arith, entry v)) ∣₁,
      λ w. ∥∥₁_elim w (So-prop _) (λ r. ground (arith, entry v, span.full v r)),
    );
    follows = λ p c l e m. (span.edges c p (child_of p c l e m)).1;
    root = λ p l e. elim (Bool-cases (contains leader l)) [
      | inr out ↦ out
      | inl m ↦ absurd (cc (child_of p leader l e m, span.root))
    ];
    parented = λ c w far. has_parent c (span.full c w) (λ e. far (span.only_root c e));
    one_parent = λ c p q l m ep eq hp hq. cc (child_of p c l ep hp, child_of q c m eq hq);
    listed_once =
        λ p l e. subst Distinct (sym (listed p l e)) (Distinct-kids p parents span.distinct);
  }

childless_parent :
    (adj : Graph) (leader p : String) (parents : Parents)
    → Spanning adj leader parents
    → is_some (get p parents) ≡ false
    → kids p parents ≡ []
unfolding contains
childless_parent adj leader p parents span h = elim (List-cases (kids p parents)) [
  | inl e ↦ e
  | inr (c, rest, e) ↦
      let at : contains c (kids p parents) ≡ true = ground (arith, e, eq_iff c c) in
      let (known, _) = span.edges c p ((contains-kids p c parents span.distinct).0 at) in
      absurd (cc (known, h))
]

-- The search and the last loop, and the children that they give each node.
pub derive_tree_lem :
    (adj : Graph) (leader : String)
    → (parents : Parents) × (tree : Graph) × (grow (rounds adj) adj (search_start leader)
        ≡ ok parents)
      × (derive_tree adj leader ≡ ok tree)
      × Spanning adj leader parents
      × ((p : String) → get p tree ≡ appended (get p (childless (keys parents))) (kids p parents))
      × ((p : String) → or_default [] (get p tree) ≡ kids p parents)
unfolding derive_tree
derive_tree_lem adj leader =
    let (parents, ends) = search_returns adj leader in
    let span = grow-Spanning adj leader (rounds adj) parents ends in
    let (tree, linked, entries) =
      link_lem (λ p. is_some (get p parents)) parents (childless (keys parents))
        (λ p. ground (arith, get-childless p (keys parents), contains-keys p parents))
        (Rooted-of (λ p. is_some (get p parents)) parents span.distinct
          (λ v p e. (span.edges v p e).0)) in
    (
      parents,
      tree,
      ends,
      rw (ends) linked,
      span,
      entries,
      λ p. ground (
        arith,
        entries p,
        get-childless p (keys parents),
        contains-keys p parents,
        childless_parent adj leader p parents span,
      ),
    )

-- From any overlay and any leader, the search and the last loop return, and what they return is a
-- spanning tree of what the overlay joins to the leader.
pub derive_tree_spans :
    (adj : Graph) (leader : String)
    → (tree : Graph) × (derive_tree adj leader ≡ ok tree) × IsSpanningTree adj leader tree
derive_tree_spans adj leader =
    let (parents, tree, _, derived, span, entries, _) = derive_tree_lem adj leader in
    (tree, derived, spanning adj leader parents span tree entries)
