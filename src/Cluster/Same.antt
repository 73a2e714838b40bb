-- ===== src/Cluster/Same.antt =====
-- `buildTree` finds the children that the search of the Python node finds, or it reads a reference that
-- dangles.
use mini2_anu_asim.Prelude.{
  ◌⊎◌, Bool, false, err, dangling_reference, length, ◌≤◌, Result, length-append, ℕ, zero, suc, ◌≡◌,
  ◌≢◌, refl, sym, ap, ◌∙◌, String, str_eq, eq_iff, true, false, Option, some, List, [], ◌∷◌, ◌++◌,
  append-nil, arith, if◌then◌else◌, ok, Bool-cases, inl, inr, List-cases,
}
use mini2_anu_asim.Prelude.Dict.{get, set, keys, contains, get-set, contains-keys}
use mini2_anu_asim.Node.Config.{or_default}
use mini2_anu_asim.Node.Tree.{
  Graph, neighbours, Search, offer, visit, grow, search_start, rounds, derive_tree,
}
use mini2_anu_asim.Node.Tree.Links.{Parents, kids, kids-set}
use mini2_anu_asim.Node.Tree.Correct.{derive_tree_lem}
use mini2_anu_asim.Cluster.{
  push, TreeSearch, is_visited, discovered, discover, next_cur, explore, grow_tree, tree_start,
  build_tree, get_children,
}

pub get_children-push :
    (p key x : String) (m : Graph)
    → get_children p (push key x m) ≡ get_children p m ++ (if str_eq key p then x ∷ [] else [])
unfolding push
get_children-push p key x m = elim (Bool-cases (str_eq key p)) [
  | inl e ↦
      let same : key ≡ p = (eq_iff key p).0 e in
      rw (get-set key p (or_default [] (get key m) ++ x ∷ []) m, e)
        (ap (λ k. get_children k m ++ x ∷ []) same)
  | inr e ↦
      rw (get-set key p (or_default [] (get key m) ++ x ∷ []) m, e)
        (sym (append-nil (get_children p m)))
]

-- The two searches have found the same.
record Alike (s : Search) (t : TreeSearch) : Type 0 where
  queue : t.pending ≡ s.pending
  seen : (v : String) → is_visited v t ≡ contains v (keys s.parent)
  below : (p : String) → get_children p t.children ≡ kids p s.parent

contains-set :
    (v nb : String) (o : Option String) (d : Parents)
    → contains v (keys (set nb o d)) ≡ (if str_eq nb v then true else contains v (keys d))
contains-set v nb o d =
    ground (arith, contains-keys v (set nb o d), contains-keys v d, get-set nb v o d)

module _ (moves : ℕ → Bool) where
  discovered-Alike :
      (cur nb : String) (s : Search) (t : TreeSearch)
      → contains nb (keys s.parent) ≡ false
      → Alike s t
      → Alike
          (record { parent = set nb (some cur) s.parent; pending = s.pending ++ nb ∷ [] })
          (discovered moves cur t nb)
  unfolding discovered
  discovered-Alike cur nb s t e a = record {
    queue = ap (λ q. q ++ nb ∷ []) a.queue;
    seen = λ v.
        ground
          (arith, get-set nb v true t.visited, contains-set v nb (some cur) s.parent, a.seen v);
    below = λ p.
        get_children-push p cur nb t.children
        ∙ ap (λ l. l ++ (if str_eq cur p then nb ∷ [] else [])) (a.below p)
        ∙ sym (kids-set p cur nb s.parent e);
  }

  -- A reference dangles only behind the discovery of a child.
  abbrev Held : String → Search → TreeSearch → Type 0
  Held cur s t = t.dangles ≡ true → 1 ≤ length (kids cur s.parent)

  -- How a part of the loop ends: both searches go on alike, or the reference is read while it dangles,
  -- and the other search has found a second child.
  abbrev Ends : String → Search → Result TreeSearch → Type 0
  Ends cur s res =
      ((t : TreeSearch) × (res ≡ ok t) × Alike s t × Held cur s t)
      ⊎ ((res ≡ err dangling_reference) × (2 ≤ length (kids cur s.parent)))

  discover-Ends :
      (cur nb : String) (s : Search) (t : TreeSearch)
      → Alike s t
      → Held cur s t
      → Ends cur (offer cur s nb) (discover moves cur t nb)
  unfolding discover offer
  discover-Ends cur nb s t a held = elim (Bool-cases (contains nb (keys s.parent))) [
    | inl e ↦ rw (a.seen nb, e) (inl (t, refl, a, held))
    | inr e ↦
        let more = ap length (kids-set cur cur nb s.parent e) in
        let self : str_eq cur cur ≡ true = (eq_iff cur cur).1 refl in
        elim (Bool-cases t.dangles) [
          | inl d ↦
              rw (a.seen nb, e, d)
                (inr (
                  refl,
                  ground (arith, more, self, held d, length-append (kids cur s.parent) (nb ∷ [])),
                ))
          | inr d ↦
              rw (a.seen nb, e, d)
                (inl (
                  _,
                  refl,
                  discovered-Alike cur nb s t e a,
                  λ _. ground (arith, more, self, length-append (kids cur s.parent) (nb ∷ [])),
                ))
        ]
  ]

offer-kids :
    (p cur nb : String) (s : Search)
    → length (kids p s.parent) ≤ length (kids p (offer cur s nb).parent)
unfolding offer
offer-kids p cur nb s = elim (Bool-cases (contains nb (keys s.parent))) [
  | inl e ↦ rw e (omega arith)
  | inr e ↦
      let more = ap length (kids-set p cur nb s.parent e) in
      let split = length-append (kids p s.parent) (if str_eq cur p then nb ∷ [] else []) in
      rw e (omega (arith, more, split))
]

visit-kids :
    (p cur : String) (nbs : List String) (s : Search)
    → length (kids p s.parent) ≤ length (kids p (visit cur nbs s).parent)
unfolding visit
visit-kids p cur [] s = omega arith
visit-kids p cur (nb ∷ nbs) s =
    omega (arith, offer-kids p cur nb s, visit-kids p cur nbs (offer cur s nb))

-- What the search has found is not lost.
grow-kids :
    (p : String) (fuel : ℕ) (adj : Graph) (s : Search) (parents : Parents)
    → grow fuel adj s ≡ ok parents
    → length (kids p s.parent) ≤ length (kids p parents)
unfolding grow
grow-kids p zero adj s parents h = elim (List-cases s.pending) [
  | inl e ↦
      let same : s.parent ≡ parents = ground arith in
      omega (arith, ap (λ d. length (kids p d)) same)
  | inr (u, rest, e) ↦ absurd (ground arith)
]
grow-kids p (suc fuel) adj s parents h = elim (List-cases s.pending) [
  | inl e ↦
      let same : s.parent ≡ parents = ground arith in
      omega (arith, ap (λ d. length (kids p d)) same)
  | inr (u, rest, e) ↦
      let here = visit-kids p u (neighbours adj u) (record s { pending = rest }) in
      let later = grow-kids p fuel adj _ parents (rw (e, grow) at h) in omega (arith, here, later)
]

module _ (moves : ℕ → Bool) where
  explore-Ends :
      (cur : String) (nbs : List String) (s : Search) (t : TreeSearch)
      → Alike s t
      → Held moves cur s t
      → Ends moves cur (visit cur nbs s) (explore moves cur nbs t)
  unfolding explore visit
  explore-Ends cur [] s t a held = inl (t, refl, a, held)
  explore-Ends cur (nb ∷ nbs) s t a held = elim (discover-Ends moves cur nb s t a held) [
    | inl (t', e, a', held') ↦ rw e (explore-Ends cur nbs (offer cur s nb) t' a' held')
    | inr (e, two) ↦ rw e (inr (refl, omega (arith, two, visit-kids cur cur nbs (offer cur s nb))))
  ]

  grow-Ends :
      (fuel : ℕ) (adj : Graph) (s : Search) (t : TreeSearch) (parents : Parents)
      → Alike s t
      → grow fuel adj s ≡ ok parents
      → ((tree : Graph) × (grow_tree moves fuel adj t ≡ ok tree)
          × ((p : String) → get_children p tree ≡ kids p parents))
        ⊎ ((grow_tree moves fuel adj t ≡ err dangling_reference)
            × (p : String) × (2 ≤ length (kids p parents)))
  unfolding grow grow_tree
  grow-Ends zero adj s t parents a h = elim (List-cases s.pending) [
    | inl e ↦
        let same : s.parent ≡ parents = ground arith in
        rw (a.queue, e) (inl (t.children, refl, λ p. a.below p ∙ ap (kids p) same))
    | inr (u, rest, e) ↦ absurd (ground arith)
  ]
  grow-Ends (suc fuel) adj s t parents a h = elim (List-cases s.pending) [
    | inl e ↦
        let same : s.parent ≡ parents = ground arith in
        rw (a.queue, e) (inl (t.children, refl, λ p. a.below p ∙ ap (kids p) same))
    | inr (u, rest, e) ↦
        let more = rw (e, grow) at h in
        let s' = record s { pending = rest } in
        let start : Alike s' (next_cur moves rest t) = record {
          queue = refl;
          seen = a.seen;
          below = a.below;
        } in
        rw (a.queue, e)
          (elim (explore-Ends u (neighbours adj u) s' (next_cur moves rest t) start
            (λ d. absurd cc)) [
              | inl (t', e', a', _) ↦
                  rw e' (grow-Ends fuel adj (visit u (neighbours adj u) s') t' parents a' more)
              | inr (e', two) ↦ rw e' (
                  inr (
                    refl,
                    u,
                    omega (
                      arith,
                      two,
                      grow-kids u fuel adj (visit u (neighbours adj u) s') parents more,
                    ),
                  ))
            ])
  ]

  start-Alike : (leader : String) → Alike (search_start leader) (tree_start moves leader)
  unfolding search_start get contains kids
  start-Alike leader = record { queue = refl; seen = λ v. ground arith; below = λ p. refl }

  -- `buildTree` gives the nodes the children that the search of the Python node gives them; or it reads
  -- a reference that dangles, and then some node has two children.
  abbrev pub Built : Result Graph → Graph → Type 0
  Built res tree =
      ((c : Graph) × (res ≡ ok c) × ((p : String) → get_children p c ≡ get_children p tree))
      ⊎ ((res ≡ err dangling_reference) × (p : String) × (2 ≤ length (get_children p tree)))

  pub build_tree-Built :
      (adj : Graph) (leader : String) (tree : Graph)
      → leader ≢ ""
      → derive_tree adj leader ≡ ok tree
      → Built (build_tree moves adj leader) tree
  unfolding build_tree
  build_tree-Built adj leader tree named h =
      let (parents, tree', ends, derived, _, _, below) = derive_tree_lem adj leader in
      let same : tree' ≡ tree = cc in
      let other : str_eq leader "" ≡ false = ground (arith, eq_iff leader "") in
      let kept : ((p : String) → kids p parents ≡ get_children p tree) =
        λ p. sym (below p) ∙ ap (get_children p) same in
      rw (other, build_tree)
        (elim (grow-Ends (rounds adj) adj (search_start leader) (tree_start moves leader) parents
          (start-Alike leader) ends) [
            | inl (c, grown, agree) ↦ inl (c, grown, λ p. agree p ∙ kept p)
            | inr (failed, p, two) ↦ inr (failed, p, omega (arith, two, ap length (kept p)))
          ])
