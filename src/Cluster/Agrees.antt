-- ===== src/Cluster/Agrees.antt =====
-- The C++ and the Python nodes take the same tree from a configuration, unless `buildTree` reads a
-- reference that dangles.
use mini2_anu_asim.Prelude.{
  ℕ, Bool, err, dangling_reference, length, ◌≤◌, ◌≡◌, ◌≢◌, refl, sym, ap, ◌∙◌, String, str_eq,
  eq_iff, true, false, Option, none, some, List, [], ◌∷◌, ◌++◌, append-nil, append_assoc, arith,
  if◌then◌else◌, ok, Bool-cases, inl, inr, ◌⊎◌, Option-cases, Result-cases,
}
use mini2_anu_asim.Prelude.Dict.{Dict, get, keys, contains, Distinct}
use mini2_anu_asim.Node.Config.{Config, Role, mapping, other, or_default}
use mini2_anu_asim.Node.Tree.{
  Graph, add_neighbour, add_edges, find_leader, is_leader, listed, derive_tree, build_children,
}
use mini2_anu_asim.Node.Tree.Overlay.{two_ended, add_edges_error}
use mini2_anu_asim.Cluster.{
  push, join_edges, find_root, root_of, push_all, listed_children, load_tree, get_children,
}
use mini2_anu_asim.Cluster.Same.{get_children-push, build_tree-Built}

join_edges-add_edges :
    (edges : List (List String)) (adj : Graph)
    → two_ended edges ≡ true
    → join_edges edges adj ≡ add_edges edges adj
unfolding join_edges add_edges two_ended push add_neighbour
join_edges-add_edges [] adj h = refl
join_edges-add_edges ([] ∷ edges) adj h = cc
join_edges-add_edges ((a ∷ []) ∷ edges) adj h = cc
join_edges-add_edges ((a ∷ b ∷ []) ∷ edges) adj h = join_edges-add_edges edges _ h
join_edges-add_edges ((a ∷ b ∷ c ∷ d) ∷ edges) adj h = cc

pub add_edges-two_ended :
    (edges : List (List String)) (adj adj' : Graph)
    → add_edges edges adj ≡ ok adj'
    → two_ended edges ≡ true
unfolding add_edges two_ended
add_edges-two_ended [] adj adj' h = refl
add_edges-two_ended ([] ∷ edges) adj adj' h = cc
add_edges-two_ended ((a ∷ []) ∷ edges) adj adj' h = cc
add_edges-two_ended ((a ∷ b ∷ []) ∷ edges) adj adj' h = add_edges-two_ended edges _ adj' h
add_edges-two_ended ((a ∷ b ∷ c ∷ d) ∷ edges) adj adj' h = cc

pub find_root-find_leader :
    (roles : Dict Role) (leader : String)
    → find_root roles ≡ ok (some leader)
    → find_leader roles ≡ ok leader
unfolding find_root find_leader is_leader
find_root-find_leader [] leader h = absurd (cc)
find_root-find_leader ((k, mapping (some role)) ∷ roles) leader h =
    ground (arith, find_root-find_leader roles leader)
find_root-find_leader ((k, mapping none) ∷ roles) leader h = absurd (cc)
find_root-find_leader ((k, other) ∷ roles) leader h = absurd (cc)

get_children-push_all :
    (p parent : String) (cs : List String) (tree : Graph)
    → get_children p (push_all parent cs tree)
      ≡ get_children p tree ++ (if str_eq parent p then cs else [])
unfolding push_all
get_children-push_all p parent [] tree = ground (arith, append-nil (get_children p tree))
get_children-push_all p parent (c ∷ cs) tree =
    get_children-push_all p parent cs (push parent c tree)
    ∙ (ap (λ l. l ++ (if str_eq parent p then cs else [])) (get_children-push p parent c tree)
        ∙ (append_assoc (get_children p tree) (if str_eq parent p then c ∷ [] else [])
              (if str_eq parent p then cs else [])
            ∙ ap (λ l. get_children p tree ++ l) (joined (str_eq parent p))))
  where
    joined :
        (b : Bool)
        → (if b then c ∷ [] else []) ++ (if b then cs else []) ≡ (if b then c ∷ cs else [])
    joined true = refl
    joined false = refl

unlisted :
    (p : String) (rest : Dict (Option (List String)))
    → contains p (keys rest) ≡ false
    → get_children p (listed rest) ≡ []
unfolding contains get
unlisted p [] h = refl
unlisted p ((k, v) ∷ rest) h = ground (arith, unlisted p rest)

listed_children-listed :
    (p : String) (explicit : Dict (Option (List String))) (tree : Graph)
    → Distinct (keys explicit)
    → get_children p (listed_children explicit tree)
      ≡ get_children p tree ++ get_children p (listed explicit)
unfolding listed_children get
listed_children-listed p [] tree h = sym (append-nil (get_children p tree))
listed_children-listed p ((k, v) ∷ rest) tree h =
    let cs = or_default [] v in
    listed_children-listed p rest (push_all k cs tree) h.1
    ∙ (ap (λ l. l ++ get_children p (listed rest)) (get_children-push_all p k cs tree)
        ∙ (append_assoc (get_children p tree) (if str_eq k p then cs else [])
              (get_children p (listed rest))
            ∙ ap (λ l. get_children p tree ++ l) (own (Bool-cases (str_eq k p)))))
  where
    own :
        (str_eq k p ≡ true) ⊎ (str_eq k p ≡ false)
        → (if str_eq k p then or_default [] v else []) ++ get_children p (listed rest)
          ≡ get_children p (listed ((k, v) ∷ rest))
    own (inl e) =
        let same : k ≡ p = (eq_iff k p).0 e in
        let empty = unlisted p rest (ap (λ w. contains w (keys rest)) (sym same) ∙ h.0) in
        rw (e, empty) (append-nil (or_default [] v))
    own (inr e) = rw e refl

-- The keys of the explicit tree, none of them twice.
abbrev pub NoRepeat : Config → Type 0
NoRepeat cfg = elim cfg.children [ some explicit ↦ Distinct (keys explicit) | none ↦ Unit ]

pub derived_from :
    (cfg : Config) (adj : Graph) (leader : String)
    → cfg.children ≡ none
    → add_edges (or_default [] cfg.overlay) [] ≡ ok adj
    → find_leader (or_default [] cfg.roles) ≡ ok leader
    → build_children cfg ≡ derive_tree adj leader
unfolding build_children
derived_from cfg adj leader e p r = rw (e, p, r) refl

listed_from :
    (cfg : Config) (explicit : Dict (Option (List String))) (tree : Graph)
    → cfg.children ≡ some explicit
    → build_children cfg ≡ ok tree
    → listed explicit ≡ tree
unfolding build_children
listed_from cfg explicit tree e h = let same = rw e at h in cc

-- Let the loop over the roles find a leader whose name is not empty, let every edge of the overlay
-- have two ends, and let no key of an explicit tree stand there twice. Where `_build_children` of the
-- Python node returns a tree, `load` of the C++ nodes leaves one in which every node has the same
-- children, in the same order; or there is no explicit tree, some node of the derived one has two
-- children, and `buildTree` reads a reference that its `push_back` left dangling.
pub trees_agree :
    (moves : ℕ → Bool) (first : Option String) (cfg : Config) (leader : String) (tree : Graph)
    → find_root (or_default [] cfg.roles) ≡ ok (some leader)
    → leader ≢ ""
    → two_ended (or_default [] cfg.overlay) ≡ true
    → NoRepeat cfg
    → build_children cfg ≡ ok tree
    → ((c : Graph) × (load_tree moves first cfg ≡ ok c)
        × ((p : String) → get_children p c ≡ get_children p tree))
      ⊎ ((load_tree moves first cfg ≡ err dangling_reference)
          × (cfg.children ≡ none)
          × (p : String) × (2 ≤ length (get_children p tree)))
unfolding load_tree root_of get
trees_agree moves first cfg leader tree r named two apart h =
    let edges = or_default [] cfg.overlay in
    let other : str_eq leader "" ≡ false = ground (arith, eq_iff leader "") in
    elim (Result-cases (add_edges edges [])) [
      | inl (e, p) ↦ absurd (cc (two, (add_edges_error edges [] e p).1))
      | inr (adj, p) ↦
          let joined = join_edges-add_edges edges [] two ∙ p in
          elim (Option-cases cfg.children) [
            | inl e ↦
                let derived =
                  sym (
                    derived_from cfg adj leader e p
                      (find_root-find_leader (or_default [] cfg.roles) leader r))
                  ∙ h in
                elim (build_tree-Built moves adj leader tree named derived) [
                  | inl (c, built, agree) ↦
                      rw (joined, r, e, other, load_tree) (inl (c, built, agree))
                  | inr (built, p, branches) ↦
                      rw (joined, r, e, other, load_tree) (inr (built, refl, p, branches))
                ]
            | inr (explicit, e) ↦
                rw (joined, r, e, load_tree)
                  (inl (
                    listed_children explicit [],
                    refl,
                    λ p.
                        listed_children-listed p explicit [] (rw e at apart)
                        ∙ ap (get_children p) (listed_from cfg explicit tree e h),
                  ))
          ]
    ]
