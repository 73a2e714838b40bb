-- ===== src/Node/Tree/Links.antt =====
-- The loop that turns the dictionary of parents into lists of children.
use mini2_anu_asim.Prelude.{
  ◌≡◌, refl, sym, ap, ◌∙◌, String, str_eq, eq_iff, Bool, true, false, Option, none, some, List, [],
  ◌∷◌, ◌++◌, append-nil, append_assoc, arith, if◌then◌else◌, ok, Bool-cases, Option-cases, inl, inr,
  ◌↔◌,
}
use mini2_anu_asim.Prelude.Dict.{
  Dict, get, set, keys, contains, get-set, is_some, contains-keys, Distinct,
}
use mini2_anu_asim.Node.Tree.{Graph, add_child, link, childless}

abbrev pub Parents : Type 0
Parents = Dict (Option String)

-- The children of `p`, in the order of the dictionary.
unfoldable pub kids : String → Parents → List String
kids p [] = []
kids p ((c, none) ∷ rest) = kids p rest
kids p ((c, some q) ∷ rest) = let more = kids p rest in if str_eq q p then c ∷ more else more

-- Every parent is a key of the tree.
abbrev pub Rooted : (String → Bool) → Parents → Type 0
Rooted is_key [] = Unit
Rooted is_key ((c, none) ∷ rest) = Rooted is_key rest
Rooted is_key ((c, some p) ∷ rest) = (is_key p ≡ true) × Rooted is_key rest

abbrev pub appended : Option (List String) → List String → Option (List String)
appended none more = none
appended (some l) more = some (l ++ more)

add_child_lem :
    (p c : String) (tree : Graph)
    → is_some (get p tree) ≡ true
    → (tree' : Graph) × (add_child p c tree ≡ ok tree')
      × ((q : String) → get q tree' ≡ appended (get q tree) (if str_eq p q then c ∷ [] else []))
unfolding add_child
add_child_lem p c tree h = elim (Option-cases (get p tree)) [
  | inl e ↦ absurd (ground arith)
  | inr (l, e) ↦ (
    set p (l ++ c ∷ []) tree,
    rw (e) refl,
    λ q. elim (Bool-cases (str_eq p q)) [
      | inl same ↦
          let pq : p ≡ q = ground (arith, eq_iff p q) in
          ground (arith, get-set p q (l ++ c ∷ []) tree, ap (λ (k : String). get k tree) pq)
      | inr other ↦ rw (other) (get-set p q (l ++ c ∷ []) tree ∙ rw other (unchanged (get q tree)))
    ],
  )
]
  where
    unchanged : (o : Option (List String)) → o ≡ appended o []
    unchanged none = refl
    unchanged (some l) = ap some (sym (append-nil l))

appended-appended :
    (o : Option (List String)) (xs ys : List String)
    → appended (appended o xs) ys ≡ appended o (xs ++ ys)
appended-appended none xs ys = refl
appended-appended (some l) xs ys = ap some (append_assoc l xs ys)

appended-nil : (o : Option (List String)) → o ≡ appended o []
appended-nil none = refl
appended-nil (some l) = ap some (sym (append-nil l))

is_some-appended :
    (o : Option (List String)) (xs : List String) → is_some (appended o xs) ≡ is_some o
is_some-appended none xs = refl
is_some-appended (some l) xs = refl

-- The loop returns, and gives each key its children, behind those it had.
pub link_lem :
    (is_key : String → Bool) (parents : Parents) (tree : Graph)
    → ((p : String) → is_some (get p tree) ≡ is_key p)
    → Rooted is_key parents
    → (tree' : Graph) × (link parents tree ≡ ok tree')
      × ((p : String) → get p tree' ≡ appended (get p tree) (kids p parents))
unfolding link kids
link_lem is_key [] tree same h = (tree, refl, λ p. appended-nil (get p tree))
link_lem is_key ((c, none) ∷ rest) tree same h = link_lem is_key rest tree same h
link_lem is_key ((c, some q) ∷ rest) tree same h =
    let (tree1, e1, f1) = add_child_lem q c tree (same q ∙ h.0) in
    let (tree2, e2, f2) =
      link_lem is_key rest tree1
        (λ p.
          ap is_some (f1 p)
          ∙ is_some-appended (get p tree) (if str_eq q p then c ∷ [] else [])
          ∙ same p)
        h.1 in
    (
      tree2,
      rw (e1) e2,
      λ p.
          f2 p
          ∙ ap (λ o. appended o (kids p rest)) (f1 p)
          ∙ appended-appended (get p tree) (if str_eq q p then c ∷ [] else []) (kids p rest)
          ∙ ap (appended (get p tree)) (one_more p (str_eq q p)),
    )
  where
    one_more :
        (p : String) (b : Bool)
        → (if b then c ∷ [] else []) ++ kids p rest ≡ (if b then c ∷ kids p rest else kids p rest)
    one_more p true = refl
    one_more p false = refl

-- A node that is found with the parent `cur` becomes its last child.
pub kids-set :
    (p cur nb : String) (d : Parents)
    → contains nb (keys d) ≡ false
    → kids p (set nb (some cur) d) ≡ kids p d ++ (if str_eq cur p then nb ∷ [] else [])
unfolding kids set contains
kids-set p cur nb [] h = ground arith
kids-set p cur nb ((k, none) ∷ d) h = ground (arith, kids-set p cur nb d)
kids-set p cur nb ((k, some q) ∷ d) h = ground (arith, kids-set p cur nb d)

-- With no key twice, a node is among the children of `p` exactly if `p` is its parent.
pub contains-kids :
    (p c : String) (parents : Parents)
    → Distinct (keys parents)
    → (contains c (kids p parents) ≡ true) ↔ (get c parents ≡ some (some p))
unfolding kids contains get
contains-kids p c [] h = ground arith
contains-kids p c ((k, none) ∷ rest) h =
    ground (arith, contains-kids p c rest h.1, contains-keys c rest, eq_iff k c)
contains-kids p c ((k, some q) ∷ rest) h =
    ground (arith, contains-kids p c rest h.1, contains-keys c rest, eq_iff k c, eq_iff q p)

pub Distinct-kids :
    (p : String) (parents : Parents) → Distinct (keys parents) → Distinct (kids p parents)
unfolding kids
Distinct-kids p [] h = tt
Distinct-kids p ((k, none) ∷ rest) h = Distinct-kids p rest h.1
Distinct-kids p ((k, some q) ∷ rest) h = elim (Bool-cases (str_eq q p)) [
  | inl e ↦
      rw (e, kids)
        (ground (arith, contains-kids p k rest h.1, contains-keys k rest), Distinct-kids p rest h.1)
  | inr e ↦ rw (e, kids) (Distinct-kids p rest h.1)
]

pub get-childless :
    (p : String) (ks : List String)
    → get p (childless ks) ≡ (if contains p ks then some [] else none)
unfolding get contains
get-childless p [] = refl
get-childless p (k ∷ ks) = ground (arith, get-childless p ks)
