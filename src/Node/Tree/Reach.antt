-- ===== src/Node/Tree/Reach.antt =====
-- The breadth-first search finds exactly the nodes that the overlay joins to the leader, each with a
-- parent that the overlay joins to it.
use mini2_anu_asim.Prelude.{
  ℕ, zero, suc, ◌≡◌, refl, ap, String, str_eq, eq_iff, true, not, ◌&&◌, ◌||◌, Option, none, some,
  List, [], ◌∷◌, arith, if◌then◌else◌, ok, ◌⊎◌, inl, inr, List-cases, Bool-cases, subst, flatten,
}
use mini2_anu_asim.Prelude.Dict.{Dict, get, keys, values, contains, is_some, Distinct}
use mini2_anu_asim.Node.Tree.{Graph, neighbours, Search, visit, grow, rounds, search_start}
use mini2_anu_asim.Node.Tree.Grow.{
  known, claimed, get-visit, pending-visit, Distinct-visit, grow_ends, unseen-le-length,
}

-- The overlay has an edge from `u` to `v`.
abbrev pub Edge : Graph → String → String → Type 0
Edge adj u v = contains v (neighbours adj u) ≡ true

-- The walks from the leader.
pub data Reach (adj : Graph) (leader : String) : String → Type 0 where
  here : Reach adj leader leader
  step : {u v : String} → Reach adj leader u → Edge adj u v → Reach adj leader v

module _ (adj : Graph) (leader : String) where
  pub record Inv (s : Search) : Type 0 where
    pub root : get leader s.parent ≡ some none
    pub only_root : (v : String) → get v s.parent ≡ some none → v ≡ leader
    pub queued : (v : String) → contains v s.pending ≡ true → known s v ≡ true
    pub sound : (v : String) → known s v ≡ true → Reach adj leader v
    pub closed :
        (u v : String)
        → known s u ≡ true
        → Edge adj u v
        → (contains u s.pending ≡ true) ⊎ (known s v ≡ true)
    pub edges : (v p : String) → get v s.parent ≡ some (some p) → (known s p ≡ true) × Edge adj p v
    pub distinct : Distinct (keys s.parent)

  Inv-start : Inv (search_start leader)
  unfolding search_start get contains
  Inv-start = record {
    root = ground (arith, eq_iff leader leader);
    only_root = λ v h. ground (arith, eq_iff leader v);
    queued = λ v h. ground arith;
    sound = λ v h.
        let same : leader ≡ v = ground (arith, eq_iff leader v) in
        subst (Reach adj leader) same here;
    closed = λ u v h e. inl (ground arith);
    edges = λ v p h. absurd (ground arith);
    distinct = (refl, tt);
  }

  module _ (s : Search) (cur : String) (rest : List String) (e : s.pending ≡ cur ∷ rest)
      (h : Inv s) where
    popped : Search
    popped = record s { pending = rest }

    abbrev next : Search
    next = visit cur (neighbours adj cur) popped

    now :
        (v : String)
        → get v next.parent ≡ claimed (get v s.parent) (contains v (neighbours adj cur)) cur
    unfolding popped
    now v = get-visit cur v (neighbours adj cur) popped

    queue :
        (v : String)
        → contains v next.pending
          ≡ contains v rest || (not (known s v) && contains v (neighbours adj cur))
    unfolding popped
    queue v = pending-visit cur v (neighbours adj cur) popped

    was_queued :
        (v : String) → contains v s.pending ≡ (if str_eq cur v then true else contains v rest)
    unfolding contains
    was_queued v = rw e refl

    cur_known : known s cur ≡ true
    cur_known = h.queued cur (ground (arith, was_queued cur, eq_iff cur cur))

    Inv-next : Inv next
    Inv-next = record {
      root = ground (arith, now leader, h.root);
      only_root = λ v p. h.only_root v (ground (arith, now v));
      queued = λ v p. ground (arith, now v, queue v, h.queued v, was_queued v);
      sound = λ v p. elim (Bool-cases (known s v)) [
        | inl k ↦ h.sound v k
        | inr k ↦ step (h.sound cur cur_known) (ground (arith, now v))
      ];
      closed = λ u v p q.
          ground (arith, now u, now v, queue u, was_queued u, h.closed u v, eq_iff cur u);
      edges = λ v p q. ground (arith, now v, now p, now cur, h.edges v p, cur_known);
      distinct = unfold popped in Distinct-visit cur (neighbours adj cur) popped h.distinct;
    }

  -- An invariant of the rounds holds at the end, where the queue is empty.
  grow_rule :
      (P : Search → Type 0)
      → ((s : Search) (u : String) (rest : List String)
          → s.pending ≡ u ∷ rest
          → P s
          → P (visit u (neighbours adj u) (record s { pending = rest })))
      → (fuel : ℕ) (s : Search) (parent : Dict (Option String)) → P s
      → grow fuel adj s ≡ ok parent
      → P (record { parent = parent; pending = [] })
  unfolding grow
  grow_rule P keep zero s parent p h = elim (List-cases s.pending) [
    | inl empty ↦
        let same : s ≡ record { parent = parent; pending = [] } = ground arith in subst P same p
    | inr (u, rest, e) ↦ absurd (ground arith)
  ]
  grow_rule P keep (suc fuel) s parent p h = elim (List-cases s.pending) [
    | inl empty ↦
        let same : s ≡ record { parent = parent; pending = [] } = ground arith in subst P same p
    | inr (u, rest, e) ↦
        grow_rule P keep fuel (visit u (neighbours adj u) (record s { pending = rest })) parent
          (keep s u rest e p) (rw (e, grow) at h)
  ]

  -- The same, for an invariant that needs the visited node to have been found.
  pub search_rule :
      (P : Search → Type 0)
      → P (search_start leader)
      → ((s : Search) (u : String) (rest : List String)
          → s.pending ≡ u ∷ rest
          → known s u ≡ true
          → P s
          → P (visit u (neighbours adj u) (record s { pending = rest })))
      → (fuel : ℕ) (parent : Dict (Option String)) → grow fuel adj (search_start leader) ≡ ok parent
      → P (record { parent = parent; pending = [] })
  search_rule P start keep fuel parent ends =
      (grow_rule (λ s. Inv s × P s)
        (λ s u rest e h. (
          unfold popped in Inv-next s u rest e h.0,
          keep s u rest e (cur_known s u rest e h.0) h.1,
        ))
        fuel (search_start leader) parent (Inv-start, start) ends).1

  -- The parents that the search ends with.
  pub record Spanning (parent : Dict (Option String)) : Type 0 where
    pub root : get leader parent ≡ some none
    pub only_root : (v : String) → get v parent ≡ some none → v ≡ leader
    pub sound : (v : String) → is_some (get v parent) ≡ true → Reach adj leader v
    pub full : (v : String) → Reach adj leader v → is_some (get v parent) ≡ true
    pub edges :
        (v p : String)
        → get v parent ≡ some (some p)
        → (is_some (get p parent) ≡ true) × Edge adj p v
    pub distinct : Distinct (keys parent)

  full_at :
      (s : Search) → Inv s → s.pending ≡ [] → {v : String} → Reach adj leader v → known s v ≡ true
  unfolding contains
  full_at s h e here = ground (arith, h.root)
  full_at s h e (step {u} {v} w edge) =
      ground (arith, full_at s h e w, h.closed u v, ap (contains u) e)

  pub grow-Spanning :
      (fuel : ℕ) (parent : Dict (Option String))
      → grow fuel adj (search_start leader) ≡ ok parent
      → Spanning parent
  grow-Spanning fuel parent ends =
      let s : Search = record { parent = parent; pending = [] } in
      let h : Inv s =
        grow_rule Inv (λ s u rest e h. unfold popped in Inv-next s u rest e h) fuel
          (search_start leader) parent Inv-start ends in
      record {
        root = h.root;
        only_root = h.only_root;
        sound = h.sound;
        full = λ v w. full_at s h refl w;
        edges = h.edges;
        distinct = h.distinct;
      }

  pub search_returns :
      (parent : Dict (Option String)) × (grow (rounds adj) adj (search_start leader) ≡ ok parent)
  unfolding search_start
  search_returns =
      grow_ends (rounds adj) adj (search_start leader)
        (omega (arith, unseen-le-length (search_start leader) (flatten (values adj))))
