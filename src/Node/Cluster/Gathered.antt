-- ===== src/Node/Cluster/Gathered.antt =====
-- What a call at the root of a tree returns: every payload of the tree, or an error.
use mini2_anu_asim.Prelude.{
  ℕ, suc, ◌≡◌, refl, sym, ap, ◌∙◌, String, ◌<>◌, Bool, true, false, ◌&&◌, List, [], ◌∷◌, ◌++◌,
  arith, flatten, append-nil, inl, inr, ◌⊎◌, Bool-cases,
}
use mini2_anu_asim.Node.Servicer.{
  Query, Segment, Status, internal, replied, rpc_error, Servicer, Outcome, mark_last, own_segment,
}
use mini2_anu_asim.Node.Servicer.Fetches.{
  Answers, done, next, Fails, failed, later, fetch_replies, fetch-Fails,
}
use mini2_anu_asim.Node.Cluster.{
  Tree, Forest, node, unreachable, nil, cons, tree_id, answer_of, servicer_of, call, stubs_of,
}

-- Every node of the tree can be reached.
unfoldable mutual
  pub is_up : Tree → Bool
  is_up (node id payload kids) = are_up kids
  is_up (unreachable id details) = false

  pub are_up : Forest → Bool
  are_up nil = true
  are_up (cons t kids) = is_up t && are_up kids

abbrev pub is_nil : Forest → Bool
is_nil nil = true
is_nil (cons t kids) = false

-- The payloads from the root down, a node before its children; a segment is marked as the last one
-- exactly if its node has no children.
unfoldable mutual
  pub preorder : Tree → List Segment
  preorder (node id payload kids) =
      record { payload = payload; last = is_nil kids } ∷ flatten (preorders kids)
  preorder (unreachable id details) = []

  pub preorders : Forest → List (List Segment)
  preorders nil = []
  preorders (cons t kids) = preorder t ∷ preorders kids

pub and_left : (a b : Bool) → (a && b) ≡ true → a ≡ true
and_left a b h = ground arith

pub and_right : (a b : Bool) → (a && b) ≡ true → b ≡ true
and_right a b h = ground arith

-- The final segment is marked.
abbrev EndsMarked : List Segment → Type 0
EndsMarked [] = ⊥
EndsMarked (s ∷ []) = s.last ≡ true
EndsMarked (s ∷ t ∷ rest) = EndsMarked (t ∷ rest)

mark_last_kept : (segments : List Segment) → EndsMarked segments → mark_last segments ≡ segments
unfolding mark_last
mark_last_kept [] h = absurd h
mark_last_kept (s ∷ []) h = λ i. record s { last = sym h i } ∷ []
mark_last_kept (s ∷ t ∷ rest) h = ap (λ r. s ∷ r) (mark_last_kept (t ∷ rest) h)

EndsMarked-append : (xs ys : List Segment) → EndsMarked ys → EndsMarked (xs ++ ys)
EndsMarked-append [] ys h = h
EndsMarked-append (x ∷ []) [] h = absurd h
EndsMarked-append (x ∷ []) (y ∷ ys) h = h
EndsMarked-append (x ∷ z ∷ xs) ys h = EndsMarked-append (z ∷ xs) ys h

ends_behind :
    (segments : List Segment) (rest : Forest)
    → EndsMarked segments
    → (is_nil rest ≡ false → EndsMarked (flatten (preorders rest)))
    → EndsMarked (segments ++ flatten (preorders rest))
unfolding preorder
ends_behind segments nil h k = rw append-nil h
ends_behind segments (cons t rest) h k =
    EndsMarked-append segments (flatten (preorders (cons t rest))) (k refl)

root_ends :
    (id : String) (payload : List ℕ) (kids : Forest)
    → (is_nil kids ≡ false → EndsMarked (flatten (preorders kids)))
    → EndsMarked (preorder (node id payload kids))
unfolding preorder
root_ends id payload nil k = refl
root_ends id payload (cons t kids) k =
    EndsMarked-append (own_segment payload ∷ []) (flatten (preorders (cons t kids))) (k refl)

mutual
  unfolding is_up preorder

  tree_ends : (t : Tree) → is_up t ≡ true → EndsMarked (preorder t)
  tree_ends (node id payload kids) h = root_ends id payload kids (λ n. forest_ends kids h n)
  tree_ends (unreachable id details) h = absurd (cc)

  forest_ends :
      (kids : Forest)
      → are_up kids ≡ true
      → is_nil kids ≡ false
      → EndsMarked (flatten (preorders kids))
  forest_ends nil h n = absurd (cc)
  forest_ends (cons t kids) h n =
      ends_behind (preorder t) kids (tree_ends t (and_left (is_up t) (are_up kids) h))
        (λ m. forest_ends kids (and_right (is_up t) (are_up kids) h) m)

-- Marking the last segment of what the root gathers gives the segments of the tree.
marked_root :
    (id : String) (payload : List ℕ) (kids : Forest)
    → are_up kids ≡ true
    → mark_last (own_segment payload ∷ flatten (preorders kids)) ≡ preorder (node id payload kids)
unfolding mark_last preorder
marked_root id payload nil h = refl
marked_root id payload (cons t kids) h =
    mark_last_kept (own_segment payload ∷ flatten (preorders (cons t kids))) (
      EndsMarked-append (own_segment payload ∷ []) (flatten (preorders (cons t kids)))
        (forest_ends (cons t kids) h refl))

mutual
  unfolding is_up preorder call

  pub call_up : (t : Tree) (q : Query) → is_up t ≡ true → call t q ≡ replied (preorder t)
  call_up (node id payload kids) q h =
      ap (λ (o : Outcome × Servicer). answer_of o.0)
        (fetch_replies (λ _. true) 0 q (servicer_of id payload (stubs_of kids)) (preorders kids)
          (calls_up kids q 0 h))
      ∙ ap replied (marked_root id payload kids h)
  call_up (unreachable id details) q h = absurd (cc)

  calls_up :
      (kids : Forest) (q : Query) (k : ℕ)
      → are_up kids ≡ true
      → Answers (λ _. true) q k (stubs_of kids) (preorders kids)
  calls_up nil q k h = done
  calls_up (cons t kids) q k h =
      next refl (call_up t q (and_left (is_up t) (are_up kids) h))
        (calls_up kids q (suc k) (and_right (is_up t) (are_up kids) h))

-- A failure below, behind a child that replies.
later-Fails :
    (q : Query) (k : ℕ) (t : Tree) (kids : Forest)
    → is_up t ≡ true
    → ((code : Status) × (message : String) × Fails
          (λ _. true)
          q
          (suc k)
          (stubs_of kids)
          code
          message)
    → (code : Status) × (message : String) × Fails
        (λ _. true)
        q
        k
        (stubs_of (cons t kids))
        code
        message
unfolding call
later-Fails q k t kids h (code, message, w) = (code, message, later refl (call_up t q h) w)

mutual
  unfolding is_up call

  call_down :
      (t : Tree) (q : Query) → is_up t ≡ false → (details : String) × (call t q ≡ rpc_error details)
  call_down (node id payload kids) q h =
      let (code, message, w) = calls_down kids q 0 h in
      (
        message,
        ap (λ (o : Outcome × Servicer). answer_of o.0)
            (fetch-Fails (λ _. true) 0 q (servicer_of id payload (stubs_of kids)) code message w),
      )
  call_down (unreachable id details) q h = (details, refl)

  calls_down :
      (kids : Forest) (q : Query) (k : ℕ)
      → are_up kids ≡ false
      → (code : Status) × (message : String) × Fails (λ _. true) q k (stubs_of kids) code message
  calls_down nil q k h = absurd (cc)
  calls_down (cons t kids) q k h = elim (Bool-cases (is_up t)) [
    | inl up ↦ later-Fails q k t kids up (calls_down kids q (suc k) (ground arith))
    | inr down ↦
        let (details, e) = call_down t q down in
        (internal, "child fetch failed: " <> tree_id t <> ": " <> details, failed refl e)
  ]

-- A call at the root of a tree either returns the payloads of all its nodes, from the root down, a
-- node before its children and each once; or, if one node is out of reach, it raises an `RpcError`,
-- and no part of the result is returned.
pub call_all_or_nothing :
    (t : Tree) (q : Query)
    → ((is_up t ≡ true) × (call t q ≡ replied (preorder t)))
      ⊎ ((is_up t ≡ false) × (details : String) × (call t q ≡ rpc_error details))
call_all_or_nothing t q = elim (Bool-cases (is_up t)) [
  | inl up ↦ inl (up, call_up t q up)
  | inr down ↦ let (details, e) = call_down t q down in inr (down, details, e)
]
