-- ===== src/Node/Servicer/Fetches.antt =====
-- `Fetch` on every branch: all children answer, or it aborts and leaves the state alone.
use mini2_anu_asim.Prelude.{
  ℕ, suc, ◌+◌, ◌≡◌, refl, sym, ap, ◌∙◌, String, ◌<>◌, Bool, true, false, List, [], ◌∷◌, ◌++◌,
  append-nil, append_assoc, flatten, Bool-cases, inl, inr, ◌⊎◌,
}
use mini2_anu_asim.Node.Servicer.{
  Query, Segment, Status, cancelled, internal, Answer, replied, rpc_error, Stub, Servicer, reply,
  abort, gather, mark_last, own_segment, finish_fetch, fetch,
}

module _ (active : ℕ → Bool) (q : Query) where
  -- From the child number `k` on, the call is active before each child, and each child replies.
  pub data Answers : ℕ → List Stub → List (List Segment) → Type 0 where
    done : {k : ℕ} → Answers k [] []
    next :
        {k : ℕ} {stub : Stub} {stubs : List Stub} {more : List Segment} {rest : List (List Segment)}
        → active k ≡ true
        → stub.fetch q ≡ replied more
        → Answers (suc k) stubs rest
        → Answers k (stub ∷ stubs) (more ∷ rest)

  -- The first child, from the number `k` on, before which the call is cancelled, or which fails; with
  -- the status and the message of the abort.
  pub data Fails : ℕ → List Stub → Status → String → Type 0 where
    stopped :
        {k : ℕ} {stub : Stub} {stubs : List Stub}
        → active k ≡ false
        → Fails k (stub ∷ stubs) cancelled "upstream cancelled"
    failed :
        {k : ℕ} {stub : Stub} {stubs : List Stub} {details : String}
        → active k ≡ true
        → stub.fetch q ≡ rpc_error details
        → Fails k (stub ∷ stubs) internal ("child fetch failed: " <> stub.id <> ": " <> details)
    later :
        {k : ℕ} {stub : Stub} {stubs : List Stub} {more : List Segment} {code : Status}
        {message : String}
        → active k ≡ true
        → stub.fetch q ≡ replied more
        → Fails (suc k) stubs code message
        → Fails k (stub ∷ stubs) code message

  gather-Answers :
      {k : ℕ} {stubs : List Stub} {answers : List (List Segment)}
      → Answers k stubs answers
      → (segments : List Segment)
      → gather active q k stubs segments ≡ reply (segments ++ flatten answers)
  unfolding gather
  gather-Answers done segments = ap reply (sym (append-nil segments))
  gather-Answers (next {more} {rest} a e w) segments =
      rw (a, e, gather)
        (gather-Answers w (segments ++ more) ∙ ap reply (append_assoc segments more (flatten rest)))

  gather-Fails :
      {k : ℕ} {stubs : List Stub} {code : Status} {message : String}
      → Fails k stubs code message
      → (segments : List Segment) → gather active q k stubs segments ≡ abort code message
  unfolding gather
  gather-Fails (stopped a) segments = rw (a, gather) refl
  gather-Fails (failed a e) segments = rw (a, e, gather) refl
  gather-Fails (later {more} a e w) segments = rw (a, e, gather) (gather-Fails w (segments ++ more))

  -- Either all children answer, or there is a first failure.
  answers_or_Fails :
      (k : ℕ) (stubs : List Stub)
      → ((answers : List (List Segment)) × Answers k stubs answers)
        ⊎ ((code : Status) × (message : String) × Fails k stubs code message)
  answers_or_Fails k [] = inl ([], done)
  answers_or_Fails k (stub ∷ stubs) = elim (Bool-cases (active k)) [
    | inr a ↦ inr (cancelled, "upstream cancelled", stopped a)
    | inl a ↦ by_answer a (stub.fetch q) refl (answers_or_Fails (suc k) stubs)
  ]
    where
      by_answer :
          active k ≡ true
          → (r : Answer) → stub.fetch q ≡ r
          → ((answers : List (List Segment)) × Answers (suc k) stubs answers)
            ⊎ ((code : Status) × (message : String) × Fails (suc k) stubs code message)
          → ((answers : List (List Segment)) × Answers k (stub ∷ stubs) answers)
            ⊎ ((code : Status) × (message : String) × Fails k (stub ∷ stubs) code message)
      by_answer a (rpc_error details) e rest = inr (internal, _, failed a e)
      by_answer a (replied more) e (inl (answers, w)) = inl (more ∷ answers, next a e w)
      by_answer a (replied more) e (inr (code, message, w)) = inr (code, message, later a e w)

-- The counters after a call that took `dt`.
abbrev pub counted : ℕ → Servicer → Servicer
counted dt s = record s { req_count = s.req_count + 1; total_ns = s.total_ns + dt }

module _ (active : ℕ → Bool) (dt : ℕ) (q : Query) (s : Servicer) where
  pub fetch_replies :
      (answers : List (List Segment))
      → Answers active q 0 s.child_stubs answers
      → fetch active dt q s
        ≡ (reply (mark_last (own_segment s.payload ∷ flatten answers)), counted dt s)
  unfolding fetch finish_fetch
  fetch_replies answers w =
      ap (finish_fetch dt s) (gather-Answers active q w (own_segment s.payload ∷ []))

  pub fetch-Fails :
      (code : Status) (message : String)
      → Fails active q 0 s.child_stubs code message
      → fetch active dt q s ≡ (abort code message, s)
  unfolding fetch finish_fetch
  fetch-Fails code message w =
      ap (finish_fetch dt s) (gather-Fails active q w (own_segment s.payload ∷ []))

  -- `Fetch` ends in one of two ways. If the call is active before each child and each child replies,
  -- the reply holds the node's own segment and then those of the children, in their order, the last
  -- one marked, and the call is counted. Otherwise it aborts with the status and the message of the
  -- first failure, whatever the earlier children replied, and the state stays as it was.
  pub fetch_all_or_nothing :
      ((answers : List (List Segment)) × Answers active q 0 s.child_stubs answers
        × (fetch active dt q s
            ≡ (reply (mark_last (own_segment s.payload ∷ flatten answers)), counted dt s)))
      ⊎ ((code : Status) × (message : String) × Fails active q 0 s.child_stubs code message
          × (fetch active dt q s ≡ (abort code message, s)))
  fetch_all_or_nothing = elim (answers_or_Fails active q 0 s.child_stubs) [
    | inl (answers, w) ↦ inl (answers, w, fetch_replies answers w)
    | inr (code, message, w) ↦ inr (code, message, w, fetch-Fails code message w)
  ]
