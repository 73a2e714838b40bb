-- ===== src/Leader/Handler/Truthful.antt =====
-- The cache holds nothing but what the children gave, whether calls fail or not, and a call that ends
-- with an error status has changed nothing but the queue.
use mini2_anu_asim.Prelude.{
  ◌∙◌, arith, ℕ, ◌≡◌, refl, sym, ap, String, Bool, true, false, none, List, All, Option-cases,
  Bool-cases, ◌⊎◌, inl, inr,
}
use mini2_anu_asim.Prelude.Dict.{get, set, All-get, All-set, All-erase}
use mini2_anu_asim.Node.Servicer.{Query, Status, cancelled, internal}
use mini2_anu_asim.Rpc.{AggregatedReply}
use mini2_anu_asim.Leader.Pages.{Paged, paged, out_of_range, int_overflow, paginate, chunk_bytes}
use mini2_anu_asim.Leader.Handler.{
  Leader, Fetched, fetched, failed, gather_from_children, fetch_or_cache, Ending, replied_page,
  error_status, released, evict_done, counted, send_page, answer_query, query_once,
}
use mini2_anu_asim.Leader.Handler.Coherent.{IsFull}

module _ (full : List ℕ) where
  -- Where gathering from the children succeeds it gives this payload, and every entry of the cache
  -- holds it.
  pub record IsTruthful (l : Leader) : Type 0 where
    pub gathers :
        (q : Query) (bytes : List ℕ)
        → gather_from_children q l.child_stubs ≡ fetched bytes
        → bytes ≡ full
    pub entries : All (IsFull full) l.cache

  -- What was fetched is the payload, if anything was.
  abbrev IsFetched : Fetched → Type 0
  IsFetched (fetched bytes) = bytes ≡ full
  IsFetched (failed message) = Unit

  fetch_or_cache-IsTruthful :
      (now : ℕ) (q : Query) (l : Leader)
      → IsTruthful l
      → IsFetched (fetch_or_cache now q l).0 × IsTruthful (fetch_or_cache now q l).1
  unfolding fetch_or_cache
  fetch_or_cache-IsTruthful now q l c = elim (Option-cases (get q.request_id l.cache)) [
    | inl e ↦ rw (e, fetch_or_cache) (gathered (gather_from_children q l.child_stubs) (c.gathers q))
    | inr (entry, e) ↦
        let p = All-get (IsFull full) q.request_id entry l.cache c.entries e in
        rw (e, fetch_or_cache)
          (
            p,
            record {
              gathers = c.gathers;
              entries = All-set (IsFull full) q.request_id _ l.cache p c.entries;
            },
          )
  ]
    where
      keep : Fetched → Fetched × Leader
      keep (failed message) = (failed message, l)
      keep (fetched payload) = (
        fetched payload,
        record l {
          cache = set q.request_id (record { payload = payload; last_touched = now }) l.cache;
        },
      )

      gathered :
          (out : Fetched)
          → ((bytes : List ℕ) → out ≡ fetched bytes → bytes ≡ full)
          → IsFetched (keep out).0 × IsTruthful (keep out).1
      gathered (failed message) h = (tt, c)
      gathered (fetched payload) h =
          let p = h payload refl in
          (
            p,
            record {
              gathers = c.gathers;
              entries = All-set (IsFull full) q.request_id _ l.cache p c.entries;
            },
          )

  evict_done-IsTruthful :
      (id : String) (r : AggregatedReply) (l : Leader)
      → IsTruthful l
      → IsTruthful (evict_done id r l)
  unfolding evict_done
  evict_done-IsTruthful id r l c = elim (Bool-cases r.has_more) [
    | inl more ↦ rw more c
    | inr last ↦ rw last (record {
      gathers = c.gathers;
      entries = All-erase (IsFull full) (IsFull full) id l.cache (λ j v _ p. p) c.entries;
    })
  ]

  -- A page that is sent is a page of the payload.
  abbrev IsAnswer : Query → Ending × Leader → Type 0
  IsAnswer q (ending, l) =
      IsTruthful l
      × ((r : AggregatedReply)
          → ending ≡ replied_page r
          → paginate q.offset (chunk_bytes q.chunk_size) full ≡ paged r)

  send_page-IsAnswer :
      (dt : ℕ) (q : Query) (p : Paged) (l : Leader)
      → paginate q.offset (chunk_bytes q.chunk_size) full ≡ p
      → IsTruthful l
      → IsAnswer q (send_page dt q p l)
  unfolding send_page
  send_page-IsAnswer dt q (paged r) l h c =
      let kept =
        evict_done-IsTruthful q.request_id r (counted dt l)
          (record { gathers = c.gathers; entries = c.entries }) in
      (record { gathers = kept.gathers; entries = kept.entries }, λ r' e. cc)
  send_page-IsAnswer dt q out_of_range l h c = (c, λ r' e. absurd cc)
  send_page-IsAnswer dt q int_overflow l h c = (c, λ r' e. absurd cc)

  answer_query-IsAnswer :
      (dt : ℕ) (q : Query) (out : Fetched × Leader)
      → IsFetched out.0
      → IsTruthful out.1
      → IsAnswer q (answer_query dt q out)
  unfolding answer_query
  answer_query-IsAnswer dt q (failed message, l) h c =
      (record { gathers = c.gathers; entries = c.entries }, λ r e. absurd cc)
  answer_query-IsAnswer dt q (fetched bytes, l) h c =
      let chunk = chunk_bytes q.chunk_size in
      send_page-IsAnswer dt q (paginate q.offset chunk bytes) l
        (ap (paginate q.offset chunk) (sym h)) c

  -- Let gathering from the children give one payload wherever it succeeds, and let every entry of the
  -- cache hold it. Then this is still so behind a call of `QueryOnce`, whatever it asks for, whether
  -- the children answer or fail, and however it ends; and a reply is the page of that payload.
  pub query_once-IsTruthful :
      (gone : Bool) (now dt : ℕ) (q : Query) (l : Leader)
      → IsTruthful l
      → IsTruthful (query_once gone now dt q l).1
        × ((r : AggregatedReply)
            → (query_once gone now dt q l).0 ≡ replied_page r
            → paginate q.offset (chunk_bytes q.chunk_size) full ≡ paged r)
  unfolding query_once
  query_once-IsTruthful true now dt q l c =
      (record { gathers = c.gathers; entries = c.entries }, λ r e. absurd cc)
  query_once-IsTruthful false now dt q l c =
      let (is, kept) = fetch_or_cache-IsTruthful now q l c in
      answer_query-IsAnswer dt q (fetch_or_cache now q l) is kept

module _ (now dt : ℕ) (q : Query) (l : Leader) (s : Status) (message : String) where
  -- Why `QueryOnce` ends with a status other than OK.
  abbrev pub Stopped : Bool → Type 0
  Stopped gone =
      ((gone ≡ true) × (s ≡ cancelled))
      ⊎ ((gone ≡ false)
          × (s ≡ internal)
          × (get q.request_id l.cache ≡ none)
          × (gather_from_children q l.child_stubs ≡ failed message))

  no_status {ℓ} :
      (X : Type ℓ) (p : Paged) (l' : Leader) → (send_page dt q p l').0 ≡ error_status s message → X
  unfolding send_page
  no_status X (paged r) l' h = absurd cc
  no_status X out_of_range l' h = absurd cc
  no_status X int_overflow l' h = absurd cc

  answer_query-failed :
      (out : Fetched × Leader)
      → (answer_query dt q out).0 ≡ error_status s message
      → (s ≡ internal)
        × (out.0 ≡ failed message)
        × ((answer_query dt q out).1 ≡ released q.client_id out.1)
  unfolding answer_query
  answer_query-failed (failed m, l') h = (cc, cc, refl)
  answer_query-failed (fetched bytes, l') h =
      no_status _ (paginate q.offset (chunk_bytes q.chunk_size) bytes) l' h

  fetch_or_cache-failed :
      (fetch_or_cache now q l).0 ≡ failed message
      → (get q.request_id l.cache ≡ none)
        × (gather_from_children q l.child_stubs ≡ failed message)
        × ((fetch_or_cache now q l).1 ≡ l)
  unfolding fetch_or_cache
  fetch_or_cache-failed h = ground arith

  -- If `QueryOnce` ends with an error status, then it has released the queue and changed nothing else:
  -- no failure is cached and no request counted. Either the client had gone, and the status is
  -- `CANCELLED`; or the cache had no payload of the request and gathering failed with this message, and
  -- the status is `INTERNAL`.
  pub error_changes_nothing :
      (gone : Bool)
      → (query_once gone now dt q l).0 ≡ error_status s message
      → ((query_once gone now dt q l).1 ≡ released q.client_id l) × Stopped gone
  unfolding query_once
  error_changes_nothing true h = (refl, inl (refl, cc))
  error_changes_nothing false h =
      let (kind, out, left) = answer_query-failed (fetch_or_cache now q l) h in
      let (missing, gathering, same) = fetch_or_cache-failed out in
      (left ∙ ap (released q.client_id) same, inr (refl, kind, missing, gathering))
