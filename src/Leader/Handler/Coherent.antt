-- ===== src/Leader/Handler/Coherent.antt =====
-- The cache holds what the children have, whatever calls and rounds of the reaper come.
use mini2_anu_asim.Prelude.{
  ℕ, ◌≡◌, refl, ap, String, Bool, true, false, List, [], ◌∷◌, All, Option-cases, Bool-cases, inl,
  inr, ltb, ◌-◌, ◌/◌,
}
use mini2_anu_asim.Prelude.Dict.{Dict, get, set, All-get, All-set, All-erase}
use mini2_anu_asim.Node.Servicer.{Query}
use mini2_anu_asim.Rpc.{AggregatedReply}
use mini2_anu_asim.Leader.Pages.{Paged, paged, out_of_range, int_overflow, paginate, chunk_bytes}
use mini2_anu_asim.Leader.Handler.{
  CacheEntry, Leader, fetched, gather_from_children, fetch_or_cache, replied_page, evict_done,
  counted, send_page, answer_query, query_once, fresh, reap,
}

module _ (full : List ℕ) where
  abbrev pub IsFull : String × CacheEntry → Type 0
  IsFull (id, e) = e.payload ≡ full

  All-fresh : (now : ℕ) (d : Dict CacheEntry) → All IsFull d → All IsFull (fresh now d)
  unfolding fresh
  All-fresh now [] h = tt
  All-fresh now ((j, v) ∷ d) h = elim (Bool-cases (ltb 30 ((now - v.last_touched) / 1000000000))) [
    | inl q ↦ rw q (All-fresh now d h.1)
    | inr q ↦ rw q (h.0, All-fresh now d h.1)
  ]

  -- The children give this payload to every query, and every entry of the cache holds it.
  pub record IsCoherent (l : Leader) : Type 0 where
    pub gathers : (q : Query) → gather_from_children q l.child_stubs ≡ fetched full
    pub entries : All IsFull l.cache

  pub fetch_or_cache-IsCoherent :
      (now : ℕ) (q : Query) (l : Leader)
      → IsCoherent l
      → (l' : Leader) × (fetch_or_cache now q l ≡ (fetched full, l'))
        × IsCoherent l'
        × (l'.queue ≡ l.queue)
  unfolding fetch_or_cache
  fetch_or_cache-IsCoherent now q l c = elim (Option-cases (get q.request_id l.cache)) [
    | inl e ↦
        rw (e, fetch_or_cache, c.gathers q)
          (
            _,
            refl,
            record {
              gathers = c.gathers;
              entries = All-set IsFull q.request_id _ l.cache refl c.entries;
            },
            refl,
          )
    | inr (entry, e) ↦
        let p = All-get IsFull q.request_id entry l.cache c.entries e in
        rw (e, fetch_or_cache)
          (
            _,
            ap (λ (bs : List ℕ). (fetched bs, touched l entry)) p,
            record {
              gathers = c.gathers;
              entries = All-set IsFull q.request_id _ l.cache p c.entries;
            },
            refl,
          )
  ]
    where
      touched : Leader → CacheEntry → Leader
      touched l entry = record l {
        cache = set q.request_id (record entry { last_touched = now }) l.cache;
      }

  evict_done-IsCoherent :
      (id : String) (r : AggregatedReply) (l : Leader)
      → IsCoherent l
      → IsCoherent (evict_done id r l)
  unfolding evict_done
  evict_done-IsCoherent id r l c = elim (Bool-cases r.has_more) [
    | inl more ↦ rw more c
    | inr done ↦ rw done (record {
      gathers = c.gathers;
      entries = All-erase IsFull IsFull id l.cache (λ j v _ p. p) c.entries;
    })
  ]

  send_page-IsCoherent :
      (dt : ℕ) (q : Query) (p : Paged) (l : Leader)
      → IsCoherent l
      → IsCoherent (send_page dt q p l).1
  unfolding send_page
  send_page-IsCoherent dt q (paged r) l c =
      let kept =
        evict_done-IsCoherent q.request_id r (counted dt l)
          (record { gathers = c.gathers; entries = c.entries }) in
      record { gathers = kept.gathers; entries = kept.entries }
  send_page-IsCoherent dt q out_of_range l c = c
  send_page-IsCoherent dt q int_overflow l c = c

  -- If the children give one payload to every query and every entry of the cache holds it, this is
  -- still so behind a call of `QueryOnce`, whatever it asks for and however it ends.
  pub query_once-IsCoherent :
      (gone : Bool) (now dt : ℕ) (q : Query) (l : Leader)
      → IsCoherent l
      → IsCoherent (query_once gone now dt q l).1
  unfolding query_once answer_query
  query_once-IsCoherent true now dt q l c = record { gathers = c.gathers; entries = c.entries }
  query_once-IsCoherent false now dt q l c =
      let (l', e, kept, _) = fetch_or_cache-IsCoherent now q l c in
      rw e (send_page-IsCoherent dt q (paginate q.offset (chunk_bytes q.chunk_size) full) l' kept)

  pub reap-IsCoherent : (now : ℕ) (l : Leader) → IsCoherent l → IsCoherent (reap now l)
  unfolding reap
  reap-IsCoherent now l c = record {
    gathers = c.gathers;
    entries = All-fresh now l.cache c.entries;
  }

  -- The reply is a page of the gathered payload, whether it comes from the cache or not.
  pub query_once_page :
      (now dt : ℕ) (q : Query) (l : Leader) (r : AggregatedReply)
      → IsCoherent l
      → paginate q.offset (chunk_bytes q.chunk_size) full ≡ paged r
      → (query_once false now dt q l).0 ≡ replied_page r
  unfolding query_once answer_query send_page
  query_once_page now dt q l r c h =
      let (l', e, _, _) = fetch_or_cache-IsCoherent now q l c in rw (e, h) refl
