-- ===== src/Leader/Handler/Closing.antt =====
-- How `QueryOnce` leaves the queue and the cache.
use mini2_anu_asim.Prelude.{
  ℕ, ◌<◌, ◌≡◌, refl, ap, sym, subst, ◌∙◌, ◌+◌, String, Bool, true, false, List, arith, ltb, length,
  inl, inr, Bool-cases,
}
use mini2_anu_asim.Prelude.Int.{pos, negsuc}
use mini2_anu_asim.Node.Servicer.{Query}
use mini2_anu_asim.Rpc.{AggregatedReply}
use mini2_anu_asim.Leader.Queue.{release}
use mini2_anu_asim.Leader.Pages.{
  paged, out_of_range, paginate, chunk_bytes, int_bound, max_chunk_bytes,
}
use mini2_anu_asim.Leader.Pages.Progress.{chunk_bytes_bounds}
use mini2_anu_asim.Leader.Pages.Reply.{paginate_lem}
use mini2_anu_asim.Leader.Handler.{
  Leader, Fetched, fetched, failed, fetch_or_cache, Ending, uncaught, counted, evict_done,
  send_page, answer_query, query_once,
}

fetch_or_cache-queue :
    (now : ℕ) (q : Query) (l : Leader) → (fetch_or_cache now q l).1.queue ≡ l.queue
unfolding fetch_or_cache
fetch_or_cache-queue now q l = ground arith

paginate_negative :
    (n chunk : ℕ) (full : List ℕ)
    → length full < int_bound
    → paginate (negsuc n) chunk full ≡ out_of_range
unfolding paginate
paginate_negative n chunk full h =
    let e : ltb (length full) int_bound ≡ true = ground arith in rw e refl

evict_done-queue :
    (id : String) (r : AggregatedReply) (l : Leader) → (evict_done id r l).queue ≡ l.queue
unfolding evict_done
evict_done-queue id r l = elim (Bool-cases r.has_more) [ inl e ↦ rw e refl | inr e ↦ rw e refl ]

-- The wait of the next client ends.
abbrev pub Closed : Query → Leader → Ending × Leader → Type 0
Closed q l out = out.1.queue ≡ release q.client_id l.queue

module _ (now dt : ℕ) (q : Query) (l : Leader) where
  paged-Closed :
      (r : AggregatedReply) (l' : Leader)
      → l'.queue ≡ l.queue
      → Closed q l (send_page dt q (paged r) l')
  unfolding send_page
  paged-Closed r l' same =
      ap (release q.client_id) (evict_done-queue q.request_id r (counted dt l') ∙ same)

  send_page-Closed :
      (start : ℕ) (full : List ℕ) (l' : Leader)
      → q.offset ≡ pos start
      → length full < int_bound
      → start + max_chunk_bytes < int_bound
      → l'.queue ≡ l.queue
      → Closed q l (send_page dt q (paginate q.offset (chunk_bytes q.chunk_size) full) l')
  send_page-Closed start full l' o h k same =
      let narrow = (chunk_bytes_bounds q.chunk_size).1 in
      let c = chunk_bytes q.chunk_size in
      let e = ap (λ z. paginate z c full) o ∙ paginate_lem start c full h (omega arith) in
      subst (λ p. Closed q l (send_page dt q p l')) (sym e) (paged-Closed _ l' same)

  answer_query-Closed :
      (start : ℕ) (out : Fetched × Leader)
      → q.offset ≡ pos start
      → start + max_chunk_bytes < int_bound
      → ((full : List ℕ) → out.0 ≡ fetched full → length full < int_bound)
      → out.1.queue ≡ l.queue
      → Closed q l (answer_query dt q out)
  unfolding answer_query
  answer_query-Closed start (failed message, l') o k small same = ap (release q.client_id) same
  answer_query-Closed start (fetched full, l') o k small same =
      send_page-Closed start full l' o (small full refl) k same

  -- Whether the client has gone, a child fails, or a page is sent: `QueryOnce` releases the queue, if
  -- the offset is not negative and a megabyte below the range of `int`, and the payload is within it.
  pub query_once_closes :
      (gone : Bool) (start : ℕ)
      → q.offset ≡ pos start
      → start + max_chunk_bytes < int_bound
      → ((full : List ℕ) → (fetch_or_cache now q l).0 ≡ fetched full → length full < int_bound)
      → (query_once gone now dt q l).1.queue ≡ release q.client_id l.queue
  unfolding query_once
  query_once_closes true start o k small = refl
  query_once_closes false start o k small =
      answer_query-Closed start (fetch_or_cache now q l) o k small (fetch_or_cache-queue now q l)

  -- At a negative offset, where the client has not gone and the payload is in the cache or can be
  -- gathered, and is within the range of `int`, `QueryOnce` leaves by an exception, and the queue is
  -- not released.
  pub negative_offset_escapes :
      (n : ℕ) (full : List ℕ)
      → q.offset ≡ negsuc n
      → (fetch_or_cache now q l).0 ≡ fetched full
      → length full < int_bound
      → ((query_once false now dt q l).0 ≡ uncaught)
        × ((query_once false now dt q l).1.queue ≡ l.queue)
  unfolding query_once answer_query send_page
  negative_offset_escapes n full o h k =
      escapes (fetch_or_cache now q l) h (fetch_or_cache-queue now q l)
    where
      escapes :
          (out : Fetched × Leader)
          → out.0 ≡ fetched full
          → out.1.queue ≡ l.queue
          → ((answer_query dt q out).0 ≡ uncaught) × ((answer_query dt q out).1.queue ≡ l.queue)
      escapes (failed message, l') e same = absurd (cc)
      escapes (fetched bytes, l') e same =
          let c = chunk_bytes q.chunk_size in
          let whole : bytes ≡ full = cc in
          let range : length bytes < int_bound = omega (arith, ap length whole) in
          let p = ap (λ z. paginate z c bytes) o ∙ paginate_negative n c bytes range in
          subst
            (λ r. ((send_page dt q r l').0 ≡ uncaught) × ((send_page dt q r l').1.queue ≡ l.queue))
            (sym p) (refl, same)
