-- ===== src/Client/Complete.antt =====
-- The client's loop against the leader: it ends, and it reads every record once.
use mini2_anu_asim.Prelude.{
  ℕ, zero, suc, ◌+◌, ◌-◌, ◌*◌, ◌/◌, ◌%◌, ◌≤◌, ◌<◌, ◌≡◌, refl, ap, ◌∙◌, true, false, List, [], ◌∷◌,
  ◌++◌, arith, ltb, length, drop, ◌⊎◌, inl, inr, All, some,
}
use native.Mathlib.Nat.{div-mul-le_self, lt-div-mul-add, zero-add, zero-div}
use mini2_anu_asim.Prelude.Int.{ℤ, pos}
use mini2_anu_asim.Struct.Layout.{read_records}
use mini2_anu_asim.Leader.Pages.{chunk_bytes, page_end, page, max_chunk_bytes, int_bound}
use mini2_anu_asim.Leader.Pages.Progress.{chunk_bytes_bounds, page_end_last}
use mini2_anu_asim.Leader.Pages.Reply.{paginate_lem}
use mini2_anu_asim.Leader.Handler.{Leader, Ending, replied_page, query_once, call_once}
use mini2_anu_asim.Leader.Handler.Coherent.{query_once_page}
use mini2_anu_asim.Leader.Handler.Ready.{
  IsInRange, IsReady, entered, entered-IsCoherent, call_once-entered, query_once-IsReady,
  reap-IsReady,
}
use mini2_anu_asim.Client.{
  Event, other_call, reaper_round, happen, happen_all, Round, Tally, count_reply, summary, Request,
  query_at, client_loop, download,
}
use mini2_anu_asim.Client.Pages.{
  step, page_count, zero_or_pos, page_end_more, decode-last, counted_page,
}

-- A call that another client may make: its offset is in range.
abbrev pub Harmless : Event → Type 0
Harmless (other_call gone now dt q) = IsInRange q
Harmless (reaper_round now) = Unit

module _ (full : List ℕ) (small : length full < int_bound) where
  happen-IsReady :
      (e : Event) (l : Leader) → Harmless e → IsReady full l → IsReady full (happen e l)
  unfolding happen
  happen-IsReady (other_call gone now dt q) l h r =
      rw (call_once-entered full gone now dt q l r, happen)
        (query_once-IsReady full gone now dt q l small h r)
  happen-IsReady (reaper_round now) l h r = reap-IsReady full now l r

  happen_all-IsReady :
      (es : List Event) (l : Leader)
      → All Harmless es
      → IsReady full l
      → IsReady full (happen_all es l)
  unfolding happen_all
  happen_all-IsReady [] l h r = r
  happen_all-IsReady (e ∷ es) l h r =
      happen_all-IsReady es (happen e l) h.1 (happen-IsReady e l h.0 r)

module _ (full : List ℕ) (req : Request) (rounds : ℕ → Round)
    (harmless : (k : ℕ) → All Harmless (rounds k).events) where
  abbrev chunk : ℕ
  chunk = chunk_bytes req.chunk_size

  -- The leader when the client's next call is let in, and that call.
  abbrev before_call : ℕ → ℤ → Leader → Leader
  before_call k offset l = entered full (query_at req offset) (happen_all (rounds k).events l)

  abbrev call : ℕ → ℤ → Leader → Ending × Leader
  call k offset l =
      query_once false (rounds k).now (rounds k).dt (query_at req offset) (before_call k offset l)

  module _ (k start : ℕ) (l : Leader) (r : IsReady full l)
      (small : length full + max_chunk_bytes < int_bound) (h : start ≤ length full) where
    ready : IsReady full (happen_all (rounds k).events l)
    ready = happen_all-IsReady full (omega arith) (rounds k).events l (harmless k) r

    let_in_call :
        call_once false
          (rounds k).now
          (rounds k).dt
          (query_at req (pos start))
          (happen_all (rounds k).events l)
        ≡ some (call k (pos start) l)
    let_in_call =
        call_once-entered full false (rounds k).now (rounds k).dt (query_at req (pos start)) _ ready

    call-page :
        (call k (pos start) l).0
        ≡ replied_page (page start (page_end start chunk (length full)) full)
    call-page =
        let narrow = (chunk_bytes_bounds req.chunk_size).1 in
        query_once_page full (rounds k).now (rounds k).dt (query_at req (pos start)) _ _
          (entered-IsCoherent full (query_at req (pos start)) (happen_all (rounds k).events l)
            ready)
          (paginate_lem start chunk full (omega arith) (omega arith))

    call-IsReady : IsReady full (call k (pos start) l).1
    call-IsReady =
        query_once-IsReady full false (rounds k).now (rounds k).dt (query_at req (pos start)) _
          (omega arith) (start, refl, omega arith) ready

  module _ (fuel k start stop : ℕ) (t : Tally) (l : Leader)
      (let_in : call_once false
          (rounds k).now
          (rounds k).dt
          (query_at req (pos start))
          (happen_all (rounds k).events l)
        ≡ some (call k (pos start) l))
      (e : (call k (pos start) l).0 ≡ replied_page (page start stop full)) where
    round_more :
        stop < length full
        → client_loop (suc fuel) req rounds k (pos start) t l
          ≡ client_loop fuel req rounds
              (k + 1)
              (pos stop)
              (count_reply (page start stop full) t)
              (call k (pos start) l).1
    unfolding client_loop
    round_more h =
        let more : ltb stop (length full) ≡ true = ground arith in
        let has : (page start stop full).has_more ≡ true = unfold page in more in
        let next : (page start stop full).next_offset ≡ pos stop = unfold page in rw more refl in
        rw (let_in, e, client_loop) (rw (has, next) refl)

    round_last :
        length full ≤ stop
        → client_loop (suc fuel) req rounds k (pos start) t l
          ≡ summary (count_reply (page start stop full) t)
    unfolding client_loop
    round_last h =
        let done : ltb stop (length full) ≡ false = ground arith in
        let has : (page start stop full).has_more ≡ false = unfold page in done in
        rw (let_in, e, client_loop) (rw has refl)

  -- `n` more pages from `start` on.
  loop_ends :
      (n fuel k start : ℕ) (t : Tally) (l : Leader)
      → IsReady full l
      → length full + max_chunk_bytes < int_bound
      → length full % 20 ≡ 0
      → start % 20 ≡ 0
      → start ≤ length full
      → length full ≤ start + suc n * step chunk
      → (n ≡ 0) ⊎ (start + n * step chunk < length full)
      → n < fuel
      → client_loop fuel req rounds k (pos start) t l
        ≡ summary (record {
          records = t.records ++ read_records (drop start full);
          call_count = t.call_count + suc n;
        })
  loop_ends n zero k start t l r small w0 w1 h top bottom enough = absurd (omega arith)
  loop_ends zero (suc fuel) k start t l r small w0 w1 h top bottom enough =
      let wide = (chunk_bytes_bounds req.chunk_size).0 in
      let all = page_end_last start chunk (length full) wide (omega arith) h in
      let e =
        call-page k start l r small h ∙ ap (λ stop. replied_page (page start stop full)) all in
      round_last fuel k start (length full) t l (let_in_call k start l r small h) e (omega arith)
      ∙ ap (λ rs. summary (record { records = t.records ++ rs; call_count = t.call_count + 1 }))
          (decode-last start full h)
  loop_ends (suc n) (suc fuel) k start t l r small w0 w1 h top bottom enough =
      let s = step chunk in
      let wide = (chunk_bytes_bounds req.chunk_size).0 in
      let rows : suc n * s ≡ s + n * s = omega arith in
      let more : start + suc n * s < length full = ground arith in
      let stop = start + s in
      let ends = page_end_more start chunk (length full) wide w1 w0 (omega arith) in
      let e =
        call-page k start l r small h ∙ ap (λ stop. replied_page (page start stop full)) ends in
      round_more fuel k start stop t l (let_in_call k start l r small h) e (omega arith)
      ∙ (loop_ends n fuel (k + 1) stop (count_reply (page start stop full) t)
            (call k (pos start) l).1 (call-IsReady k start l r small h) small w0 (omega arith)
            (omega arith) (omega arith) (inr (omega arith)) (omega arith)
          ∙ counted_page full start stop t n (omega arith) (omega arith) (omega arith))

  -- Let the children of a leader give one payload of whole records to every query, let the leader's
  -- cache hold nothing else and its queue be empty, and let the payload be smaller by a megabyte than
  -- an `int` can count. Then the client's loop ends with its summary, whatever rounds of the reaper
  -- and calls with offsets in range come in between, and whichever chunk size it has chosen: it has
  -- read what the decoder reads from the payload as a whole, in as many calls as pages are needed. So
  -- many rounds are enough.
  pub download_reads :
      (fuel : ℕ) (l : Leader)
      → IsReady full l
      → length full + max_chunk_bytes < int_bound
      → length full % 20 ≡ 0
      → page_count chunk (length full) ≤ fuel
      → download fuel req rounds l
        ≡ summary
            (record { records = read_records full; call_count = page_count chunk (length full) })
  unfolding download page_count
  download_reads fuel l r small w enough =
      let s = step chunk in
      let wide = (chunk_bytes_bounds req.chunk_size).0 in
      let n = (length full - 1) / s in
      let low = div-mul-le_self (length full - 1) s in
      let high = lt-div-mul-add {a = length full - 1} {b = s} (omega arith) in
      let more : suc n * s ≡ n * s + s = omega arith in
      let below : (n ≡ 0) ⊎ (0 + n * s < length full) = elim (zero_or_pos (length full)) [
        | inl z ↦ inl (ap (λ t. (t - 1) / s) z ∙ zero-div s)
        | inr p ↦ inr (omega arith)
      ] in
      loop_ends n fuel 0 0 _ l r small w (omega arith) (omega arith) (omega arith) below
        (omega arith)
      ∙ ap (λ m. summary (record { records = read_records full; call_count = m }))
          (zero-add (suc n))
