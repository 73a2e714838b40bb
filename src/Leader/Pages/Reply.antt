-- ===== src/Leader/Pages/Reply.antt =====
-- The page that the leader sends for an offset within the payload.
use mini2_anu_asim.Prelude.{
  ℕ, ◌+◌, ◌*◌, ◌/◌, ◌≤◌, ◌<◌, ◌≡◌, refl, sym, ap, true, false, not, ◌&&◌, List, [], ◌∷◌, arith, ltb,
  leb, length, take, drop, ◌⊎◌, inl, inr, Bool-cases,
}
use mini2_anu_asim.Prelude.Int.{ℤ, pos}
use mini2_anu_asim.Rpc.{AggregatedReply}
use mini2_anu_asim.Leader.Pages.{
  chunk_bytes, page_end, page, slice, paginate, paged, max_chunk_bytes, int_bound,
}
use mini2_anu_asim.Leader.Pages.Progress.{
  chunk_bytes_bounds, page_end_bounds, page_end_full, length-slice,
}

pub paginate_lem :
    (start chunk : ℕ) (full : List ℕ)
    → length full < int_bound
    → start + chunk < int_bound
    → paginate (pos start) chunk full ≡ paged (page start (page_end start chunk (length full)) full)
unfolding paginate
paginate_lem start chunk full h k =
    let e : (ltb (length full) int_bound && ltb (start + chunk) int_bound) ≡ true = ground arith in
    rw e refl

-- A page with one segment of `bytes`, which begins at `start`.
pub record IsPage (full : List ℕ) (start chunk : ℕ) (r : AggregatedReply) (bytes : List ℕ)
    : Type 0 where
  pub only : r.segments ≡ record { payload = bytes; last = not r.has_more } ∷ []
  pub found : bytes ≡ take (length bytes) (drop start full)
  pub some_bytes : 0 < length bytes
  pub fits : length bytes ≤ chunk
  pub complete_iff : r.complete ≡ not r.has_more
  pub ends :
      ((r.has_more ≡ true)
        × (r.next_offset ≡ pos (start + length bytes))
        × (length bytes ≡ chunk / 20 * 20))
      ⊎ ((r.has_more ≡ false) × (start + length bytes ≡ length full))

module _ (start chunk : ℕ) (full : List ℕ) where
  page-IsPage :
      20 ≤ chunk
      → start < length full
      → IsPage full start chunk
          (page start (page_end start chunk (length full)) full)
          (slice start (page_end start chunk (length full)) full)
  unfolding page
  page-IsPage wide h =
      let stop = page_end start chunk (length full) in
      let (low, high, near) = page_end_bounds start chunk (length full) wide h in
      let size = length-slice start stop full (omega arith) high in
      let inside : ltb start (length full) ≡ true = ground arith in
      let shut : leb (length full) stop ≡ not (ltb stop (length full)) = ground arith in
      record {
        only = rw (inside, shut) refl;
        found = ap (λ n. take n (drop start full)) (sym size);
        some_bytes = omega (arith, size);
        fits = omega (arith, size);
        complete_iff = ground arith;
        ends = elim (Bool-cases (ltb stop (length full))) [
          | inl e ↦
              let whole = page_end_full start chunk (length full) wide (ground arith) in
              let reached : stop ≡ start + length (slice start stop full) = omega (arith, size) in
              inl (e, rw e (ap pos reached), omega (arith, size, whole))
          | inr e ↦ inr (e, ground (arith, size))
        ];
      }

-- At an offset within a payload that is smaller by a megabyte than an `int` can count, the leader
-- sends one segment: the bytes from the offset on, at least one and no more than the chunk size that
-- it uses, which lies between a record and a megabyte. Either more follows, and then the page holds whole records, as many as fit,
-- and the next offset is where it ends; or the page ends with the payload, and says so.
pub paginate-IsPage :
    (start : ℕ) (size : ℤ) (full : List ℕ)
    → length full + max_chunk_bytes < int_bound
    → start < length full
    → (r : AggregatedReply) × (bytes : List ℕ) × (paginate (pos start) (chunk_bytes size) full
        ≡ paged r)
      × (20 ≤ chunk_bytes size)
      × (chunk_bytes size ≤ max_chunk_bytes)
      × IsPage full start (chunk_bytes size) r bytes
paginate-IsPage start size full small h =
    let (wide, narrow) = chunk_bytes_bounds size in
    (
      _,
      _,
      paginate_lem start (chunk_bytes size) full (omega arith) (omega arith),
      wide,
      narrow,
      page-IsPage start (chunk_bytes size) full wide h,
    )
