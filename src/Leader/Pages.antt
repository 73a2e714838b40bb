-- ===== src/Leader/Pages.antt =====
-- The arithmetic of `QueryOnce`: the chunk size that is used, and the page of a payload that begins
-- at an offset. An `int` has 32 bits: where the size of the payload or a sum leaves its range, the
-- model gives no page and leaves the outcome open.
pub mod Progress
pub mod Reply
use Prim.Native.Nat.{min, max}
use mini2_anu_asim.Prelude.{
  ℕ, zero, suc, ◌+◌, ◌-◌, ◌*◌, ◌/◌, ◌^◌, Bool, ◌&&◌, List, [], ◌∷◌, ltb, leb, if◌then◌else◌, length,
  take, drop,
}
use mini2_anu_asim.Prelude.Int.{ℤ, pos, negsuc}
use mini2_anu_asim.Node.Servicer.{Segment}
use mini2_anu_asim.Rpc.{AggregatedReply}

abbrev pub default_chunk_bytes : ℕ
default_chunk_bytes = 128

abbrev pub record_size : ℕ
record_size = 20

abbrev pub max_chunk_bytes : ℕ
max_chunk_bytes = 1048576

abbrev pub int_bound : ℕ
int_bound = 2 ^ 31

-- The requested size if it is positive, or the default.
unfoldable pub requested : ℤ → ℕ
requested (pos zero) = default_chunk_bytes
requested (pos (suc n)) = suc n
requested (negsuc n) = default_chunk_bytes

-- `std::max(RECORD_SIZE, std::min(chunk_sz, MAX_CHUNK_BYTES))`.
unfoldable pub chunk_bytes : ℤ → ℕ
unfolding requested
chunk_bytes size = max record_size (min (requested size) max_chunk_bytes)

-- The end of the page: a page that is not the last ends behind a whole record.
unfoldable pub page_end : ℕ → ℕ → ℕ → ℕ
page_end start chunk total =
    let raw_end = min (start + chunk) total in
    let aligned = start + (raw_end - start) / record_size * record_size in
    if ltb raw_end total && ltb start aligned then aligned else raw_end

-- `full.substr(start, end - start)`.
abbrev pub slice {ℓ} : {A : Type ℓ} → ℕ → ℕ → List A → List A
slice start stop bytes = take (stop - start) (drop start bytes)

-- The reply for the page from `start` to `stop` of a payload.
unfoldable pub page : ℕ → ℕ → List ℕ → AggregatedReply
page start stop full =
    let total = length full in
    let more = ltb stop total in
    record {
      segments =
          if ltb start total
          then record { payload = slice start stop full; last = leb total stop } ∷ []
          else [];
      complete = if more then Bool.false else Bool.true;
      next_offset = if more then pos stop else negsuc 0;
      has_more = more;
    }

-- What the code behind the gathered payload comes to: a reply, the exception `std::out_of_range` of
-- `substr` at a negative position, or an `int` out of range.
pub data Paged : Type 0 where
  paged : AggregatedReply → Paged
  out_of_range : Paged
  int_overflow : Paged

unfoldable pub paginate : ℤ → ℕ → List ℕ → Paged
unfolding page_end page
paginate (negsuc n) chunk full = if ltb (length full) int_bound then out_of_range else int_overflow
paginate (pos start) chunk full =
    if ltb (length full) int_bound && ltb (start + chunk) int_bound
    then paged (page start (page_end start chunk (length full)) full)
    else int_overflow
