-- ===== src/Leader/Handler.antt =====
-- `LeaderServiceImpl`: `QueryOnce` from the point where its thread has been let in by the queue, the
-- gathering from the children, the cache of gathered payloads, and a round of the reaper. Times are
-- nanoseconds of the steady clock, and are arguments.
pub mod Coherent
pub mod Closing
pub mod Ready
pub mod Truthful
use mini2_anu_asim.Prelude.{
  ℕ, ◌+◌, ◌-◌, ◌/◌, String, ◌<>◌, Bool, true, false, Option, none, some, List, [], ◌∷◌, ◌++◌, ltb,
  if◌then◌else◌,
}
use mini2_anu_asim.Prelude.Dict.{Dict, get, set, erase}
use mini2_anu_asim.Node.Servicer.{
  Query, Segment, Status, cancelled, internal, Answer, replied, rpc_error, Stub,
}
use mini2_anu_asim.Rpc.{AggregatedReply}
use mini2_anu_asim.Leader.Pages.{Paged, paged, out_of_range, int_overflow, paginate, chunk_bytes}
use mini2_anu_asim.Leader.Queue.{FairQueue, acquire, release}

pub record CacheEntry : Type 0 where
  pub payload : List ℕ
  pub last_touched : ℕ

pub record Leader : Type 0 where
  pub queue : FairQueue
  pub cache : Dict CacheEntry
  pub child_stubs : List Stub
  pub total_requests : ℕ
  pub total_ns : ℕ

-- The bytes of a reply: the payloads of its segments, one behind the other.
abbrev pub body : List Segment → List ℕ
body [] = []
body (s ∷ rest) = s.payload ++ body rest

-- What a child's thread leaves in `parts[i]` and `errors[i]`; an error is never empty.
abbrev pub part : Answer → List ℕ
part (replied segments) = body segments
part (rpc_error details) = []

abbrev pub child_error : String → Answer → Option String
child_error id (replied segments) = none
child_error id (rpc_error details) = some (id <> ": " <> details)

-- The first error, in the order of the children.
unfoldable pub first_error : Query → List Stub → Option String
first_error q [] = none
first_error q (stub ∷ stubs) = elim (child_error stub.id (stub.fetch q)) [
  | some message ↦ some message
  | none ↦ first_error q stubs
]

unfoldable pub joined_parts : Query → List Stub → List ℕ
joined_parts q [] = []
joined_parts q (stub ∷ stubs) = part (stub.fetch q) ++ joined_parts q stubs

-- A payload, or the text of a `std::runtime_error`.
pub data Fetched : Type 0 where
  fetched : List ℕ → Fetched
  failed : String → Fetched

-- `gatherFromChildren`: all threads are joined before the errors are looked at.
unfoldable pub gather_from_children : Query → List Stub → Fetched
unfolding first_error joined_parts
gather_from_children q stubs = elim (first_error q stubs) [
  | some message ↦ failed ("child fetch failed: " <> message)
  | none ↦ fetched (joined_parts q stubs)
]

-- `fetchOrCache`.
unfoldable pub fetch_or_cache : ℕ → Query → Leader → Fetched × Leader
unfolding gather_from_children
fetch_or_cache now q l = elim (get q.request_id l.cache) [
  | some entry ↦ (
    fetched entry.payload,
    record l { cache = set q.request_id (record entry { last_touched = now }) l.cache },
  )
  | none ↦ elim (gather_from_children q l.child_stubs) [
    | failed message ↦ (failed message, l)
    | fetched payload ↦ (
      fetched payload,
      record l {
        cache = set q.request_id (record { payload = payload; last_touched = now }) l.cache;
      },
    )
  ]
]

-- How `QueryOnce` ends: a reply, an error status, or an exception that it does not catch. `undefined`
-- stands for what an `int` out of range leads to, which the model leaves open.
pub data Ending : Type 0 where
  replied_page : AggregatedReply → Ending
  error_status : Status → String → Ending
  uncaught : Ending
  undefined : Ending

abbrev pub released : String → Leader → Leader
released cli l = record l { queue = release cli l.queue }

-- `evict`, if the page was the last.
unfoldable pub evict_done : String → AggregatedReply → Leader → Leader
evict_done id r l = if r.has_more then l else record l { cache = erase id l.cache }

abbrev pub counted : ℕ → Leader → Leader
counted dt l = record l { total_requests = l.total_requests + 1; total_ns = l.total_ns + dt }

-- What follows on the gathered payload. Both failures leave the function before `release`.
unfoldable pub send_page : ℕ → Query → Paged → Leader → Ending × Leader
unfolding evict_done
send_page dt q (paged r) l =
    (replied_page r, released q.client_id (evict_done q.request_id r (counted dt l)))
send_page dt q out_of_range l = (uncaught, l)
send_page dt q int_overflow l = (undefined, l)

unfoldable pub answer_query : ℕ → Query → Fetched × Leader → Ending × Leader
unfolding send_page paginate chunk_bytes
answer_query dt q (failed message, l) = (error_status internal message, released q.client_id l)
answer_query dt q (fetched full, l) =
    send_page dt q (paginate q.offset (chunk_bytes q.chunk_size) full) l

-- `QueryOnce` behind `acquire`; `gone` is the answer of `IsCancelled`.
unfoldable pub query_once : Bool → ℕ → ℕ → Query → Leader → Ending × Leader
unfolding answer_query fetch_or_cache
query_once gone now dt q l = elim gone [
  | true ↦ (error_status cancelled "client cancelled", released q.client_id l)
  | false ↦ answer_query dt q (fetch_or_cache now q l)
]

-- `QueryOnce` while no other call comes or ends; `none` is a call that is not let in.
unfoldable pub call_once : Bool → ℕ → ℕ → Query → Leader → Option (Ending × Leader)
unfolding query_once acquire
call_once gone now dt q l = elim (acquire q.client_id l.queue) [
  | none ↦ none
  | some entered ↦ some (query_once gone now dt q (record l { queue = entered }))
]

-- The entries that were touched in the last 30 seconds.
unfoldable pub fresh : ℕ → Dict CacheEntry → Dict CacheEntry
fresh now [] = []
fresh now ((id, e) ∷ rest) =
    let kept = fresh now rest in
    if ltb 30 ((now - e.last_touched) / 1000000000) then kept else (id, e) ∷ kept

-- A round of `reaperLoop`.
unfoldable pub reap : ℕ → Leader → Leader
unfolding fresh
reap now l = record l { cache = fresh now l.cache }

-- The average that `printStats` prints, in microseconds.
unfoldable pub average_us : Leader → ℕ
average_us l = if ltb 0 l.total_requests then l.total_ns / l.total_requests / 1000 else 0
