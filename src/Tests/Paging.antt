-- ===== src/Tests/Paging.antt =====
-- The leader's pages, and a client that reads them.
use mini2_anu_asim.Prelude.{
  Bool-cases, str_eq, inl, inr, if◌then◌else◌, Bool, ℕ, ◌+◌, ◌*◌, ◌≤◌, ◌<◌, ◌≡◌, refl, ap, ◌<>◌,
  String, some, true, false, none, List, [], ◌∷◌, arith, length, replicate, All,
}
use mini2_anu_asim.Prelude.Int.{ℤ, pos, negsuc}
use mini2_anu_asim.Prelude.Dict.{get}
use mini2_anu_asim.Struct.Layout.{read_records}
use mini2_anu_asim.Node.Servicer.{Query, internal, Stub, replied, rpc_error}
use mini2_anu_asim.Rpc.{AggregatedReply}
use mini2_anu_asim.Leader.Queue.{release, idle_queue}
use mini2_anu_asim.Leader.Pages.{
  chunk_bytes, requested, max_chunk_bytes, int_bound, paginate, paged,
}
use mini2_anu_asim.Leader.Pages.Reply.{IsPage, paginate-IsPage}
use mini2_anu_asim.Leader.Handler.{
  Leader, error_status, replied_page, answer_query, uncaught, fetched, first_error, joined_parts,
  gather_from_children, fetch_or_cache, query_once, call_once, released,
}
use mini2_anu_asim.Leader.Handler.Coherent.{IsCoherent}
use mini2_anu_asim.Leader.Handler.Truthful.{
  IsTruthful, query_once-IsTruthful, Stopped, error_changes_nothing,
}
use mini2_anu_asim.Leader.Handler.Closing.{query_once_closes}
use mini2_anu_asim.Client.{other_call, reaper_round, Round, Request, summary, download}
use mini2_anu_asim.Leader.Handler.Ready.{IsReady, negative_offset_blocks}
use mini2_anu_asim.Client.Pages.{page_count}
use mini2_anu_asim.Client.Complete.{Harmless, download_reads}
use mini2_anu_asim.Client.Timing.{
  Timing, time_calls, no_calls, min_rpc_us, avg_rpc_us, max_rpc_us, timing_bounds,
}

-- The pages of 80,000 records, at the chunk sizes of the measurements.
abbrev pages : ℕ → ℕ
unfolding page_count chunk_bytes requested
pages n = page_count (chunk_bytes (pos n)) 1600000

pages_2000 : pages 2000 ≡ 800
unfolding pages
pages_2000 = refl

pages_8000 : pages 8000 ≡ 200
unfolding pages
pages_8000 = refl

pages_32000 : pages 32000 ≡ 50
unfolding pages
pages_32000 = refl

pages_128000 : pages 128000 ≡ 13
unfolding pages
pages_128000 = refl

pages_512000 : pages 512000 ≡ 4
unfolding pages
pages_512000 = refl

-- Three records from two children.
abbrev bytes : List ℕ
bytes = replicate 60 7

abbrev children : List Stub
children =
    record {
      id = "B";
      fetch = λ q. replied (record { payload = replicate 40 7; last = true } ∷ []);
    }
    ∷ record {
      id = "C";
      fetch = λ q. replied (record { payload = replicate 20 7; last = true } ∷ []);
    }
    ∷ []

abbrev over : List Stub → Leader
over stubs = record {
  queue = idle_queue;
  cache = [];
  child_stubs = stubs;
  total_requests = 0;
  total_ns = 0;
}

coherent : IsCoherent bytes (over children)
unfolding gather_from_children first_error joined_parts
coherent = record { gathers = λ q. refl; entries = tt }

ready : IsReady bytes (over children)
ready = record { coherent = coherent; free = refl; empty = refl }

abbrev pub query : ℤ → Query
query offset = record {
  client_id = "cli";
  request_id = "req";
  chunk_size = pos 25;
  offset = offset;
}

-- A child that is down for one of the clients.
abbrev flaky : List Stub
flaky =
    record {
      id = "B";
      fetch = λ q.
          if str_eq q.client_id "late"
          then rpc_error "down"
          else replied (record { payload = bytes; last = true } ∷ []);
    }
    ∷ []

flaky_gathers :
    (q : Query) (found : List ℕ) → gather_from_children q flaky ≡ fetched found → found ≡ bytes
unfolding gather_from_children first_error joined_parts
flaky_gathers q found h = elim (Bool-cases (str_eq q.client_id "late")) [
  | inl e ↦ absurd (let down = rw (e, gather_from_children) at h in cc)
  | inr e ↦ let up = rw (e, gather_from_children) at h in cc
]

truthful : IsTruthful bytes (over flaky)
truthful = record { gathers = flaky_gathers; entries = tt }

query_once-IsTruthful_example :
    IsTruthful bytes (query_once false 0 5 (query (pos 20)) (over flaky)).1
    × ((r : AggregatedReply)
        → (query_once false 0 5 (query (pos 20)) (over flaky)).0 ≡ replied_page r
        → paginate (pos 20) (chunk_bytes (pos 25)) bytes ≡ paged r)
query_once-IsTruthful_example =
    query_once-IsTruthful bytes false 0 5 (query (pos 20)) (over flaky) truthful

paginate-IsPage_example :
    (r : AggregatedReply) × (bs : List ℕ) × (paginate (pos 20) (chunk_bytes (pos 25)) bytes
      ≡ paged r)
    × (20 ≤ chunk_bytes (pos 25))
    × (chunk_bytes (pos 25) ≤ max_chunk_bytes)
    × IsPage bytes 20 (chunk_bytes (pos 25)) r bs
paginate-IsPage_example = paginate-IsPage 20 (pos 25) bytes (omega arith) (omega arith)

range :
    (full : List ℕ)
    → (fetch_or_cache 0 (query (pos 20)) (over children)).0 ≡ fetched full
    → length full < int_bound
unfolding fetch_or_cache get gather_from_children first_error joined_parts
range full h = let same : bytes ≡ full = cc in omega (arith, ap length same)

query_once_closes_example :
    (query_once false 0 5 (query (pos 20)) (over children)).1.queue ≡ release "cli" idle_queue
query_once_closes_example =
    query_once_closes 0 5 (query (pos 20)) (over children) false 20 refl (omega arith) range

-- A call behind one with a negative offset.
negative_offset_blocks_example :
    (l : Leader) × (call_once false 0 5 (query (negsuc 19)) (over children) ≡ some (uncaught, l))
    × ((gone : Bool) (now dt : ℕ) (q : Query) → call_once gone now dt q l ≡ none)
negative_offset_blocks_example =
    negative_offset_blocks bytes 0 5 19 (query (negsuc 19)) (over children) (omega arith) refl ready

abbrev broken : List Stub
broken = record { id = "B"; fetch = λ q. rpc_error "down" } ∷ children

abbrev down_message : String
down_message = "child fetch failed: " <> "B" <> ": " <> "down"

fails : (query_once false 0 5 (query (pos 0)) (over broken)).0 ≡ error_status internal down_message
unfolding query_once answer_query fetch_or_cache get gather_from_children first_error
fails = refl

error_changes_nothing_example :
    ((query_once false 0 5 (query (pos 0)) (over broken)).1 ≡ released "cli" (over broken))
    × Stopped 0 5 (query (pos 0)) (over broken) internal down_message false
error_changes_nothing_example =
    error_changes_nothing 0 5 (query (pos 0)) (over broken) internal down_message false fails

-- Before each call another client reads its first page, and the reaper runs.
abbrev pub rounds : ℕ → Round
rounds k = record {
  events =
      other_call false (10 * k) 3
        (record (query (pos 0)) { client_id = "other"; request_id = "theirs" })
      ∷ reaper_round (10 * k)
      ∷ [];
  now = 10 * k + 5;
  dt = 2;
}

abbrev pub asks : ℤ → Request
asks size = record { client_id = "cli"; request_id = "req"; chunk_size = size }

pub harmless : (k : ℕ) → All Harmless (rounds k).events
harmless k = ((0, refl, omega arith), (tt, tt))

enough : page_count (chunk_bytes (pos 25)) (length bytes) ≤ 3
unfolding page_count chunk_bytes requested
enough = omega arith

download_reads_example :
    download 3 (asks (pos 25)) rounds (over children)
    ≡ summary
        (record { records = read_records bytes; call_count = page_count (chunk_bytes (pos 25)) 60 })
download_reads_example =
    download_reads bytes (asks (pos 25)) rounds harmless 3 (over children) ready (omega arith) refl
      enough

-- The times of three calls, in nanoseconds.
abbrev timed : Timing
timed = time_calls (500000 ∷ 90000 ∷ 7000000 ∷ []) no_calls

timing_bounds_example :
    (timed.call_count ≡ 3)
    × (min_rpc_us timed ≤ avg_rpc_us timed)
    × (avg_rpc_us timed ≤ max_rpc_us timed)
    × All (λ dt. (timed.min_rpc_ns ≤ dt) × (dt ≤ timed.max_rpc_ns)) (500000 ∷ 90000 ∷ 7000000 ∷ [])
timing_bounds_example = timing_bounds (500000 ∷ 90000 ∷ 7000000 ∷ []) (omega arith)
