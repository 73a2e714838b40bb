-- ===== src/Client.antt =====
-- The loop of `main` in src/client/main.cpp: one call of the leader for each page, until a reply says
-- that there is no more. Between two calls other clients call the leader, one call behind the other,
-- and its reaper runs. A call that is not let in stays in the queue.
pub mod Decode
pub mod Pages
pub mod Complete
pub mod Timing
use mini2_anu_asim.Prelude.{
  ℕ, zero, suc, ◌+◌, String, Bool, true, false, none, some, List, [], ◌∷◌, ◌++◌, map, flatten,
}
use mini2_anu_asim.Prelude.Int.{ℤ, pos}
use mini2_anu_asim.Struct.Layout.{Record, read_records}
use mini2_anu_asim.Node.Servicer.{Query}
use mini2_anu_asim.Rpc.{AggregatedReply}
use mini2_anu_asim.Leader.Queue.{join}
use mini2_anu_asim.Leader.Handler.{
  Leader, Ending, replied_page, error_status, uncaught, undefined, call_once, reap,
}

-- What may happen at the leader between two calls of the client.
pub data Event : Type 0 where
  other_call : Bool → ℕ → ℕ → Query → Event
  reaper_round : ℕ → Event

unfoldable pub happen : Event → Leader → Leader
unfolding call_once join reap
happen (other_call gone now dt q) l = elim (call_once gone now dt q l) [
  | some out ↦ out.1
  | none ↦ record l { queue = join q.client_id l.queue }
]
happen (reaper_round now) l = reap now l

unfoldable pub happen_all : List Event → Leader → Leader
unfolding happen
happen_all [] l = l
happen_all (e ∷ es) l = happen_all es (happen e l)

-- What comes before a call, the time of the call, and the time that it takes.
pub record Round : Type 0 where
  pub events : List Event
  pub now : ℕ
  pub dt : ℕ

-- The records that were read, and the number of calls.
pub record Tally : Type 0 where
  pub records : List Record
  pub call_count : ℕ

-- The records of a reply, segment by segment.
abbrev pub decode : AggregatedReply → List Record
decode r = flatten (map (λ s. read_records s.payload) r.segments)

abbrev pub count_reply : AggregatedReply → Tally → Tally
count_reply r t = record { records = t.records ++ decode r; call_count = t.call_count + 1 }

-- How the program ends: with its summary, with the status 1 after an error, or not at all if its call
-- is not let in. `unfinished` marks a loop of the model that was given too few rounds.
pub data Download : Type 0 where
  summary : Tally → Download
  rpc_failed : Download
  undefined_behaviour : Download
  waits_forever : Download
  unfinished : Download

-- The query of a page: the client's name, its request, and the chunk size do not change.
pub record Request : Type 0 where
  pub client_id : String
  pub request_id : String
  pub chunk_size : ℤ

abbrev pub query_at : Request → ℤ → Query
query_at req offset = record {
  client_id = req.client_id;
  request_id = req.request_id;
  chunk_size = req.chunk_size;
  offset = offset;
}

unfoldable pub client_loop : ℕ → Request → (ℕ → Round) → ℕ → ℤ → Tally → Leader → Download
unfolding happen_all call_once
client_loop zero req rounds k offset t l = unfinished
client_loop (suc fuel) req rounds k offset t l =
    elim (call_once false (rounds k).now (rounds k).dt (query_at req offset)
      (happen_all (rounds k).events l)) [
        | none ↦ waits_forever
        | some call ↦ elim call.0 [
          | replied_page r ↦ elim r.has_more [
            | true ↦ client_loop fuel req rounds (k + 1) r.next_offset (count_reply r t) call.1
            | false ↦ summary (count_reply r t)
          ]
          | error_status code message ↦ rpc_failed
          | uncaught ↦ rpc_failed
          | undefined ↦ undefined_behaviour
        ]
      ]

unfoldable pub download : ℕ → Request → (ℕ → Round) → Leader → Download
unfolding client_loop
download fuel req rounds l =
    client_loop fuel req rounds 0 (pos 0) (record { records = []; call_count = 0 }) l
