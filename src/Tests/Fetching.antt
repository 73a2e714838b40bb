-- ===== src/Tests/Fetching.antt =====
-- `Fetch`, trees of nodes, and payloads.
use Prim.Native.Char.{Char}
use mini2_anu_asim.Prelude.{
  ◌+◌, ◌^◌, ℕ, ◌*◌, ◌/◌, ◌%◌, ◌<◌, ◌≡◌, refl, String, str_eq, Bool, true, false, some, none, List,
  [], ◌∷◌, map, arith, ok, err, Result, length, take, flatten, ◌⊎◌, if◌then◌else◌, ltb, replicate,
}
use mini2_anu_asim.Prelude.Int.{pos, pos_part, ◌+ℤ◌}
use mini2_anu_asim.Prelude.Paths.{join_path}
use mini2_anu_asim.Prelude.Floats.{Floats}
use mini2_anu_asim.Struct.{
  pack_fields, pack_record, pack_args, pack_one, pack_signed32, pack_unsigned,
}
use mini2_anu_asim.Struct.Bytes.{le_bytes}
use mini2_anu_asim.Struct.Layout.{read_records}
use mini2_anu_asim.Node.Payload.{
  Files, shard_file, load_shard_payload, build_fallback_payload, init_payload, roots, sample,
}
use mini2_anu_asim.Node.Payload.Load.{load_shard_payload_first}
use mini2_anu_asim.Node.Payload.Fallback.{
  facts, sample_facts, fallback_reads, CoordinatesFit, init_payload_serves,
}
use mini2_anu_asim.Node.Servicer.{
  Query, Segment, Servicer, Status, replied, rpc_error, reply, abort, fetch, mark_last, own_segment,
}
use mini2_anu_asim.Node.Servicer.Fetches.{Answers, Fails, counted, fetch_all_or_nothing}
use mini2_anu_asim.Node.Cluster.{Tree, node, unreachable, nil, cons, call}
use mini2_anu_asim.Node.Cluster.Gathered.{is_up, preorder, call_all_or_nothing}
use mini2_anu_asim.Tests.Samples.{counting, small}

abbrev query : Query
query = record { client_id = "cli"; request_id = "req"; chunk_size = pos 0; offset = pos 0 }

abbrev tree : Tree
tree =
    node "B" (1 ∷ []) (
      cons (node "C" (2 ∷ []) nil)
        (cons (node "E" (3 ∷ []) (cons (node "F" (4 ∷ []) nil) nil)) nil))

abbrev broken : Tree
broken = node "B" (1 ∷ []) (cons (node "C" (2 ∷ []) nil) (cons (unreachable "D" "down") nil))

broken-call : call broken query ≡ rpc_error "child fetch failed: D: down"
unfolding call fetch
broken-call = refl

call_all_or_nothing_example :
    ((is_up tree ≡ true) × (call tree query ≡ replied (preorder tree)))
    ⊎ ((is_up tree ≡ false) × (details : String) × (call tree query ≡ rpc_error details))
call_all_or_nothing_example = call_all_or_nothing tree query

abbrev segment : ℕ → Bool → Segment
segment b last = record { payload = b ∷ []; last = last }

tree-call :
    call tree query
    ≡ replied (segment 1 false ∷ segment 2 true ∷ segment 3 false ∷ segment 4 true ∷ [])
unfolding call fetch
tree-call = refl

abbrev servicer : Servicer
servicer = record {
  node_id = "B";
  base = pos 10;
  req_count = 3;
  total_ns = 5000;
  payload = 1 ∷ [];
  child_stubs =
      record { id = "C"; fetch = λ q. replied (segment 2 true ∷ []) }
      ∷ record { id = "D"; fetch = λ q. rpc_error "down" }
      ∷ [];
}

-- The call is active before the first child only.
abbrev cut_off : ℕ → Bool
cut_off k = if ltb k 1 then true else false

cut_off_fetch :
    fetch cut_off 700 query servicer ≡ (abort Status.cancelled "upstream cancelled", servicer)
unfolding fetch
cut_off_fetch = refl

fetch_all_or_nothing_example :
    ((answers : List (List Segment)) × Answers cut_off query 0 servicer.child_stubs answers
      × (fetch cut_off 700 query servicer
          ≡ (reply (mark_last (own_segment (1 ∷ []) ∷ flatten answers)), counted 700 servicer)))
    ⊎ ((code : Status) × (message : String) × Fails cut_off query 0 servicer.child_stubs code
          message
        × (fetch cut_off 700 query servicer ≡ (abort code message, servicer)))
fetch_all_or_nothing_example = fetch_all_or_nothing cut_off 700 query servicer

-- Magnitudes in the place of floats; they fit in a float32 below 2 ^ 32.
abbrev magnitudes : Floats
magnitudes = record counting {
  of_int = pos_part;
  add = λ a b. a + b;
  sub = λ a b. a + b;
  mul = λ a b. a * b;
}

small_below : (n : ℕ) → n < 2 ^ 32 → (w : ℕ) × (small n ≡ some w)
small_below n h = (n, ground arith)

fitting : CoordinatesFit magnitudes
unfolding sample
fitting i (below, above) = (
  small_below (407000 + pos_part i * 1) (omega (arith, below)),
  small_below (739000 + pos_part i * 1) (omega (arith, below)),
)

no_files : Files
no_files path = none

abbrev letter_b : Char
letter_b = "B"

init_payload_serves_example :
    (bs : List ℕ) × (init_payload magnitudes no_files none "B" ≡ ok bs)
    × (length bs % 20 ≡ 0)
    × (0 < length bs)
init_payload_serves_example =
    init_payload_serves magnitudes no_files none letter_b (omega arith) fitting

abbrev bytes_of : Result (List ℕ) → List ℕ
bytes_of (ok bytes) = bytes
bytes_of (err e) = []

-- Ten sample records of node B.
abbrev sample_bytes : List ℕ
sample_bytes = bytes_of (build_fallback_payload counting (pos 10))

packed_samples : build_fallback_payload counting (pos 10) ≡ ok sample_bytes
unfolding build_fallback_payload pack_fields pack_record pack_args pack_one pack_signed32
    pack_unsigned le_bytes ◌+ℤ◌
packed_samples = refl

fallback_reads_example :
    (length sample_bytes ≡ 200) × (map facts (read_records sample_bytes) ≡ sample_facts 10 (pos 10))
fallback_reads_example = fallback_reads counting (pos 10) packed_samples

abbrev partial : List ℕ
partial = replicate 45 7

-- A file of 45 bytes in the second directory.
abbrev second_only : Files
second_only path = if str_eq path "../shards/shard_I.bin" then some partial else none

missing_first : (second_only (shard_file "I" "shards") ≡ none) × Unit {0}
unfolding join_path
missing_first = (refl, tt)

found_second : second_only (shard_file "I" "../shards") ≡ some partial
unfolding join_path
found_second = refl

two_roots : roots (some "") ≡ "shards" ∷ "../shards" ∷ []
unfolding roots
two_roots = refl

load_shard_payload_first_example :
    load_shard_payload second_only (some "") "I" ≡ take (20 * (length partial / 20)) partial
load_shard_payload_first_example =
    load_shard_payload_first second_only "I" (some "") ("shards" ∷ []) [] "../shards" partial
      two_roots missing_first found_second
