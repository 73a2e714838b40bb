-- ===== src/System/Paging.antt =====
-- The whole system: the client downloads from a leader whose children serve the shards of one run of
-- `main`.
use mini2_anu_asim.Prelude.{
  Bool, ℕ, ◌+◌, ◌*◌, ◌≤◌, ◌<◌, ◌≡◌, refl, sym, ap, subst, ◌∙◌, String, ◌<>◌, true, false, none,
  some, List, [], map, arith, length, flatten, All, append-nil, inl, inr, ◌⊎◌, Bool-cases,
}
use mini2_anu_asim.Prelude.Int.{ℤ}
use mini2_anu_asim.Prelude.Text.{Unicode}
use mini2_anu_asim.Prelude.Floats.{Floats}
use mini2_anu_asim.Struct.Layout.{read_record, read_records}
use mini2_anu_asim.Struct.Total.{length-flatten_records, read_records-flatten}
use mini2_anu_asim.Shards.Fields.{Row}
use mini2_anu_asim.Shards.Deal.Steps.{name}
use mini2_anu_asim.Shards.Deal.Results.{records}
use mini2_anu_asim.Node.Payload.{Files}
use mini2_anu_asim.Node.Servicer.{Query}
use mini2_anu_asim.Node.Cluster.{Forest, nil, cons, tree_id, stubs_of}
use mini2_anu_asim.Node.Cluster.Gathered.{
  is_up, are_up, and_left, and_right, call_up, call_all_or_nothing,
}
use mini2_anu_asim.Team.Mixed.{stubs_mixed, stubs_mixed-stubs_of}
use mini2_anu_asim.Leader.Queue.{idle_queue}
use mini2_anu_asim.Leader.Pages.{chunk_bytes, max_chunk_bytes, int_bound}
use mini2_anu_asim.Leader.Handler.{
  Leader, first_error, joined_parts, fetched, failed, gather_from_children,
}
use mini2_anu_asim.Leader.Handler.Ready.{IsReady}
use mini2_anu_asim.Client.{Round, Request, summary, download}
use mini2_anu_asim.Client.Pages.{page_count}
use mini2_anu_asim.Client.Complete.{Harmless, download_reads}
use mini2_anu_asim.System.{members, members_of, served}
use mini2_anu_asim.System.Bodies.{body-preorder, served-append}
use mini2_anu_asim.Team.Payload.{IsPlain}
use mini2_anu_asim.System.Started.{Started, All-Loaded}
use mini2_anu_asim.System.Complete.{Stored, shard, served-shards, gathered-AreRecords}

first_error-up :
    (kids : Forest) (q : Query) → are_up kids ≡ true → first_error q (stubs_of kids) ≡ none
unfolding first_error stubs_of are_up
first_error-up nil q h = refl
first_error-up (cons t kids) q h =
    rw (call_up t q (and_left (is_up t) (are_up kids) h), first_error)
      (first_error-up kids q (and_right (is_up t) (are_up kids) h))

joined_parts-up :
    (kids : Forest) (q : Query)
    → are_up kids ≡ true
    → joined_parts q (stubs_of kids) ≡ served (members_of kids)
unfolding joined_parts stubs_of are_up members_of
joined_parts-up nil q h = refl
joined_parts-up (cons t kids) q h =
    rw
      (
        call_up t q (and_left (is_up t) (are_up kids) h),
        body-preorder t,
        joined_parts-up kids q (and_right (is_up t) (are_up kids) h),
        served-append (members t) (members_of kids),
      )
      refl

-- What the leader gathers from trees that are up: the payloads of all their nodes.
gather_from_children-up :
    (kids : Forest) (q : Query)
    → are_up kids ≡ true
    → gather_from_children q (stubs_of kids) ≡ fetched (served (members_of kids))
unfolding gather_from_children
gather_from_children-up kids q h =
    rw (first_error-up kids q h, gather_from_children) (ap fetched (joined_parts-up kids q h))

-- The error of the first tree that has a node out of reach.
first_error-down :
    (kids : Forest) (q : Query)
    → are_up kids ≡ false
    → (message : String) × (first_error q (stubs_of kids) ≡ some message)
unfolding first_error stubs_of are_up
first_error-down nil q h = absurd (cc)
first_error-down (cons t kids) q h = elim (call_all_or_nothing t q) [
  | inl (up, e) ↦
      let (message, m) = first_error-down kids q (ground arith) in (message, rw (e, first_error) m)
  | inr (_, details, e) ↦ (tree_id t <> ": " <> details, rw (e, first_error) refl)
]

-- The leader gathers the payloads of all nodes of all its children's trees, or, if one of these nodes
-- is out of reach, it fails and gathers nothing; whichever nodes run the C++ and whichever the Python
-- program.
pub gather_all_or_nothing :
    (cpp : String → Bool) (kids : Forest) (q : Query)
    → ((are_up kids ≡ true)
        × (gather_from_children q (stubs_mixed cpp kids) ≡ fetched (served (members_of kids))))
      ⊎ ((are_up kids ≡ false)
          × (message : String) × (gather_from_children q (stubs_mixed cpp kids) ≡ failed message))
unfolding gather_from_children
gather_all_or_nothing cpp kids q =
    rw (stubs_mixed-stubs_of cpp kids) (elim (Bool-cases (are_up kids)) [
      | inl up ↦ inl (up, gather_from_children-up kids q up)
      | inr down ↦
          let (message, e) = first_error-down kids q down in
          inr (down, "child fetch failed: " <> message, rw (e, gather_from_children) refl)
    ])

-- A leader that starts, over its children's trees; `cpp` says which of their nodes run the C++ program.
abbrev pub starts_over : (String → Bool) → Forest → Leader
starts_over cpp kids = record {
  queue = idle_queue;
  cache = [];
  child_stubs = stubs_mixed cpp kids;
  total_requests = 0;
  total_ns = 0;
}

starts_over-IsReady :
    (cpp : String → Bool) (kids : Forest)
    → are_up kids ≡ true
    → IsReady (served (members_of kids)) (starts_over cpp kids)
starts_over-IsReady cpp kids h = record {
  coherent = record {
    gathers = λ q.
        ap (gather_from_children q) (stubs_mixed-stubs_of cpp kids)
        ∙ gather_from_children-up kids q h;
    entries = tt;
  };
  free = refl;
  empty = refl;
}

module _ (u : Unicode) (fl : Floats) (limit : ℤ) (dir : String) (rows : List Row) (fs : Files) where
  -- Let `main` have written at least nine records into a directory whose path is not empty and does
  -- not end with a slash; let all team nodes below a leader be up, and let them have started with
  -- `MINI2_SHARD_DIR` set to it, each under the name of one of the nine shards, some with the C++
  -- program and the others with the Python program; and let these shards be smaller by a megabyte
  -- than an `int` can count. Then a client that downloads from the freshly started leader ends with
  -- its summary, whatever other clients ask in between at offsets in range, whenever the reaper runs,
  -- and whichever chunk size it has chosen. It has read the records of these shards, in the order of
  -- the nodes, once for each node, in as many calls as pages are needed; so many rounds are enough.
  pub download_reads_shards :
      (cpp : String → Bool) (fallback : String → List ℕ) (kids : Forest) (js : List ℕ)
      (req : Request) (rounds : ℕ → Round) (fuel : ℕ)
      → ((k : ℕ) → All Harmless (rounds k).events)
      → IsPlain dir
      → 9 ≤ length (records u fl limit dir rows)
      → Stored u fl limit dir rows fs
      → All (λ j. j < 9) js
      → map (λ n. n.0) (members_of kids) ≡ map name js
      → All (Started u fl limit dir rows fs cpp fallback) (members_of kids)
      → are_up kids ≡ true
      → 20 * length (flatten (map (shard u fl limit dir rows fs) js)) + max_chunk_bytes < int_bound
      → page_count
          (chunk_bytes req.chunk_size)
          (20 * length (flatten (map (shard u fl limit dir rows fs) js)))
        ≤ fuel
      → download fuel req rounds (starts_over cpp kids)
        ≡ summary (record {
          records = map read_record (flatten (map (shard u fl limit dir rows fs) js));
          call_count =
              page_count
                (chunk_bytes req.chunk_size)
                (20 * length (flatten (map (shard u fl limit dir rows fs) js)));
        })
  download_reads_shards cpp fallback kids js req rounds fuel harmless plain many stored small ids
        started up fits enough =
      let loaded =
        All-Loaded u fl limit dir rows fs cpp fallback plain many stored (members_of kids) js small
          ids started in
      let parts = flatten (map (shard u fl limit dir rows fs) js) in
      let whole = gathered-AreRecords u fl limit dir rows fs js in
      let size = length-flatten_records parts whole in
      let bytes =
        served-shards u fl limit dir rows fs (members_of kids) js plain.0 many stored small ids
          loaded in
      let ready : IsReady (flatten parts) (starts_over cpp kids) =
        subst (λ full. IsReady full (starts_over cpp kids)) bytes
          (starts_over-IsReady cpp kids up) in
      let reads =
        ap read_records (sym (append-nil (flatten parts)))
        ∙ read_records-flatten parts [] whole (omega arith) in
      rw (← size, ← reads)
        (download_reads (flatten parts) req rounds harmless fuel (starts_over cpp kids) ready
          (omega (arith, size)) (omega (arith, size)) (rw (← size) at enough))
