-- ===== src/System/Complete.antt =====
-- A query at the root of a tree of nodes that serve the shards of one run of `main`.
use mathlib.Core.List.{Perm}
use mathlib.Core.List.Perm
use mini2_anu_asim.Prelude.{
  ℕ, ◌*◌, ◌/◌, ◌<◌, ◌≤◌, ◌≡◌, ◌≢◌, refl, sym, ap, subst, ◌∙◌, String, eq_iff, true, some, List, [],
  ◌∷◌, ◌++◌, map, arith, ok, >>=-eq-ok, length, flatten, flatten-append, All, All-append, inl, inr,
  append-nil,
}
use mini2_anu_asim.Prelude.Int.{ℤ}
use mini2_anu_asim.Prelude.Dict.{get}
use mini2_anu_asim.Prelude.Text.{Unicode}
use mini2_anu_asim.Prelude.Floats.{Floats}
use mini2_anu_asim.Struct.Layout.{read_record, read_records}
use mini2_anu_asim.Struct.Total.{AreRecords, length-flatten_records, read_records-flatten}
use mini2_anu_asim.Shards.Fields.{Row}
use mini2_anu_asim.Shards.Deal.{main, shard_path}
use mini2_anu_asim.Shards.Deal.Steps.{name}
use mini2_anu_asim.Shards.Deal.Shares.{share, length-share}
use mini2_anu_asim.Shards.Deal.Results.{records, main_deals, share-All, records-AreRecords}
use mini2_anu_asim.Shards.Deal.Partition.{Once, shares_partition}
use mini2_anu_asim.Node.Payload.{
  Files, base_of, roots, load_shard_payload, choose_payload, init_payload,
}
use mini2_anu_asim.Node.Payload.Load.{load_shard_payload_first}
use mini2_anu_asim.Node.Servicer.{Query, Segment, replied}
use mini2_anu_asim.Node.Cluster.{Tree, call}
use mini2_anu_asim.Node.Cluster.Gathered.{is_up, preorder, call_all_or_nothing}
use mini2_anu_asim.Leader.Handler.{body}
use mini2_anu_asim.System.{members, served}
use mini2_anu_asim.System.Bodies.{body-preorder, take_all}

first_root : (dir : String) → dir ≢ "" → roots (some dir) ≡ dir ∷ "shards" ∷ "../shards" ∷ []
unfolding roots
first_root dir h = ground (arith, eq_iff dir "")

kept_payload :
    (fl : Floats) (bytes : List ℕ) (base : ℤ) (payload : List ℕ)
    → 0 < length bytes
    → choose_payload fl bytes base ≡ ok payload
    → payload ≡ bytes
unfolding choose_payload
kept_payload fl [] base payload h e = absurd (omega arith)
kept_payload fl (b ∷ bytes) base payload h e = cc

choose_payload-kept :
    (fl : Floats) (bytes : List ℕ) (base : ℤ)
    → 0 < length bytes
    → choose_payload fl bytes base ≡ ok bytes
unfolding choose_payload
choose_payload-kept fl [] base h = absurd (omega arith)
choose_payload-kept fl (b ∷ bytes) base h = refl

flatten-flatten :
    (parts : ℕ → List (List ℕ)) (js : List ℕ)
    → flatten (flatten (map parts js)) ≡ flatten (map (λ j. flatten (parts j)) js)
flatten-flatten parts [] = refl
flatten-flatten parts (j ∷ js) =
    flatten-append (parts j) (flatten (map parts js))
    ∙ ap (λ r. flatten (parts j) ++ r) (flatten-flatten parts js)

module _ (u : Unicode) (fl : Floats) (limit : ℤ) (dir : String) (rows : List Row) (fs : Files) where
  -- The file system holds what `main` wrote.
  abbrev pub Stored : Type 0
  Stored =
      (j : ℕ)
      → j < 9
      → fs (shard_path dir (name j)) ≡ get (name j) (main u fl limit dir rows).1.files

  -- The node keeps this payload when it starts with `MINI2_SHARD_DIR` set to the directory.
  abbrev pub Loaded : String × List ℕ → Type 0
  Loaded (id, payload) = init_payload fl fs (some dir) id ≡ ok payload

  abbrev pub shard : ℕ → List (List ℕ)
  shard j = share j 0 (records u fl limit dir rows)

  pub shard-AreRecords : (j : ℕ) → AreRecords (shard j)
  shard-AreRecords j =
      share-All (λ bs. length bs ≡ 20) j 0 (records u fl limit dir rows)
        (records-AreRecords u fl limit dir rows)

  pub load_shard :
      (j : ℕ)
      → j < 9
      → dir ≢ ""
      → Stored
      → load_shard_payload fs (some dir) (name j) ≡ flatten (shard j)
  load_shard j h named stored =
      let bytes = flatten (shard j) in
      let found = stored j h ∙ (main_deals u fl limit dir rows j h).0 in
      let size = length-flatten_records (shard j) (shard-AreRecords j) in
      load_shard_payload_first fs (name j) (some dir) [] ("shards" ∷ "../shards" ∷ []) dir bytes
        (first_root dir named) tt found
      ∙ take_all (20 * (length bytes / 20)) bytes (omega (arith, size))

  Loaded-shard :
      (j : ℕ) (payload : List ℕ)
      → j < 9
      → dir ≢ ""
      → 9 ≤ length (records u fl limit dir rows)
      → Stored
      → Loaded (name j, payload)
      → payload ≡ flatten (shard j)
  unfolding init_payload choose_payload
  Loaded-shard j payload h named many stored loaded =
      let (base, _, chosen) = >>=-eq-ok (base_of (name j)) _ loaded in
      let size = length-flatten_records (shard j) (shard-AreRecords j) in
      let count = length-share j 0 (records u fl limit dir rows) h in
      kept_payload fl (flatten (shard j)) base payload (omega (arith, size, count))
        (subst (λ bs. choose_payload fl bs base ≡ ok payload) (load_shard j h named stored) chosen)

  -- A node that is named like a shard starts with it.
  pub Loaded-flatten-shard :
      (j : ℕ) (base : ℤ)
      → j < 9
      → dir ≢ ""
      → 9 ≤ length (records u fl limit dir rows)
      → Stored
      → base_of (name j) ≡ ok base
      → Loaded (name j, flatten (shard j))
  unfolding init_payload
  Loaded-flatten-shard j base h named many stored letter =
      let size = length-flatten_records (shard j) (shard-AreRecords j) in
      let count = length-share j 0 (records u fl limit dir rows) h in
      rw (letter, load_shard j h named stored)
        (choose_payload-kept fl (flatten (shard j)) base (omega (arith, size, count)))

  -- Nodes that start on these files serve their shards.
  pub served-shards :
      (nodes : List (String × List ℕ)) (js : List ℕ)
      → dir ≢ ""
      → 9 ≤ length (records u fl limit dir rows)
      → Stored
      → All (λ j. j < 9) js
      → map (λ n. n.0) nodes ≡ map name js
      → All Loaded nodes
      → served nodes ≡ flatten (flatten (map shard js))
  served-shards [] [] named many stored small ids loaded = refl
  served-shards [] (j ∷ js) named many stored small ids loaded = absurd cc
  served-shards (n ∷ nodes) [] named many stored small ids loaded = absurd cc
  served-shards ((id, payload) ∷ nodes) (j ∷ js) named many stored small ids loaded =
      let first : id ≡ name j = cc in
      let others : map (λ n. n.0) nodes ≡ map name js = cc in
      let kept =
        Loaded-shard j payload small.0 named many stored
          (subst (λ i. Loaded (i, payload)) first loaded.0) in
      let rest = served-shards nodes js named many stored small.1 others loaded.1 in
      rw (kept, rest) (sym (flatten-append (shard j) (flatten (map shard js))))

  pub gathered-AreRecords : (js : List ℕ) → AreRecords (flatten (map shard js))
  gathered-AreRecords [] = tt
  gathered-AreRecords (j ∷ js) =
      All-append (λ bs. length bs ≡ 20) (shard j) (flatten (map shard js)) (shard-AreRecords j)
        (gathered-AreRecords js)

  -- Let `main` have written at least nine records into a directory with a name that is not empty; let
  -- all nodes of a tree be up, and let them have started with `MINI2_SHARD_DIR` set to it, each under
  -- the name of one of the nine shards. Then a query at the root is answered, and the client's
  -- decoder reads from the bytes of the answer the records of these shards, in the order of the
  -- nodes.
  pub query_returns_shards :
      (t : Tree) (q : Query) (js : List ℕ)
      → dir ≢ ""
      → 9 ≤ length (records u fl limit dir rows)
      → Stored
      → All (λ j. j < 9) js
      → map (λ n. n.0) (members t) ≡ map name js
      → All Loaded (members t)
      → is_up t ≡ true
      → (segments : List Segment) × (call t q ≡ replied segments)
        × (read_records (body segments) ≡ map read_record (flatten (map shard js)))
  query_returns_shards t q js named many stored small ids loaded up =
      let parts = flatten (map shard js) in
      let bytes =
        body-preorder t ∙ served-shards (members t) js named many stored small ids loaded in
      let answered : call t q ≡ replied (preorder t) = elim (call_all_or_nothing t q) [
        | inl (_, e) ↦ e
        | inr (down, _, _) ↦ absurd (cc (up, down))
      ] in
      (
        preorder t,
        answered,
        ap read_records (bytes ∙ sym (append-nil (flatten parts)))
            ∙ read_records-flatten parts [] (gathered-AreRecords js) (omega arith),
      )

  -- Let `main` have written at least nine records into a directory with a name that is not empty; let
  -- all nodes of a tree be up, and let them have started with `MINI2_SHARD_DIR` set to it, so that
  -- each of the nine shards has exactly one node. Then a query at the root is answered, and the
  -- client's decoder reads from the bytes of the answer every record that `main` wrote exactly once,
  -- in some order, and nothing else.
  pub query_returns_records :
      (t : Tree) (q : Query) (js : List ℕ)
      → dir ≢ ""
      → 9 ≤ length (records u fl limit dir rows)
      → Stored
      → All (λ j. j < 9) js
      → ((k : ℕ) → k < 9 → Once k js)
      → map (λ n. n.0) (members t) ≡ map name js
      → All Loaded (members t)
      → is_up t ≡ true
      → (segments : List Segment) × (call t q ≡ replied segments)
        × Perm (read_records (body segments)) (map read_record (records u fl limit dir rows))
  query_returns_records t q js named many stored small each ids loaded up =
      let (segments, answered, reads) =
        query_returns_shards t q js named many stored small ids loaded up in
      (
        segments,
        answered,
        subst (λ l. Perm l (map read_record (records u fl limit dir rows))) (sym reads)
            (Perm.map read_record (shares_partition js (records u fl limit dir rows) each)),
      )
