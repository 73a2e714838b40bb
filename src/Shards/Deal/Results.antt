-- ===== src/Shards/Deal/Results.antt =====
-- What `main` leaves in the files and counters, and what it reports.
use mini2_anu_asim.Prelude.{
  ℕ, suc, ◌+◌, ◌-◌, ◌*◌, ◌/◌, ◌%◌, ◌<◌, ◌≡◌, refl, ap, ◌∙◌, String, List, [], ◌∷◌, map, append-nil,
  arith, ◌==◌, some, Result, ok, err, Result-cases, Bool-cases, >>=-eq-ok, length, flatten, Exc,
  inl, inr, All,
}
use mini2_anu_asim.Prelude.Int.{ℤ}
use mini2_anu_asim.Prelude.Dict.{get}
use mini2_anu_asim.Prelude.Text.{Unicode}
use mini2_anu_asim.Prelude.Floats.{Floats}
use mini2_anu_asim.Struct.{record_size}
use mini2_anu_asim.Struct.Layout.{read_record, read_records}
use mini2_anu_asim.Struct.RoundTrip.{read_record-pack_fields}
use mini2_anu_asim.Struct.Total.{AreRecords, length-flatten_records, read_records-flatten}
use mini2_anu_asim.Shards.Fields.{Row, parse_key, row_fields, row_to_record}
use mini2_anu_asim.Shards.Deal.{Shards, main, finish, report, Report}
use mini2_anu_asim.Shards.Deal.Steps.{name, get-slots}
use mini2_anu_asim.Shards.Deal.Shares.{limited, encoded, outcome, share, length-share}
use mini2_anu_asim.Shards.Deal.Correct.{dealt, deal_main}

module _ (u : Unicode) (fl : Floats) where
  length-row_to_record :
      (row : Row) {bs : List ℕ} → row_to_record u fl row ≡ ok bs → length bs ≡ record_size
  unfolding row_to_record
  length-row_to_record row h =
      let (key, hk, hp) = >>=-eq-ok (parse_key u (row "Unique Key")) _ h in
      (read_record-pack_fields fl (row_fields u fl key row) hp).0

  pub encoded-AreRecords : (rows : List Row) → AreRecords (encoded u fl rows)
  unfolding encoded
  encoded-AreRecords [] = tt
  encoded-AreRecords (row ∷ rows) = elim (Result-cases (row_to_record u fl row)) [
    | inl (e, h) ↦ rw (h, encoded) tt
    | inr (part, h) ↦ rw (h, encoded) (length-row_to_record row h, encoded-AreRecords rows)
  ]

  length-encoded :
      (rows : List Row) → outcome u fl rows ≡ ok tt → length (encoded u fl rows) ≡ length rows
  unfolding encoded outcome
  length-encoded [] h = refl
  length-encoded (row ∷ rows) h = elim (Result-cases (row_to_record u fl row)) [
    | inl (e, p) ↦ absurd (cc (rw (p, outcome) at h))
    | inr (part, p) ↦ rw (p, encoded) (ap suc (length-encoded rows (rw (p, outcome) at h)))
  ]

pub share-All {ℓ} :
    {A : Type ℓ} (P : A → Type 0) (j idx : ℕ) (ps : List A) → All P ps → All P (share j idx ps)
unfolding share
share-All P j idx [] h = tt
share-All P j idx (p ∷ ps) h = elim (Bool-cases (idx % 9 == j)) [
  | inl e ↦ rw (e, share) (h.0, share-All P j (idx + 1) ps h.1)
  | inr e ↦ rw (e, share) (share-All P j (idx + 1) ps h.1)
]

module _ (u : Unicode) (fl : Floats) (limit : ℤ) (dir : String) (rows : List Row) where
  -- The records of the rows below the limit, up to the first row that raises.
  abbrev pub records : List (List ℕ)
  records = encoded u fl (limited limit rows)

  pub records-AreRecords : AreRecords records
  records-AreRecords = encoded-AreRecords u fl (limited limit rows)

  main_state : (main u fl limit dir rows).1 ≡ dealt u fl (limited limit rows)
  unfolding main
  main_state = ap (λ (r : Result (Unit {0}) × Shards). r.1) (deal_main u fl limit rows)

  main_result :
      (main u fl limit dir rows).0
      ≡ finish dir (dealt u fl (limited limit rows)) (outcome u fl (limited limit rows))
  unfolding main
  main_result =
      ap (λ (r : Result (Unit {0}) × Shards). finish dir r.1 r.0) (deal_main u fl limit rows)

  total-dealt : (report dir (dealt u fl (limited limit rows))).total ≡ length records
  unfolding report
  total-dealt = omega (
    arith,
    length-share 0 0 records (omega arith),
    length-share 1 0 records (omega arith),
    length-share 2 0 records (omega arith),
    length-share 3 0 records (omega arith),
    length-share 4 0 records (omega arith),
    length-share 5 0 records (omega arith),
    length-share 6 0 records (omega arith),
    length-share 7 0 records (omega arith),
    length-share 8 0 records (omega arith),
  )

  -- Whether `main` returns or raises, the file of node `j` holds the records whose number is congruent
  -- to `j` modulo 9, in their order, and its counter says how many these are: the records are dealt
  -- evenly.
  pub main_deals :
      (j : ℕ)
      → j < 9
      → (get (name j) (main u fl limit dir rows).1.files ≡ some (flatten (share j 0 records)))
        × (get (name j) (main u fl limit dir rows).1.counts ≡ some ((length records + 8 - j) / 9))
  main_deals j h =
      let n : length (share j 0 records) ≡ (length records + 8 - j) / 9 =
        omega (arith, length-share j 0 records h) in
      (
        ap (λ (s : Shards). get (name j) s.files) main_state
            ∙ get-slots (λ k. flatten (share k 0 records)) j h,
        ap (λ (s : Shards). get (name j) s.counts) main_state
            ∙ get-slots (λ k. length (share k 0 records)) j h
            ∙ ap some n,
      )

  -- The file of a node has 20 bytes for each record counted, and the client's decoder reads from it
  -- exactly the node's records.
  pub shard_file_reads :
      (j : ℕ) {file : List ℕ} {count : ℕ}
      → j < 9
      → get (name j) (main u fl limit dir rows).1.files ≡ some file
      → get (name j) (main u fl limit dir rows).1.counts ≡ some count
      → (length file ≡ 20 * count) × (read_records file ≡ map read_record (share j 0 records))
  shard_file_reads j {file} {count} h hf hc =
      let (ef, ec) = main_deals j h in
      let parts = share j 0 records in
      let fits =
        share-All (λ bs. length bs ≡ 20) j 0 records
          (encoded-AreRecords u fl (limited limit rows)) in
      let same : file ≡ flatten parts = cc (ef, hf) in
      let counted : count ≡ (length records + 8 - j) / 9 = cc (ec, hc) in
      let size = length-flatten_records parts fits in
      let reads = read_records-flatten parts [] fits (omega arith) in
      (rw same (omega (arith, size, length-share j 0 records h)), rw same (rw append-nil at reads))

  -- If no row below the limit raises, `main` reports as many records as there are such rows, and 20
  -- bytes for each.
  pub main_reports :
      outcome u fl (limited limit rows) ≡ ok tt
      → (r : Report) × ((main u fl limit dir rows).0 ≡ ok r)
        × (r.total ≡ length (limited limit rows))
        × (r.bytes ≡ 20 * length (limited limit rows))
  unfolding finish
  main_reports h =
      let st = dealt u fl (limited limit rows) in
      let n : (report dir st).total ≡ length (limited limit rows) =
        total-dealt ∙ length-encoded u fl (limited limit rows) h in
      (report dir st, main_result ∙ ap (finish dir st) h, n, unfold report in omega (arith, n))

  -- If a row below the limit raises, `main` raises the exception of the first such row.
  pub main_raises :
      (e : Exc) → outcome u fl (limited limit rows) ≡ err e → (main u fl limit dir rows).0 ≡ err e
  unfolding finish
  main_raises e h = main_result ∙ ap (finish dir (dealt u fl (limited limit rows))) h
