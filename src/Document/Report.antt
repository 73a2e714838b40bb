-- ===== src/Document/Report.antt =====
-- `make_docx` of scripts/generate_submission_docs.py, in parts that follow each other.
use mini2_anu_asim.Prelude.{ℕ, suc, String, ◌<>◌, none, some, List, [], ◌∷◌, Result, ok, ◌>>=◌}
use mini2_anu_asim.Document.{Docx, top, bottom, left, right, add_heading, add_para, set_at}
use mini2_anu_asim.Document.Texts.{
  Value, takeaways, course_ideas, questions, rows, rows_tail, failures, references,
}

module _ (x : Docx) where
  open x use {
    Doc, Par, Table, Cell, create, set_margin, add_paragraph, center, add_run, set_bold, set_italic,
    set_size, add_table, set_style, row_cells, add_row,
  }

  abbrev pub head : String → Doc → Doc
  head text d = (add_heading x text 1 d).1

  abbrev pub say : String → Doc → Doc
  say text d = (add_para x text none d).1

  -- The loops over the items of a list.
  abbrev pub bullets : List String → Doc → Doc
  bullets [] d = d
  bullets (item ∷ items) d = bullets items (add_paragraph item (some "List Bullet") d).1

  -- The new document with its margins.
  unfoldable pub margins : Doc
  margins =
      set_margin right 8 1 (set_margin left 8 1 (set_margin bottom 7 1 (set_margin top 7 1 create)))

  unfoldable pub title : Doc → Doc
  title d =
      let (p, d1) = add_paragraph "" none d in
      let d2 = center p d1 in
      let (r, d3) = add_run "Mini 2: Distributed 311 Query Chunking" p d2 in
      set_size 20 r (set_bold r d3)

  unfoldable pub subtitle : Doc → Doc
  subtitle d =
      let (p, d1) = add_paragraph "" none d in
      let d2 = center p d1 in
      let (r, d3) = add_run "Anukrithi Myadala, Asim Mohammed" p d2 in set_italic r d3

  -- From the research question to the course ideas.
  unfoldable pub opening : Doc → Doc
  opening d =
      let d1 = head "Research Question" d in
      let d2 =
        say
          "How does chunk size affect a distributed, sharded 311 result set when A is the only client-facing process?"
          d1 in
      let d3 = head "Mini 1 Takeaways Applied" d2 in
      let d4 = bullets takeaways d3 in
      let d5 = head "Design" d4 in
      let d6 =
        say
          "The cluster uses a configured scatter-gather tree: A -> B,H,G,I; B -> C,D,E; E -> F. A is the only public entry point. B-I own typed binary shards, and I is implemented in Python."
          d5 in
      let d7 =
        say
          "The data source is NYC 311 Service Requests from 2020 to Present. We used a 90,000-row subset from the public CSV so the test was repeatable and the Canvas submission did not include the large dataset."
          d6 in
      let d8 =
        say
          "Each 311 row is stored as a compact 20-byte record: unique key, latitude, longitude, incident zip, created year, status code, and borough code."
          d7 in
      let d9 =
        say
          "The design uses unary gRPC calls with explicit offsets. A streaming prototype was dropped because the assignment required non-streaming gRPC and the explicit offsets made failure behavior easier to test."
          d8 in
      let d10 = head "Course and Lab Ideas Used" d9 in bullets course_ideas d10

  -- The loop over `questions`.
  abbrev pub answer_rows : Table → List (String × String) → Doc → Result Doc
  answer_rows t [] d = ok d
  answer_rows t ((question, answer) ∷ rest) d = do
    let (cells, d1) = add_row t d
    d2 ← set_at x cells 0 question d1
    d3 ← set_at x cells 1 answer d2
    answer_rows t rest d3

  -- A table of one row, in the style "Table Grid".
  abbrev pub grid : ℕ → Doc → Table × Doc
  grid columns d = let (t, d1) = add_table 1 columns d in (t, set_style "Table Grid" t d1)

  -- The questions with their answers.
  unfoldable pub answers : Doc → Result Doc
  answers d = do
    let (t, d1) = grid 2 (head "Mini 2 Questions Answered" d)
    d2 ← set_at x (row_cells 0 t d1) 0 "Prompt challenge" d1
    d3 ← set_at x (row_cells 0 t d2) 1 "Our answer" d2
    answer_rows t questions d3

  unfoldable pub plan : Doc → Doc
  plan d =
      let d1 = head "Measurement Plan" d in
      say
        "The course notes recommend 15-30 runs to form an average and discard clear outliers. The final table below uses 30 runs per chunk size on two laptops."
        d1

  module _ (str : Value → String) where
    -- `for i, value in enumerate(row): cells[i].text = str(value)`, from an index on.
    abbrev pub set_values : List Cell → ℕ → List Value → Doc → Result Doc
    set_values cells i [] d = ok d
    set_values cells i (value ∷ rest) d = do
      d1 ← set_at x cells i (str value) d
      set_values cells (suc i) rest d1

    -- The loops over `rows` and `rows_tail`.
    abbrev pub value_rows : Table → List (List Value) → Doc → Result Doc
    value_rows t [] d = ok d
    value_rows t (row ∷ rest) d = do
      let (cells, d1) = add_row t d
      d2 ← set_values cells 0 row d1
      value_rows t rest d2

    -- The results on two hosts.
    unfoldable pub results : Doc → Result Doc
    results d = do
      let (t, d1) = grid 4 (head "Two-Host Results" d)
      let hdr = row_cells 0 t d1
      d2 ← set_at x hdr 0 "Chunk bytes" d1
      d3 ← set_at x hdr 1 "Avg total us" d2
      d4 ← set_at x hdr 2 "Avg chunks" d3
      d5 ← set_at x hdr 3 "Avg RPC us" d4
      value_rows t rows d5

    unfoldable pub findings : Doc → Doc
    findings d =
        let d1 =
          say
            "Result: 512 KB chunks completed the same 80,000-record response about 7.7x faster than 2 KB chunks across two laptops because the client needed 4 chunks instead of 800. The more interesting result is the knee in the curve: 32 KB used 50 chunks and averaged 45.7 ms, while 512 KB used only 4 chunks and averaged 44.0 ms. That 1.7 ms difference means page count stopped being the only important cost after about 32 KB."
            d in
        say
          "The accurate interpretation is that chunk size shifts cost between repeated paging overhead and a fixed gather/transfer floor. The first page triggers A to gather and cache the full 1.6 MB response from B-I. Later pages come from A's cache, so small chunks pay many local unary RPC/cache-copy steps. Once chunks are large enough, the remaining time is dominated by the one-time gather, payload movement, serialization/copying, and Wi-Fi tail spikes."
          d1

    -- Mean, median and tail.
    unfoldable pub tail : Doc → Result Doc
    tail d = do
      let (t, d1) = grid 5 (head "Mean, Median, and Tail Behavior" d)
      let hdr = row_cells 0 t d1
      d2 ← set_at x hdr 0 "Chunk bytes" d1
      d3 ← set_at x hdr 1 "Mean ms" d2
      d4 ← set_at x hdr 2 "Median ms" d3
      d5 ← set_at x hdr 3 "P90 ms" d4
      d6 ← set_at x hdr 4 "CV" d5
      value_rows t rows_tail d6

    -- From the remarks on the tail to the references.
    unfoldable pub closing : Doc → Doc
    closing d =
        let d1 =
          say "CV is the sample standard deviation divided by the mean across the 30 runs." d in
        let d2 =
          say
            "The medians show that large chunks were usually faster, but the high P90/CV values show why their means were not much better than 32 KB. With only 4-13 chunks, one slow remote gather or large response spike can dominate an entire run. A 32 KB chunk is therefore a good robust operating point for this setup: near-fastest mean, lower tail risk, and the fairness test was run at this size."
            d1 in
        let d3 = head "Fairness Result" d2 in
        let d4 =
          say
            "Four clients at 32 KB chunks each completed 50 chunks. The slowest client was about 4.3% slower than the fastest, so the queue balances chunk turns but does not guarantee identical wall-clock finish times."
            d3 in
        let d5 = head "Failures Found and Fixed" d4 in
        let d6 = bullets failures d5 in
        let d7 = head "Conclusion" d6 in
        let d8 =
          say
            "The final result supports one focused conclusion: chunk size has a knee around 32 KB. Below 32 KB, repeated pages dominate. Above 32 KB, the fixed gather/transfer floor and tail variance dominate. If optimizing only for mean or median, 512 KB wins by a small amount. If optimizing for robustness, fairness, and tail behavior, 32 KB is the better operating point for this two-laptop setup. This conclusion only became trustworthy after we fixed port collisions, topology mistakes, cache behavior, the hidden chunk cap, Python setup problems, missing shard deployment, and binary-layout validation."
            d7 in
        let d9 = head "Individual Contributions" d8 in
        let d10 =
          say
            "Anukrithi Myadala focused on Mini 1 feedback analysis, runbooks, two-computer setup, result collection, report, and presentation framing. Asim Mohammed contributed to the cluster/protobuf implementation and helped with final code cleanup and validation."
            d9 in
        let d11 = head "References" d10 in bullets references d11

    -- The document, and the path under which it is saved. `root` is the repository's.
    unfoldable pub make_docx : String → Result (String × Doc)
    unfolding margins title subtitle answers opening results plan tail findings closing
    make_docx root = do
      d1 ← answers (opening (subtitle (title margins)))
      d2 ← results (plan d1)
      d3 ← tail (findings d2)
      ok (root <> "/" <> "mini2-report.docx", closing d3)
