-- ===== src/Document/Grids.antt =====
-- The three tables of the report.
use mini2_anu_asim.Prelude.{
  ℕ, ◌≡◌, refl, sym, ap, ◌∙◌, String, List, [], ◌∷◌, ◌++◌, map, append_assoc, append-nil, length,
  replicate, ok, arith,
}
use mini2_anu_asim.Document.{Docx, Block, table}
use mini2_anu_asim.Document.Texts.{Value, questions, rows, rows_tail}
use mini2_anu_asim.Document.Report.{head, answer_rows, grid, answers, results, tail}
use mini2_anu_asim.Document.Tables.{set_at-IsRow, add_row-IsRow, first-IsRow, value_rows-fill}
use mini2_anu_asim.Document.Contents.{Adds, then_Adds, head-Adds}

abbrev pub pair_row : String × String → List String
pair_row (question, answer) = question ∷ answer ∷ []

module _ (x : Docx) where
  open x use {
    Doc, Table, blocks, table_at, row_cells, add_row, add_table, add_table_blocks, add_table_at,
    set_style_blocks,
  }

  -- A new table ends the body, with one row of blank cells.
  grid-blocks :
      (columns : ℕ) (d : Doc)
      → (table_at (grid x columns d).0 ≡ length (blocks d))
        × (blocks (grid x columns d).1 ≡ blocks d ++ table columns (replicate columns "" ∷ []) ∷ [])
  grid-blocks columns d = (
    add_table_at 1 columns d,
    set_style_blocks "Table Grid" (add_table 1 columns d).0 (add_table 1 columns d).1
        ∙ add_table_blocks 1 columns d,
  )

  answer_rows-fill :
      (t : Table) (before : List Block) (rows : List (List String)) (pairs : List (String × String))
      (d : Doc)
      → table_at t ≡ length before
      → blocks d ≡ before ++ table 2 rows ∷ []
      → (d' : Doc) × (answer_rows x t pairs d ≡ ok d')
        × (blocks d' ≡ before ++ table 2 (rows ++ map pair_row pairs) ∷ [])
  answer_rows-fill t before rows [] d at body =
      (d, refl, body ∙ ap (λ r. before ++ table 2 r ∷ []) (sym (append-nil rows)))
  answer_rows-fill t before rows ((question, answer) ∷ rest) d at body =
      let is1 = add_row-IsRow x t before 2 rows d at body in
      let (d2, e2, is2) =
        set_at-IsRow x before 2 rows (add_row t d).0 ("" ∷ "" ∷ []) (add_row t d).1 0 question is1
          (omega arith) in
      let (d3, e3, is3) =
        set_at-IsRow x before 2 rows (add_row t d).0 (question ∷ "" ∷ []) d2 1 answer is2
          (omega arith) in
      let (d4, e4, body4) =
        answer_rows-fill t before (rows ++ (question ∷ answer ∷ []) ∷ []) rest d3 at is3.body in
      (
        d4,
        rw (e2, e3) e4,
        body4
            ∙ ap (λ r. before ++ table 2 r ∷ [])
                (append_assoc rows ((question ∷ answer ∷ []) ∷ []) (map pair_row rest)),
      )

  -- A table that ends the body, behind a heading.
  table-Adds :
      (title : String) (columns : ℕ) (rows : List (List String)) (d d' : Doc)
      → blocks d' ≡ blocks (head x title d) ++ table columns rows ∷ []
      → Adds x d d' (title ∷ []) [] (rows ∷ [])
  table-Adds title columns rows d d' body = then_Adds x (head-Adds x title d) (record {
    added = table columns rows ∷ [];
    grown = body;
    heads = refl;
    paras = refl;
    tables = refl;
  })

  pub answers-Adds :
      (d : Doc)
      → (d' : Doc) × (answers x d ≡ ok d')
        × Adds x d d'
            ("Mini 2 Questions Answered" ∷ [])
            []
            ((("Prompt challenge" ∷ "Our answer" ∷ []) ∷ map pair_row questions) ∷ [])
  unfolding answers
  answers-Adds d =
      let before = blocks (head x "Mini 2 Questions Answered" d) in
      let t = (grid x 2 (head x "Mini 2 Questions Answered" d)).0 in
      let d1 = (grid x 2 (head x "Mini 2 Questions Answered" d)).1 in
      let (at, body) = grid-blocks 2 (head x "Mini 2 Questions Answered" d) in
      let is1 = first-IsRow x t before ("" ∷ "" ∷ []) d1 at body in
      let (d2, e2, is2) =
        set_at-IsRow x before 2 [] (row_cells 0 t d1) ("" ∷ "" ∷ []) d1 0 "Prompt challenge" is1
          (omega arith) in
      let again = first-IsRow x t before ("Prompt challenge" ∷ "" ∷ []) d2 at is2.body in
      let (d3, e3, is3) =
        set_at-IsRow x before 2 [] (row_cells 0 t d2) ("Prompt challenge" ∷ "" ∷ []) d2 1
          "Our answer" again (omega arith) in
      let (d4, e4, body4) =
        answer_rows-fill t before (("Prompt challenge" ∷ "Our answer" ∷ []) ∷ []) questions d3 at
          is3.body in
      (
        d4,
        rw (e2, e3) e4,
        table-Adds "Mini 2 Questions Answered" 2
            (("Prompt challenge" ∷ "Our answer" ∷ []) ∷ map pair_row questions) d d4 body4,
      )

  module _ (str : Value → String) where
    pub results-Adds :
        (d : Doc)
        → (d' : Doc) × (results x str d ≡ ok d')
          × Adds x d d' ("Two-Host Results" ∷ []) [] (
              (("Chunk bytes" ∷ "Avg total us" ∷ "Avg chunks" ∷ "Avg RPC us" ∷ [])
                ∷ map (map str) rows)
              ∷ [])
    unfolding results
    results-Adds d =
        let before = blocks (head x "Two-Host Results" d) in
        let t = (grid x 4 (head x "Two-Host Results" d)).0 in
        let d1 = (grid x 4 (head x "Two-Host Results" d)).1 in
        let (at, body) = grid-blocks 4 (head x "Two-Host Results" d) in
        let is1 = first-IsRow x t before ("" ∷ "" ∷ "" ∷ "" ∷ []) d1 at body in
        let (d2, e2, is2) =
          set_at-IsRow x before 4 [] (row_cells 0 t d1) ("" ∷ "" ∷ "" ∷ "" ∷ []) d1 0 "Chunk bytes"
            is1 (omega arith) in
        let (d3, e3, is3) =
          set_at-IsRow x before 4 [] (row_cells 0 t d1) ("Chunk bytes" ∷ "" ∷ "" ∷ "" ∷ []) d2 1
            "Avg total us" is2 (omega arith) in
        let (d4, e4, is4) =
          set_at-IsRow x before 4 [] (row_cells 0 t d1)
            ("Chunk bytes" ∷ "Avg total us" ∷ "" ∷ "" ∷ []) d3 2 "Avg chunks" is3 (omega arith) in
        let (d5, e5, is5) =
          set_at-IsRow x before 4 [] (row_cells 0 t d1)
            ("Chunk bytes" ∷ "Avg total us" ∷ "Avg chunks" ∷ "" ∷ []) d4 3 "Avg RPC us" is4
            (omega arith) in
        let (d', e, filled) =
          value_rows-fill x str t before 4
            (("Chunk bytes" ∷ "Avg total us" ∷ "Avg chunks" ∷ "Avg RPC us" ∷ []) ∷ []) rows d5 at
            is5.body (refl, (refl, (refl, (refl, (refl, tt))))) in
        (
          d',
          rw (e2, e3, e4, e5) e,
          table-Adds "Two-Host Results" 4
              (("Chunk bytes" ∷ "Avg total us" ∷ "Avg chunks" ∷ "Avg RPC us" ∷ [])
                ∷ map (map str) rows)
              d d' filled,
        )

    pub tail-Adds :
        (d : Doc)
        → (d' : Doc) × (tail x str d ≡ ok d')
          × Adds x d d' ("Mean, Median, and Tail Behavior" ∷ []) [] (
              (("Chunk bytes" ∷ "Mean ms" ∷ "Median ms" ∷ "P90 ms" ∷ "CV" ∷ [])
                ∷ map (map str) rows_tail)
              ∷ [])
    unfolding tail
    tail-Adds d =
        let before = blocks (head x "Mean, Median, and Tail Behavior" d) in
        let t = (grid x 5 (head x "Mean, Median, and Tail Behavior" d)).0 in
        let d1 = (grid x 5 (head x "Mean, Median, and Tail Behavior" d)).1 in
        let (at, body) = grid-blocks 5 (head x "Mean, Median, and Tail Behavior" d) in
        let is1 = first-IsRow x t before ("" ∷ "" ∷ "" ∷ "" ∷ "" ∷ []) d1 at body in
        let (d2, e2, is2) =
          set_at-IsRow x before 5 [] (row_cells 0 t d1) ("" ∷ "" ∷ "" ∷ "" ∷ "" ∷ []) d1 0
            "Chunk bytes" is1 (omega arith) in
        let (d3, e3, is3) =
          set_at-IsRow x before 5 [] (row_cells 0 t d1) ("Chunk bytes" ∷ "" ∷ "" ∷ "" ∷ "" ∷ []) d2
            1 "Mean ms" is2 (omega arith) in
        let (d4, e4, is4) =
          set_at-IsRow x before 5 [] (row_cells 0 t d1)
            ("Chunk bytes" ∷ "Mean ms" ∷ "" ∷ "" ∷ "" ∷ []) d3 2 "Median ms" is3 (omega arith) in
        let (d5, e5, is5) =
          set_at-IsRow x before 5 [] (row_cells 0 t d1)
            ("Chunk bytes" ∷ "Mean ms" ∷ "Median ms" ∷ "" ∷ "" ∷ []) d4 3 "P90 ms" is4
            (omega arith) in
        let (d6, e6, is6) =
          set_at-IsRow x before 5 [] (row_cells 0 t d1)
            ("Chunk bytes" ∷ "Mean ms" ∷ "Median ms" ∷ "P90 ms" ∷ "" ∷ []) d5 4 "CV" is5
            (omega arith) in
        let (d', e, filled) =
          value_rows-fill x str t before 5
            (("Chunk bytes" ∷ "Mean ms" ∷ "Median ms" ∷ "P90 ms" ∷ "CV" ∷ []) ∷ []) rows_tail d6 at
            is6.body (refl, (refl, (refl, (refl, (refl, tt))))) in
        (
          d',
          rw (e2, e3, e4, e5, e6) e,
          table-Adds "Mean, Median, and Tail Behavior" 5
              (("Chunk bytes" ∷ "Mean ms" ∷ "Median ms" ∷ "P90 ms" ∷ "CV" ∷ [])
                ∷ map (map str) rows_tail)
              d d' filled,
        )
