-- ===== src/Document/Written.antt =====
-- The report that `make_docx` writes.
use mini2_anu_asim.Prelude.{◌≡◌, refl, ap, ◌∙◌, String, ◌<>◌, [], ◌∷◌, ◌++◌, map, ok}
use mini2_anu_asim.Document.{Docx}
use mini2_anu_asim.Document.Texts.{Value, takeaways, course_ideas, failures, references}
use mini2_anu_asim.Document.Report.{
  margins, title, subtitle, opening, plan, findings, closing, make_docx,
}
use mini2_anu_asim.Document.Contents.{headings, styled, grids, then_Adds}
use mini2_anu_asim.Document.Grids.{answers-Adds, results-Adds, tail-Adds}
use mini2_anu_asim.Document.Figures.{rows-measured, answers_grid, results_grid, tail_grid, outline}
use mini2_anu_asim.Document.Parts.{
  margins-Adds, title-Adds, subtitle-Adds, opening-Adds, plan-Adds, findings-Adds, closing-Adds,
}

module _ (x : Docx) where
  open x use {Doc, blocks, create, create_blocks}

  module _ (str : Value → String) where
    -- `make_docx` never raises, and saves its document under the repository's root, whatever python-docx
    -- keeps of the looks. The document's headings are those of the outline, its bullets are the
    -- takeaways, the course ideas, the failures and the references, and it has three tables, whose rows
    -- are complete. In the second, the calls are those that the client makes for the 80,000 records with
    -- this size of a chunk, and the time of one call is the measured time divided by them; in the third,
    -- the times are those of the chart in tenths of a millisecond.
    pub make_docx_reports :
        (root : String)
        → (d : Doc) × (make_docx x str root ≡ ok (root <> "/" <> "mini2-report.docx", d))
          × (headings (blocks d) ≡ outline)
          × (styled (blocks d) ≡ (takeaways ++ course_ideas) ++ (failures ++ references))
          × (grids (blocks d) ≡ answers_grid ∷ results_grid str ∷ tail_grid str ∷ [])
    unfolding make_docx
    make_docx_reports root =
        let started =
          then_Adds x (margins-Adds x)
            (then_Adds x (title-Adds x _) (then_Adds x (subtitle-Adds x _) (opening-Adds x _))) in
        let (d1, e1, a1) = answers-Adds x (opening x (subtitle x (title x (margins x)))) in
        let (d2, e2, a2) = results-Adds x str (plan x d1) in
        let (d3, e3, a3) = tail-Adds x str (findings x str d2) in
        let whole = then_Adds x started (
          then_Adds x a1 (
            then_Adds x (plan-Adds x d1) (
              then_Adds x a2 (
                then_Adds x (findings-Adds x str d2) (then_Adds x a3 (closing-Adds x str d3)))))) in
        let body : blocks (closing x str d3) ≡ whole.added =
          whole.grown ∙ ap (λ bs. bs ++ whole.added) create_blocks in
        (
          closing x str d3,
          rw (e1, e2, e3) refl,
          ap headings body ∙ whole.heads,
          ap styled body ∙ whole.paras,
          ap grids body
              ∙ whole.tables
              ∙ ap
                  (λ r.
                    answers_grid
                    ∷ (("Chunk bytes" ∷ "Avg total us" ∷ "Avg chunks" ∷ "Avg RPC us" ∷ [])
                        ∷ map (map str) r)
                    ∷ tail_grid str
                    ∷ [])
                  rows-measured,
        )
