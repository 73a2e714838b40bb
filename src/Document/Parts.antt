-- ===== src/Document/Parts.antt =====
-- What the parts of `make_docx` add to the body, the tables aside.
use mini2_anu_asim.Prelude.{
  ◌≡◌, refl, sym, ap, ◌∙◌, append-nil, String, true, false, none, [], ◌∷◌, ◌++◌, length,
}
use mini2_anu_asim.Document.{
  Docx, top, bottom, left, right, paragraph, plain, adjust, with_spans, run_count,
}
use mini2_anu_asim.Document.Texts.{Value, takeaways, course_ideas, failures, references}
use mini2_anu_asim.Document.Report.{margins, title, subtitle, opening, plan, findings, closing}
use mini2_anu_asim.Document.Blocks.{adjust-last, get_elem-last}
use mini2_anu_asim.Document.Contents.{Adds, then_Adds, head-Adds, say-Adds, bullets-Adds}

module _ (x : Docx) where
  open x use {Doc, blocks, create, create_blocks}
  open x use {
    center, center_blocks, add_paragraph, add_paragraph_blocks, add_paragraph_at, add_run,
    add_run_blocks, add_run_part, add_run_number, run_part, run_number, set_bold_blocks,
    set_italic_blocks, set_size_blocks, set_margin, set_margin_blocks,
  }

  -- A centered line behind the body, of one run.
  line :
      (text : String) (d : Doc)
      → let (p, d1) = add_paragraph "" none d in
        let (r, d2) = add_run text p (center p d1) in
        (blocks d2 ≡ blocks d ++ paragraph none (plain text ∷ []) ∷ [])
        × (run_part r ≡ length (blocks d))
        × (run_number r ≡ 0)
  line text d =
      let (p, d1) = add_paragraph "" none d in
      let at = add_paragraph_at "" none d in
      let blank = center_blocks p d1 ∙ add_paragraph_blocks "" none d in
      (
        add_run_blocks text p (center p d1)
            ∙ rw (blank, at)
                (adjust-last (with_spans (λ runs. runs ++ plain text ∷ [])) (blocks d)
                  (paragraph none [])),
        add_run_part text p (center p d1) ∙ at,
        add_run_number text p (center p d1)
            ∙ rw (blank, at) (ap run_count (get_elem-last (blocks d) (paragraph none []))),
      )

  pub margins-Adds : Adds x create (margins x) [] [] []
  unfolding margins
  margins-Adds = record {
    added = [];
    grown =
        set_margin_blocks right 8 1 _
        ∙ set_margin_blocks left 8 1 _
        ∙ set_margin_blocks bottom 7 1 _
        ∙ set_margin_blocks top 7 1 _
        ∙ sym (append-nil (blocks create));
    heads = refl;
    paras = refl;
    tables = refl;
  }

  pub title-Adds : (d : Doc) → Adds x d (title x d) [] [] []
  unfolding title
  title-Adds d =
      let (written, part, number) = line "Mini 2: Distributed 311 Query Chunking" d in
      record {
        added =
            paragraph none (
              record {
                text = "Mini 2: Distributed 311 Query Chunking";
                bold = true;
                italic = false;
              }
              ∷ [])
            ∷ [];
        grown =
            set_size_blocks 20 _ _
            ∙ set_bold_blocks _ _
            ∙ rw (written, part, number)
                (adjust-last (with_spans (adjust 0 (λ s. record s { bold = true }))) (blocks d)
                  (paragraph none (plain "Mini 2: Distributed 311 Query Chunking" ∷ [])));
        heads = refl;
        paras = refl;
        tables = refl;
      }

  pub subtitle-Adds : (d : Doc) → Adds x d (subtitle x d) [] [] []
  unfolding subtitle
  subtitle-Adds d =
      let (written, part, number) = line "Anukrithi Myadala, Asim Mohammed" d in
      record {
        added =
            paragraph none (
              record { text = "Anukrithi Myadala, Asim Mohammed"; bold = false; italic = true }
              ∷ [])
            ∷ [];
        grown =
            set_italic_blocks _ _
            ∙ rw (written, part, number)
                (adjust-last (with_spans (adjust 0 (λ s. record s { italic = true }))) (blocks d)
                  (paragraph none (plain "Anukrithi Myadala, Asim Mohammed" ∷ [])));
        heads = refl;
        paras = refl;
        tables = refl;
      }

  pub opening-Adds :
      (d : Doc)
      → Adds x d
          (opening x d)
          ("Research Question" ∷ "Mini 1 Takeaways Applied" ∷ "Design" ∷ "Course and Lab Ideas Used"
            ∷ [])
          (takeaways ++ course_ideas)
          []
  unfolding opening
  opening-Adds d = then_Adds x (head-Adds x "Research Question" _) (
      then_Adds x (say-Adds x _ _) (
        then_Adds x (head-Adds x "Mini 1 Takeaways Applied" _) (
          then_Adds x (bullets-Adds x takeaways _) (
            then_Adds x (head-Adds x "Design" _) (
              then_Adds x (say-Adds x _ _) (
                then_Adds x (say-Adds x _ _) (
                  then_Adds x (say-Adds x _ _) (
                    then_Adds x (say-Adds x _ _) (
                      then_Adds x (head-Adds x "Course and Lab Ideas Used" _)
                        (bullets-Adds x course_ideas _))))))))))

  pub plan-Adds : (d : Doc) → Adds x d (plan x d) ("Measurement Plan" ∷ []) [] []
  unfolding plan
  plan-Adds d = then_Adds x (head-Adds x "Measurement Plan" _) (say-Adds x _ _)

  module _ (str : Value → String) where
    pub findings-Adds : (d : Doc) → Adds x d (findings x str d) [] [] []
    unfolding findings
    findings-Adds d = then_Adds x (say-Adds x _ _) (say-Adds x _ _)

    pub closing-Adds :
        (d : Doc)
        → Adds x d
            (closing x str d)
            ("Fairness Result" ∷ "Failures Found and Fixed" ∷ "Conclusion"
              ∷ "Individual Contributions" ∷ "References" ∷ [])
            (failures ++ references)
            []
    unfolding closing
    closing-Adds d = then_Adds x (say-Adds x _ _) (
        then_Adds x (say-Adds x _ _) (
          then_Adds x (head-Adds x "Fairness Result" _) (
            then_Adds x (say-Adds x _ _) (
              then_Adds x (head-Adds x "Failures Found and Fixed" _) (
                then_Adds x (bullets-Adds x failures _) (
                  then_Adds x (head-Adds x "Conclusion" _) (
                    then_Adds x (say-Adds x _ _) (
                      then_Adds x (head-Adds x "Individual Contributions" _) (
                        then_Adds x (say-Adds x _ _) (
                          then_Adds x (head-Adds x "References" _)
                            (bullets-Adds x references _)))))))))))
