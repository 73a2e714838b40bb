-- ===== src/Poster/Layout.antt =====
-- The poster that `make_poster` lays out lies inside its slide.
pub mod Top
pub mod Tree
pub mod Bottom
use mini2_anu_asim.Prelude.{
  ◌≡◌, refl, sym, subst, ◌∙◌, String, ◌<>◌, List, [], ◌++◌, Result, ok, All, All-append,
  append_assoc,
}
use mini2_anu_asim.Poster.{Pptx, Item, rgb, run_all, strip_hashes, hex_digit}
use mini2_anu_asim.Poster.Safe.{Inside, Safe, run_all-Safe, rgb-ok, after_ok}
use mini2_anu_asim.Poster.Notes.{notes}
use mini2_anu_asim.Poster.Upper.{header_steps, chart_steps, tree_steps, node_steps}
use mini2_anu_asim.Poster.Steps.{
  component_steps, overhead_steps, fairness_steps, speedup_steps, make_poster,
}
use mini2_anu_asim.Poster.Layout.Top.{header_steps-Safe, chart_steps-Safe, component_steps-Safe}
use mini2_anu_asim.Poster.Layout.Tree.{tree_steps-Safe, node_steps-Safe}
use mini2_anu_asim.Poster.Layout.Bottom.{
  overhead_steps-Safe, fairness_steps-Safe, speedup_steps-Safe,
}

module _ (x : Pptx) where
  open x use {
    Slide, items, blank, blank_items, set_background, set_background_items, set_notes_items,
  }

  -- The steps did not raise, and all that stands on the slide lies inside it.
  record Drawn (steps : List (Slide → Result Slide)) (s : Slide) : Type 0 where
    drawn : Slide
    ran : run_all x steps s ≡ ok drawn
    inside : All (Inside x) (items drawn)

  draw :
      (steps : List (Slide → Result Slide)) (s : Slide)
      → All (Safe x) steps
      → All (Inside x) (items s)
      → Drawn steps s
  draw steps s safe h =
      let (s', more, ran, added, inside) = run_all-Safe x steps safe s in
      record {
        drawn = s';
        ran = ran;
        inside = subst (All (Inside x)) (sym added) (All-append (Inside x) (items s) more h inside);
      }

  -- Once the chart is in its file, `make_poster` does not raise, whatever python-pptx keeps of colours
  -- and fonts and however it rounds lengths, and every shape, picture, text box and line that it puts
  -- on its slide lies inside the slide.
  pub make_poster_fits :
      (root : String)
      → (s : Slide) × (make_poster x root ≡ ok (root <> "/" <> "mini2-poster.pptx", s))
        × All (Inside x) (items s)
  unfolding make_poster strip_hashes hex_digit
  make_poster_fits root =
      let (bg, e0) = rgb-ok x "#070b16" refl in
      let start : All (Inside x) (items (set_background bg blank)) =
        subst (All (Inside x)) (sym (set_background_items bg blank ∙ blank_items)) tt in
      let d1 = draw (header_steps x) _ (header_steps-Safe x) start in
      let d2 = draw (chart_steps x) d1.drawn (chart_steps-Safe x) d1.inside in
      let d3 = draw (tree_steps x) d2.drawn (tree_steps-Safe x) d2.inside in
      let d4 = draw (node_steps x) d3.drawn (node_steps-Safe x) d3.inside in
      let d5 = draw (component_steps x) d4.drawn (component_steps-Safe x) d4.inside in
      let d6 = draw (overhead_steps x) d5.drawn (overhead_steps-Safe x) d5.inside in
      let d7 = draw (fairness_steps x) d6.drawn (fairness_steps-Safe x) d6.inside in
      let d8 = draw (speedup_steps x) d7.drawn (speedup_steps-Safe x) d7.inside in
      (
        x.set_notes notes d8.drawn,
        after_ok _ e0
            ∙ after_ok _ d1.ran
            ∙ after_ok _ d2.ran
            ∙ after_ok _ d3.ran
            ∙ after_ok _ d4.ran
            ∙ after_ok _ d5.ran
            ∙ after_ok _ d6.ran
            ∙ after_ok _ d7.ran
            ∙ after_ok _ d8.ran,
        subst (All (Inside x)) (sym (set_notes_items notes d8.drawn)) d8.inside,
      )
