-- ===== src/Poster/Layout/Tree.antt =====
-- The tree of the poster lies inside the slide.
use mini2_anu_asim.Prelude.{◌*◌, refl, true, false, some, arith, All}
use mini2_anu_asim.Prelude.Int.{sub_ℕ}
use mini2_anu_asim.Prelude.Dict.{get}
use mini2_anu_asim.Poster.{Pptx, to_center, strip_hashes, hex_digit}
use mini2_anu_asim.Poster.Safe.{
  slide_width, slide_height, Safe, add_box-Safe, add_text-Safe, sub_inside,
}
use mini2_anu_asim.Poster.Upper.{tree_steps, node_steps}
use mini2_anu_asim.Poster.Literal.{box_Safe, text_Safe, node_Safe, link_Safe}

module _ (x : Pptx) where
  open x use {inches, inches_low as lo, inches_high as hi}

  pub tree_steps-Safe : All (Safe x) (tree_steps x)
  unfolding strip_hashes hex_digit get
  tree_steps-Safe = (
    box_Safe x (572, 2) (98, 2) (325, 2) (35, 1) "#0f172a" "#334155" true refl,
    (
      text_Safe x (592, 2) (112, 2) (285, 2) (24, 2) "Scatter-gather fan-in" (125, 1) "#f8fafc" true
          (some to_center) refl,
      (
        text_Safe x (602, 2) (138, 2) (265, 2) (2, 1) "Client only calls A" (92, 1) "#38bdf8" true
            (some to_center) refl,
        (
          link_Safe x 615 198 695 198 "#38bdf8" (20, 1) refl refl,
          (
            link_Safe x 695 198 625 265 "#64748b" (11, 1) refl refl,
            (
              link_Safe x 695 198 685 265 "#64748b" (11, 1) refl refl,
              (
                link_Safe x 695 198 745 265 "#64748b" (11, 1) refl refl,
                (
                  link_Safe x 695 198 805 265 "#64748b" (11, 1) refl refl,
                  (
                    link_Safe x 625 265 594 323 "#64748b" (11, 1) refl refl,
                    (
                      link_Safe x 625 265 632 323 "#64748b" (11, 1) refl refl,
                      (link_Safe x 625 265 670 323 "#64748b" (11, 1) refl refl, tt),
                    ),
                  ),
                ),
              ),
            ),
          ),
        ),
      ),
    ),
  )

  pub node_steps-Safe : All (Safe x) (node_steps x)
  unfolding strip_hashes hex_digit get
  node_steps-Safe = (
    link_Safe x 670 323 670 372 "#64748b" (11, 1) refl refl,
    (
      (let across =
            sub_inside (2 * (inches 615 2)) (2 * (inches 32 2)) (inches 64 2) (2 * slide_width x)
              (omega (arith, hi 615 2, hi 32 2, hi 64 2, lo 615 2, lo 32 2, lo 64 2, lo 13333 3))
              (omega (arith, hi 615 2, hi 32 2, hi 64 2, lo 615 2, lo 32 2, lo 64 2, lo 13333 3)) in
          let down =
            sub_inside (2 * (inches 198 2)) (2 * (inches 16 2)) (inches 32 2) (2 * slide_height x)
              (omega (arith, hi 198 2, hi 16 2, hi 32 2, lo 198 2, lo 16 2, lo 32 2, lo 75 1))
              (omega (arith, hi 198 2, hi 16 2, hi 32 2, lo 198 2, lo 16 2, lo 32 2, lo 75 1)) in
          add_box-Safe x (sub_ℕ (2 * (inches 615 2)) (2 * (inches 32 2)))
            (sub_ℕ (2 * (inches 198 2)) (2 * (inches 16 2))) (inches 64 2) (inches 32 2) "#1e293b"
            "#38bdf8" true (λ kind. (across.0, across.1, down.0, down.1)) refl refl),
      (
        (let across =
              sub_inside (2 * (inches 615 2)) (2 * (inches 29 2)) (inches 58 2) (2 * slide_width x)
                (omega (arith, hi 615 2, hi 29 2, hi 58 2, lo 615 2, lo 29 2, lo 58 2, lo 13333 3))
                (omega
                  (arith, hi 615 2, hi 29 2, hi 58 2, lo 615 2, lo 29 2, lo 58 2, lo 13333 3)) in
            let down =
              sub_inside (2 * (inches 198 2)) (2 * (inches 9 2)) (inches 16 2) (2 * slide_height x)
                (omega (arith, hi 198 2, hi 9 2, hi 16 2, lo 198 2, lo 9 2, lo 16 2, lo 75 1))
                (omega (arith, hi 198 2, hi 9 2, hi 16 2, lo 198 2, lo 9 2, lo 16 2, lo 75 1)) in
            add_text-Safe x (sub_ℕ (2 * (inches 615 2)) (2 * (inches 29 2)))
              (sub_ℕ (2 * (inches 198 2)) (2 * (inches 9 2))) (inches 58 2) (inches 16 2) "Client"
              (78, 1) "#38bdf8" true (some to_center) (λ kind. (across.0, across.1, down.0, down.1))
              refl),
        (
          node_Safe x 695 198 "A" "#3b2f12" "#facc15" "#facc15" refl refl,
          (
            node_Safe x 625 265 "B" "#172033" "#64748b" "#f8fafc" refl refl,
            (
              node_Safe x 594 323 "C" "#172033" "#64748b" "#f8fafc" refl refl,
              (
                node_Safe x 632 323 "D" "#172033" "#64748b" "#f8fafc" refl refl,
                (
                  node_Safe x 670 323 "E" "#172033" "#64748b" "#f8fafc" refl refl,
                  (
                    node_Safe x 670 372 "F" "#172033" "#64748b" "#f8fafc" refl refl,
                    (
                      node_Safe x 745 265 "G" "#172033" "#64748b" "#f8fafc" refl refl,
                      (
                        node_Safe x 685 265 "H" "#172033" "#64748b" "#f8fafc" refl refl,
                        (
                          node_Safe x 805 265 "I" "#13251f" "#34d399" "#bbf7d0" refl refl,
                          (
                            text_Safe x (745, 2) (178, 2) (12, 1) (34, 2)
                                "first page gathers\nB-I once" (78, 1) "#94a3b8" false
                                (some to_center) refl,
                            (
                              text_Safe x (598, 2) (405, 2) (27, 1) (22, 2)
                                  "A materializes/cache-builds the 1.6 MB result" (78, 1) "#cbd5e1"
                                  false (some to_center) refl,
                              tt,
                            ),
                          ),
                        ),
                      ),
                    ),
                  ),
                ),
              ),
            ),
          ),
        ),
      ),
    ),
  )
