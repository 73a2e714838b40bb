-- ===== src/Poster/Layout/Top.antt =====
-- The upper half of the poster lies inside the slide.
use mini2_anu_asim.Prelude.{
  refl, true, false, none, some, [], ◌∷◌, arith, All, All-append, map, flatten,
}
use mini2_anu_asim.Prelude.Dict.{get}
use mini2_anu_asim.Poster.{Pptx, add_box, add_text, to_center, to_right, strip_hashes, hex_digit}
use mini2_anu_asim.Poster.Safe.{Safe, add_box-Safe, add_picture-Safe}
use mini2_anu_asim.Poster.Upper.{at, enumerate, header_steps, chart_steps}
use mini2_anu_asim.Poster.Steps.{pieces, piece_steps, component_steps}
use mini2_anu_asim.Poster.Literal.{All-flatten, box_Safe, text_Safe}
use mini2_anu_asim.Poster.Loops.{piece_steps-Safe}

module _ (x : Pptx) where
  open x use {inches, inches_low as lo, inches_high as hi}

  pub header_steps-Safe : All (Safe x) (header_steps x)
  unfolding strip_hashes hex_digit get
  header_steps-Safe = (
    (add_box-Safe x (at (inches 0 0)) (at (inches 0 0)) (inches 13333 3) (inches 10 2) "#f59e0b"
        "#f59e0b" false
        (λ kind. (
          refl,
          omega (arith, hi 0 0, hi 13333 3, lo 13333 3),
          refl,
          omega (arith, hi 0 0, hi 10 2, lo 75 1),
        ))
        refl refl),
    (
      text_Safe x (32, 2) (24, 2) (355, 2) (42, 2) "THE 32 KB KNEE" (28, 0) "#facc15" true none
          refl,
      (
        text_Safe x (398, 2) (28, 2) (75, 1) (34, 2)
            "Why 50 pages at 32 KB almost tied 4 pages at 512 KB" (145, 1) "#e2e8f0" true none refl,
        (
          text_Safe x (116, 1) (34, 2) (13, 1) (24, 2) "Anukrithi + Asim" (9, 0) "#94a3b8" false
              (some to_right) refl,
          (
            text_Safe x (412, 2) (68, 2) (82, 1) (22, 2)
                "NYC 311 2020-present | 80k returned rows | 20-byte records | A-F host1, G/H/I host2 | 30 runs/chunk"
                (88, 1) "#94a3b8" false none refl,
            tt,
          ),
        ),
      ),
    ),
  )

  pub chart_steps-Safe : All (Safe x) (chart_steps x)
  unfolding strip_hashes hex_digit get
  chart_steps-Safe = (
    box_Safe x (3, 1) (98, 2) (522, 2) (35, 1) "#111827" "#334155" true refl,
    (
      add_picture-Safe x (at (inches 48 2)) (at (inches 117 2)) (inches 488 2) (inches 308 2) (
        refl,
        omega (arith, hi 48 2, hi 488 2, lo 13333 3),
        refl,
        omega (arith, hi 117 2, hi 308 2, lo 75 1),
      ),
      tt,
    ),
  )

  pub component_steps-Safe : All (Safe x) (component_steps x)
  unfolding strip_hashes hex_digit get
  component_steps-Safe = (
    box_Safe x (915, 2) (98, 2) (39, 1) (35, 1) "#101826" "#334155" true refl,
    (
      text_Safe x (938, 2) (112, 2) (345, 2) (24, 2) "Total time components" (125, 1) "#f8fafc" true
          (some to_center) refl,
      All-append (Safe x) (flatten (map (λ e. piece_steps x e.0 e.1) (enumerate 0 pieces)))
          (add_box x (at (inches 948 2)) (at (inches 348 2)) (inches 312 2) (inches 55 2) "#271c13"
              "#f59e0b" true
            ∷ add_text x (at (inches 962 2)) (at (inches 358 2)) (inches 282 2) (inches 28 2)
                "32 KB has mostly paid off the page-count penalty." (91, 1) "#fde68a" true
                (some to_center)
            ∷ [])
          (All-flatten (Safe x) (map (λ e. piece_steps x e.0 e.1) (enumerate 0 pieces)) (
            piece_steps-Safe x 0 "scatter-gather" "B-I fan-in over Wi-Fi" "#38bdf8" (omega arith)
                refl,
            (
              piece_steps-Safe x 1 "cache materialization" "A assembles 1.6 MB" "#34d399"
                  (omega arith) refl,
              (
                piece_steps-Safe x 2 "amortized page cost" "N QueryOnce calls" "#facc15"
                    (omega arith) refl,
                (
                  piece_steps-Safe x 3 "serialization/copy" "protobuf bytes + slices" "#a78bfa"
                      (omega arith) refl,
                  tt,
                ),
              ),
            ),
          ))
          ((
            box_Safe x (948, 2) (348, 2) (312, 2) (55, 2) "#271c13" "#f59e0b" true refl,
            (
              text_Safe x (962, 2) (358, 2) (282, 2) (28, 2)
                  "32 KB has mostly paid off the page-count penalty." (91, 1) "#fde68a" true
                  (some to_center) refl,
              tt,
            ),
          )),
    ),
  )
