-- ===== src/Poster/Layout/Bottom.antt =====
-- The lower half of the poster lies inside the slide.
use mini2_anu_asim.Prelude.{
  refl, true, false, none, some, [], ◌∷◌, arith, All, All-append, map, flatten, ◌++◌,
}
use mini2_anu_asim.Prelude.Dict.{get}
use mini2_anu_asim.Poster.{Pptx, add_box, add_text, to_center, strip_hashes, hex_digit}
use mini2_anu_asim.Poster.Safe.{Safe}
use mini2_anu_asim.Poster.Upper.{at, enumerate, zip}
use mini2_anu_asim.Poster.Steps.{
  overhead_rows, colors_clients, row_steps, client_steps, turn_steps, overhead_steps,
  fairness_steps, speedup_steps,
}
use mini2_anu_asim.Poster.Literal.{All-flatten, box_Safe, text_Safe}
use mini2_anu_asim.Poster.Loops.{row_steps-Safe, client_steps-Safe, turn_steps-Safe}

module _ (x : Pptx) where
  open x use {inches, inches_low as lo, inches_high as hi}

  pub overhead_steps-Safe : All (Safe x) (overhead_steps x)
  unfolding strip_hashes hex_digit get
  overhead_steps-Safe = (
    box_Safe x (3, 1) (472, 2) (335, 2) (216, 2) "#111827" "#334155" true refl,
    (
      text_Safe x (5, 1) (486, 2) (295, 2) (24, 2) "Page overhead multiplies" (120, 1) "#f8fafc"
          true none refl,
      All-append (Safe x) (flatten (map (λ e. row_steps x e.0 e.1) (enumerate 0 overhead_rows)))
          (add_text x (at (inches 52 2)) (at (inches 655 2)) (inches 29 1) (inches 18 2)
              "338 ms is all 800 pages, not one chunk." (80, 1) "#facc15" true (some to_center)
            ∷ [])
          (All-flatten (Safe x) (map (λ e. row_steps x e.0 e.1) (enumerate 0 overhead_rows)) (
            row_steps-Safe x 0 "2 KB" "800 pages" 18 "#fb7185" (omega arith) (omega arith) refl,
            (
              row_steps-Safe x 1 "32 KB" "50 pages" 9 "#38bdf8" (omega arith) (omega arith) refl,
              (
                row_steps-Safe x 2 "512 KB" "4 pages" 3 "#a78bfa" (omega arith) (omega arith) refl,
                tt,
              ),
            ),
          ))
          ((
            text_Safe x (52, 2) (655, 2) (29, 1) (18, 2) "338 ms is all 800 pages, not one chunk."
                (80, 1) "#facc15" true (some to_center) refl,
            tt,
          )),
    ),
  )

  pub fairness_steps-Safe : All (Safe x) (fairness_steps x)
  unfolding strip_hashes hex_digit get
  fairness_steps-Safe = (
    box_Safe x (387, 2) (472, 2) (435, 2) (216, 2) "#0f172a" "#334155" true refl,
    (
      text_Safe x (408, 2) (486, 2) (395, 2) (24, 2) "Fairness: equal turns, not identical latency"
          (120, 1) "#f8fafc" true (some to_center) refl,
      All-append (Safe x)
          (flatten (
            map (λ e. client_steps x e.0 e.1)
              (enumerate 0 (zip ("cli1" ∷ "cli2" ∷ "cli3" ∷ "cli4" ∷ []) colors_clients))))
          (add_box x (at (inches 538 2)) (at (inches 533 2)) (inches 78 2) (inches 72 2) "#172033"
                "#facc15" true
              ∷ add_text x (at (inches 546 2)) (at (inches 549 2)) (inches 62 2) (inches 16 2) "A"
                  (13, 0) "#facc15" true (some to_center)
              ∷ add_text x (at (inches 544 2)) (at (inches 573 2)) (inches 66 2) (inches 14 2)
                  "queue" (7, 0) "#facc15" true (some to_center)
              ∷ flatten (map (λ e. turn_steps x e.0 e.1) (enumerate 0 colors_clients))
            ++ (add_text x (at (inches 418 2)) (at (inches 63 1)) (inches 372 2) (inches 32 2)
                  "Each client received 50 chunks; finish spread was 4.3% (116.8-121.8 ms)." (82, 1)
                  "#cbd5e1" false (some to_center)
                ∷ []))
          (All-flatten (Safe x)
            (map (λ e. client_steps x e.0 e.1)
              (enumerate 0 (zip ("cli1" ∷ "cli2" ∷ "cli3" ∷ "cli4" ∷ []) colors_clients)))
            (
              client_steps-Safe x 0 "cli1" "#38bdf8" (omega arith) refl,
              (
                client_steps-Safe x 1 "cli2" "#34d399" (omega arith) refl,
                (
                  client_steps-Safe x 2 "cli3" "#facc15" (omega arith) refl,
                  (client_steps-Safe x 3 "cli4" "#a78bfa" (omega arith) refl, tt),
                ),
              ),
            ))
          ((
            box_Safe x (538, 2) (533, 2) (78, 2) (72, 2) "#172033" "#facc15" true refl,
            (
              text_Safe x (546, 2) (549, 2) (62, 2) (16, 2) "A" (13, 0) "#facc15" true
                  (some to_center) refl,
              (
                text_Safe x (544, 2) (573, 2) (66, 2) (14, 2) "queue" (7, 0) "#facc15" true
                    (some to_center) refl,
                All-append (Safe x)
                    (flatten (map (λ e. turn_steps x e.0 e.1) (enumerate 0 colors_clients)))
                    (add_text x (at (inches 418 2)) (at (inches 63 1)) (inches 372 2) (inches 32 2)
                        "Each client received 50 chunks; finish spread was 4.3% (116.8-121.8 ms)."
                        (82, 1) "#cbd5e1" false (some to_center)
                      ∷ [])
                    (All-flatten (Safe x)
                      (map (λ e. turn_steps x e.0 e.1) (enumerate 0 colors_clients))
                      (
                        turn_steps-Safe x 0 "#38bdf8" (omega arith) refl,
                        (
                          turn_steps-Safe x 1 "#34d399" (omega arith) refl,
                          (
                            turn_steps-Safe x 2 "#facc15" (omega arith) refl,
                            (turn_steps-Safe x 3 "#a78bfa" (omega arith) refl, tt),
                          ),
                        ),
                      ))
                    ((
                      text_Safe x (418, 2) (63, 1) (372, 2) (32, 2)
                          "Each client received 50 chunks; finish spread was 4.3% (116.8-121.8 ms)."
                          (82, 1) "#cbd5e1" false (some to_center) refl,
                      tt,
                    )),
              ),
            ),
          )),
    ),
  )

  pub speedup_steps-Safe : All (Safe x) (speedup_steps x)
  unfolding strip_hashes hex_digit get
  speedup_steps-Safe = (
    box_Safe x (845, 2) (472, 2) (46, 1) (216, 2) "#172033" "#475569" true refl,
    (
      text_Safe x (872, 2) (485, 2) (115, 2) (42, 2) "7.7x" (30, 0) "#facc15" true none refl,
      (
        text_Safe x (985, 2) (496, 2) (265, 2) (28, 2) "338 ms -> 44 ms" (17, 0) "#38bdf8" true none
            refl,
        (
          text_Safe x (872, 2) (535, 2) (38, 1) (2, 1) "2 KB to 512 KB total mean" (87, 1) "#94a3b8"
              false none refl,
          (
            box_Safe x (876, 2) (572, 2) (16, 1) (62, 2) "#101826" "#38bdf8" true refl,
            (
              box_Safe x (1062, 2) (572, 2) (16, 1) (62, 2) "#101826" "#a78bfa" true refl,
              (
                text_Safe x (888, 2) (584, 2) (136, 2) (16, 2) "32 KB" (105, 1) "#38bdf8" true
                    (some to_center) refl,
                (
                  text_Safe x (888, 2) (605, 2) (136, 2) (16, 2) "45.7 ms / P90 61" (74, 1)
                      "#dbeafe" false (some to_center) refl,
                  (
                    text_Safe x (1074, 2) (584, 2) (136, 2) (16, 2) "512 KB" (105, 1) "#a78bfa" true
                        (some to_center) refl,
                    (
                      text_Safe x (1074, 2) (605, 2) (136, 2) (16, 2) "44.0 ms / P90 110" (74, 1)
                          "#ede9fe" false (some to_center) refl,
                      (
                        text_Safe x (882, 2) (65, 1) (375, 2) (18, 2)
                            "At 32 KB, page-count cost is mostly amortized." (84, 1) "#facc15" true
                            (some to_center) refl,
                        (
                          text_Safe x (45, 2) (704, 2) (1245, 2) (22, 2)
                              "Takeaway: first page gathers/cache-builds once; chunk size controls how many later client-to-A page costs are repeated."
                              (107, 1) "#e2e8f0" true (some to_center) refl,
                          tt,
                        ),
                      ),
                    ),
                  ),
                ),
              ),
            ),
          ),
        ),
      ),
    ),
  )
