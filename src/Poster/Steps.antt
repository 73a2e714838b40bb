-- ===== src/Poster/Steps.antt =====
-- `make_poster`, with its statements after the tree in parts that follow each other.
use mini2_anu_asim.Prelude.{
  ℕ, ◌+◌, ◌-◌, ◌*◌, String, ◌<>◌, true, false, none, some, List, [], ◌∷◌, ◌++◌, map, flatten,
  length, ltb, if◌then◌else◌, Result, ok, ◌>>=◌,
}
use mini2_anu_asim.Poster.{Pptx, to_center, rgb, add_box, add_text, add_line, run_all}
use mini2_anu_asim.Poster.Notes.{notes}
use mini2_anu_asim.Poster.Upper.{
  Step, at, chart_steps, enumerate, header_steps, node_steps, range_from, tree_steps, zip,
}

-- `pieces`.
abbrev pub pieces : List (String × String × String)
pieces =
    ("scatter-gather", "B-I fan-in over Wi-Fi", "#38bdf8")
    ∷ ("cache materialization", "A assembles 1.6 MB", "#34d399")
    ∷ ("amortized page cost", "N QueryOnce calls", "#facc15")
    ∷ ("serialization/copy", "protobuf bytes + slices", "#a78bfa")
    ∷ []

-- `rows`.
abbrev pub overhead_rows : List (String × String × ℕ × String)
overhead_rows =
    ("2 KB", "800 pages", 18, "#fb7185")
    ∷ ("32 KB", "50 pages", 9, "#38bdf8")
    ∷ ("512 KB", "4 pages", 3, "#a78bfa")
    ∷ []

abbrev pub colors_clients : List String
colors_clients = "#38bdf8" ∷ "#34d399" ∷ "#facc15" ∷ "#a78bfa" ∷ []

module _ (x : Pptx) where
  open x use {Slide, inches, blank, set_background, set_notes}

  -- The body of the loop over `pieces`.
  abbrev pub piece_steps : ℕ → String × String × String → List (Step x)
  piece_steps i (top, bottom, color) =
      let px = inches 942 2 in
      let py = inches 158 2 in
      add_box x (at px) (at (py + inches (42 * i) 2)) (inches 322 2) (inches 33 2) "#172033" color
        true
      ∷ add_text x (at (px + inches 8 2)) (at (py + inches (42 * i) 2 + inches 6 2)) (inches 128 2)
          (inches 16 2) top (77, 1) color true none
      ∷ add_text x (at (px + inches 142 2)) (at (py + inches (42 * i) 2 + inches 6 2)) (inches 17 1)
          (inches 16 2) bottom (71, 1) "#cbd5e1" false none
      ∷ (if ltb i (length pieces - 1)
          then add_text x (at (px + inches 152 2)) (at (py + inches (42 * i) 2 + inches 29 2))
              (inches 16 2) (inches 14 2) "+" (85, 1) "#94a3b8" true (some to_center)
            ∷ []
          else [])

  -- The components of the time.
  abbrev pub component_steps : List (Step x)
  component_steps =
      add_box x (at (inches 915 2)) (at (inches 98 2)) (inches 39 1) (inches 35 1) "#101826"
          "#334155" true
        ∷ add_text x (at (inches 938 2)) (at (inches 112 2)) (inches 345 2) (inches 24 2)
            "Total time components" (125, 1) "#f8fafc" true (some to_center)
        ∷ flatten (map (λ e. piece_steps e.0 e.1) (enumerate 0 pieces))
      ++ (add_box x (at (inches 948 2)) (at (inches 348 2)) (inches 312 2) (inches 55 2) "#271c13"
            "#f59e0b" true
          ∷ add_text x (at (inches 962 2)) (at (inches 358 2)) (inches 282 2) (inches 28 2)
              "32 KB has mostly paid off the page-count penalty." (91, 1) "#fde68a" true
              (some to_center)
          ∷ [])

  -- The body of the loop over `rows`.
  abbrev pub row_steps : ℕ → String × String × ℕ × String → List (Step x)
  row_steps r (label, pages, blocks, color) =
      let yy = inches (526 + 42 * r) 2 in
      add_text x (at (inches 52 2)) (at yy) (inches 62 2) (inches 18 2) label (89, 1) color true
        none
      ∷ add_text x (at (inches 112 2)) (at yy) (inches 7 1) (inches 18 2) pages (79, 1) "#cbd5e1"
          false none
      ∷ map
          (λ b.
            add_box x (at (inches (190 + 6 * b) 2)) (at (yy + inches 1 2)) (inches 45 3)
              (inches 16 2) color color false)
          (range_from 0 blocks)

  -- The pages that add up.
  abbrev pub overhead_steps : List (Step x)
  overhead_steps =
      add_box x (at (inches 3 1)) (at (inches 472 2)) (inches 335 2) (inches 216 2) "#111827"
          "#334155" true
        ∷ add_text x (at (inches 5 1)) (at (inches 486 2)) (inches 295 2) (inches 24 2)
            "Page overhead multiplies" (120, 1) "#f8fafc" true none
        ∷ flatten (map (λ e. row_steps e.0 e.1) (enumerate 0 overhead_rows))
      ++ (add_text x (at (inches 52 2)) (at (inches 655 2)) (inches 29 1) (inches 18 2)
            "338 ms is all 800 pages, not one chunk." (80, 1) "#facc15" true (some to_center)
          ∷ [])

  -- The bodies of the loops over the clients.
  abbrev pub client_steps : ℕ → String × String → List (Step x)
  client_steps i (client, color) =
      let yy = inches (528 + 28 * i) 2 in
      add_text x (at (inches 412 2)) (at yy) (inches 45 2) (inches 16 2) client (75, 1) color true
        none
      ∷ add_line x (inches 46 1, yy + inches 8 2) (inches 528 2, yy + inches 8 2) color (12, 1)
      ∷ []

  abbrev pub turn_steps : ℕ → String → List (Step x)
  turn_steps i color =
      add_line x (inches 62 1, inches 568 2) (inches (670 + 26 * i) 2, inches 568 2) color (10, 1)
      ∷ add_box x (at (inches (678 + 26 * i) 2)) (at (inches 555 2)) (inches 16 2) (inches 24 2)
          color color false
      ∷ []

  -- The four clients.
  abbrev pub fairness_steps : List (Step x)
  fairness_steps =
      add_box x (at (inches 387 2)) (at (inches 472 2)) (inches 435 2) (inches 216 2) "#0f172a"
          "#334155" true
        ∷ add_text x (at (inches 408 2)) (at (inches 486 2)) (inches 395 2) (inches 24 2)
            "Fairness: equal turns, not identical latency" (120, 1) "#f8fafc" true (some to_center)
        ∷ flatten (
            map (λ e. client_steps e.0 e.1)
              (enumerate 0 (zip ("cli1" ∷ "cli2" ∷ "cli3" ∷ "cli4" ∷ []) colors_clients)))
      ++ (add_box x (at (inches 538 2)) (at (inches 533 2)) (inches 78 2) (inches 72 2) "#172033"
              "#facc15" true
            ∷ add_text x (at (inches 546 2)) (at (inches 549 2)) (inches 62 2) (inches 16 2) "A"
                (13, 0) "#facc15" true (some to_center)
            ∷ add_text x (at (inches 544 2)) (at (inches 573 2)) (inches 66 2) (inches 14 2) "queue"
                (7, 0) "#facc15" true (some to_center)
            ∷ flatten (map (λ e. turn_steps e.0 e.1) (enumerate 0 colors_clients))
          ++ (add_text x (at (inches 418 2)) (at (inches 63 1)) (inches 372 2) (inches 32 2)
                "Each client received 50 chunks; finish spread was 4.3% (116.8-121.8 ms)." (82, 1)
                "#cbd5e1" false (some to_center)
              ∷ []))

  -- The speed-up and the conclusion.
  abbrev pub speedup_steps : List (Step x)
  speedup_steps =
      add_box x (at (inches 845 2)) (at (inches 472 2)) (inches 46 1) (inches 216 2) "#172033"
        "#475569" true
      ∷ add_text x (at (inches 872 2)) (at (inches 485 2)) (inches 115 2) (inches 42 2) "7.7x"
          (30, 0) "#facc15" true none
      ∷ add_text x (at (inches 985 2)) (at (inches 496 2)) (inches 265 2) (inches 28 2)
          "338 ms -> 44 ms" (17, 0) "#38bdf8" true none
      ∷ add_text x (at (inches 872 2)) (at (inches 535 2)) (inches 38 1) (inches 2 1)
          "2 KB to 512 KB total mean" (87, 1) "#94a3b8" false none
      ∷ add_box x (at (inches 876 2)) (at (inches 572 2)) (inches 16 1) (inches 62 2) "#101826"
          "#38bdf8" true
      ∷ add_box x (at (inches 1062 2)) (at (inches 572 2)) (inches 16 1) (inches 62 2) "#101826"
          "#a78bfa" true
      ∷ add_text x (at (inches 888 2)) (at (inches 584 2)) (inches 136 2) (inches 16 2) "32 KB"
          (105, 1) "#38bdf8" true (some to_center)
      ∷ add_text x (at (inches 888 2)) (at (inches 605 2)) (inches 136 2) (inches 16 2)
          "45.7 ms / P90 61" (74, 1) "#dbeafe" false (some to_center)
      ∷ add_text x (at (inches 1074 2)) (at (inches 584 2)) (inches 136 2) (inches 16 2) "512 KB"
          (105, 1) "#a78bfa" true (some to_center)
      ∷ add_text x (at (inches 1074 2)) (at (inches 605 2)) (inches 136 2) (inches 16 2)
          "44.0 ms / P90 110" (74, 1) "#ede9fe" false (some to_center)
      ∷ add_text x (at (inches 882 2)) (at (inches 65 1)) (inches 375 2) (inches 18 2)
          "At 32 KB, page-count cost is mostly amortized." (84, 1) "#facc15" true (some to_center)
      ∷ add_text x (at (inches 45 2)) (at (inches 704 2)) (inches 1245 2) (inches 22 2)
          "Takeaway: first page gathers/cache-builds once; chunk size controls how many later client-to-A page costs are repeated."
          (107, 1) "#e2e8f0" true (some to_center)
      ∷ []

  -- From the presentation on: the chart that the picture shows has been drawn into its file before.
  -- The slide with its background, its items and its notes, and the path under which the presentation is
  -- saved. `root` is the repository's.
  unfoldable pub make_poster : String → Result (String × Slide)
  make_poster root = do
    bg ← rgb x "#070b16"
    s1 ← run_all x (header_steps x) (set_background bg blank)
    s2 ← run_all x (chart_steps x) s1
    s3 ← run_all x (tree_steps x) s2
    s4 ← run_all x (node_steps x) s3
    s5 ← run_all x component_steps s4
    s6 ← run_all x overhead_steps s5
    s7 ← run_all x fairness_steps s6
    s8 ← run_all x speedup_steps s7
    ok (root <> "/" <> "mini2-poster.pptx", set_notes notes s8)
