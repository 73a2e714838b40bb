-- ===== src/Poster/Upper.antt =====
-- The first statements of `make_poster`: the title, the chart and the tree.
use mini2_anu_asim.Prelude.{
  ℕ, zero, suc, ◌*◌, String, true, false, none, some, List, [], ◌∷◌, ◌++◌, map, Result, ok,
  or_raise, key_error, ◌>>=◌,
}
use mini2_anu_asim.Prelude.Int.{ℤ, pos, sub_ℕ}
use mini2_anu_asim.Prelude.Dict.{Dict, get}
use mini2_anu_asim.Poster.{
  Pptx, shape, picture, to_center, to_right, add_box, add_text, add_line, add_node,
}

abbrev pub enumerate {ℓ} : {A : Type ℓ} → ℕ → List A → List (ℕ × A)
enumerate i [] = []
enumerate i (a ∷ rest) = (i, a) ∷ enumerate (suc i) rest

-- `zip`.
abbrev pub zip {ℓ} : {A B : Type ℓ} → List A → List B → List (A × B)
zip (a ∷ as_) (b ∷ bs) = (a, b) ∷ zip as_ bs
zip _ _ = []

-- `range(n)`, from a number on.
abbrev pub range_from : ℕ → ℕ → List ℕ
range_from i zero = []
range_from i (suc n) = i ∷ range_from (suc i) n

-- A position in whole units.
abbrev pub at : ℕ → ℤ
at n = pos (2 * n)

module _ (x : Pptx) where
  open x use {Slide, inches, add}

  -- A statement.
  abbrev pub Step : Type 0
  Step = Slide → Result Slide

  -- `pts`.
  abbrev pub pts : Dict (ℕ × ℕ)
  pts =
      ("Client", ((inches 615 2), (inches 198 2)))
      ∷ ("A", ((inches 695 2), (inches 198 2)))
      ∷ ("B", ((inches 625 2), (inches 265 2)))
      ∷ ("H", ((inches 685 2), (inches 265 2)))
      ∷ ("G", ((inches 745 2), (inches 265 2)))
      ∷ ("I", ((inches 805 2), (inches 265 2)))
      ∷ ("C", ((inches 594 2), (inches 323 2)))
      ∷ ("D", ((inches 632 2), (inches 323 2)))
      ∷ ("E", ((inches 670 2), (inches 323 2)))
      ∷ ("F", ((inches 670 2), (inches 372 2)))
      ∷ []

  -- A statement with `pts[name]`.
  abbrev pub at_pt : String → (ℕ × ℕ → Step) → Step
  at_pt name f s = do p ← or_raise key_error (get name pts); f p s

  -- The bar at the top, the title and the line below it.
  abbrev pub header_steps : List Step
  header_steps =
      add_box x (at (inches 0 0)) (at (inches 0 0)) (inches 13333 3) (inches 10 2) "#f59e0b"
        "#f59e0b" false
      ∷ add_text x (at (inches 32 2)) (at (inches 24 2)) (inches 355 2) (inches 42 2)
          "THE 32 KB KNEE" (28, 0) "#facc15" true none
      ∷ add_text x (at (inches 398 2)) (at (inches 28 2)) (inches 75 1) (inches 34 2)
          "Why 50 pages at 32 KB almost tied 4 pages at 512 KB" (145, 1) "#e2e8f0" true none
      ∷ add_text x (at (inches 116 1)) (at (inches 34 2)) (inches 13 1) (inches 24 2)
          "Anukrithi + Asim" (9, 0) "#94a3b8" false (some to_right)
      ∷ add_text x (at (inches 412 2)) (at (inches 68 2)) (inches 82 1) (inches 22 2)
          "NYC 311 2020-present | 80k returned rows | 20-byte records | A-F host1, G/H/I host2 | 30 runs/chunk"
          (88, 1) "#94a3b8" false none
      ∷ []

  -- The chart: its box, and `slide.shapes.add_picture`.
  abbrev pub chart_steps : List Step
  chart_steps =
      add_box x (at (inches 3 1)) (at (inches 98 2)) (inches 522 2) (inches 35 1) "#111827"
        "#334155" true
      ∷ (λ s.
          ok
            (add
              (shape picture (at (inches 48 2)) (at (inches 117 2)) (inches 488 2) (inches 308 2))
              s).1)
      ∷ []

  -- The tree: its title and its lines.
  abbrev pub tree_steps : List Step
  tree_steps =
      add_box x (at (inches 572 2)) (at (inches 98 2)) (inches 325 2) (inches 35 1) "#0f172a"
          "#334155" true
        ∷ add_text x (at (inches 592 2)) (at (inches 112 2)) (inches 285 2) (inches 24 2)
            "Scatter-gather fan-in" (125, 1) "#f8fafc" true (some to_center)
        ∷ add_text x (at (inches 602 2)) (at (inches 138 2)) (inches 265 2) (inches 2 1)
            "Client only calls A" (92, 1) "#38bdf8" true (some to_center)
        ∷ at_pt "Client" (λ p. at_pt "A" (λ r. add_line x p r "#38bdf8" (20, 1)))
        ∷ map (λ child. at_pt "A" (λ p. at_pt child (λ r. add_line x p r "#64748b" (11, 1))))
            ("B" ∷ "H" ∷ "G" ∷ "I" ∷ [])
      ++ (map (λ child. at_pt "B" (λ p. at_pt child (λ r. add_line x p r "#64748b" (11, 1))))
          ("C" ∷ "D" ∷ "E" ∷ []))

  -- The nodes of the tree.
  abbrev pub node_steps : List Step
  node_steps =
      at_pt "E" (λ p. at_pt "F" (λ r. add_line x p r "#64748b" (11, 1)))
        ∷ at_pt "Client" (λ p.
          add_box x (sub_ℕ (2 * p.0) (2 * (inches 32 2))) (sub_ℕ (2 * p.1) (2 * (inches 16 2)))
            (inches 64 2) (inches 32 2) "#1e293b" "#38bdf8" true)
        ∷ at_pt "Client" (λ p.
          add_text x (sub_ℕ (2 * p.0) (2 * (inches 29 2))) (sub_ℕ (2 * p.1) (2 * (inches 9 2)))
            (inches 58 2) (inches 16 2) "Client" (78, 1) "#38bdf8" true (some to_center))
        ∷ at_pt "A" (λ p. add_node x p "A" "#3b2f12" "#facc15" "#facc15")
        ∷ map (λ n. at_pt n (λ p. add_node x p n "#172033" "#64748b" "#f8fafc"))
            ("B" ∷ "C" ∷ "D" ∷ "E" ∷ "F" ∷ "G" ∷ "H" ∷ [])
      ++ (at_pt "I" (λ p. add_node x p "I" "#13251f" "#34d399" "#bbf7d0")
          ∷ add_text x (at (inches 745 2)) (at (inches 178 2)) (inches 12 1) (inches 34 2)
              "first page gathers\nB-I once" (78, 1) "#94a3b8" false (some to_center)
          ∷ add_text x (at (inches 598 2)) (at (inches 405 2)) (inches 27 1) (inches 22 2)
              "A materializes/cache-builds the 1.6 MB result" (78, 1) "#cbd5e1" false
              (some to_center)
          ∷ [])
