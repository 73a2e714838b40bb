-- ===== src/Tests/Reporting.antt =====
-- A library of documents that are nothing but their bodies, and the report in it.
use mini2_anu_asim.Prelude.{
  ℕ, ◌≡◌, refl, ap, String, true, none, some, List, [], ◌∷◌, ◌++◌, map, ok, length, get_elem?,
  replicate,
}
use mini2_anu_asim.Document.{
  Docx, Span, Block, paragraph, heading, table, plain, spans, adjust, with_spans, with_rows,
  run_count, columns_of, row_count, with_blank_row, Place, places, add_para,
}
use mini2_anu_asim.Document.Texts.{Value, int, float, takeaways, course_ideas, failures, references}
use mini2_anu_asim.Document.Report.{make_docx}
use mini2_anu_asim.Document.Blocks.{joined, bold_text, add_para_reads}
use mini2_anu_asim.Document.Contents.{headings, styled, grids}
use mini2_anu_asim.Document.Figures.{answers_grid, results_grid, tail_grid, outline}
use mini2_anu_asim.Document.Written.{make_docx_reports}

abbrev embolden : Span → Span
embolden s = record s { bold = true }

abbrev slant : Span → Span
slant s = record s { italic = true }

map_self : (ps : List Place) → map (λ p. p) ps ≡ ps
map_self [] = refl
map_self (p ∷ ps) = ap (λ r. p ∷ r) (map_self ps)

-- The cells of a row of a table.
abbrev cells : ℕ → ℕ → List Block → List Place
cells t row d = places t row 0 (columns_of (get_elem? d t))

-- A reference is the number of what it refers to.
abbrev bodies : Docx
bodies = record {
  Doc = List Block;
  Par = ℕ;
  Run = ℕ × ℕ;
  Table = ℕ;
  Cell = Place;
  blocks = λ d. d;
  par_at = λ p. p;
  run_part = λ r. r.0;
  run_number = λ r. r.1;
  table_at = λ t. t;
  cell_at = λ c. c;
  create = [];
  create_blocks = refl;
  set_margin = λ s m k d. d;
  set_margin_blocks = λ s m k d. refl;
  add_paragraph = λ text style d. (length d, d ++ paragraph style (spans text) ∷ []);
  add_paragraph_blocks = λ text style d. refl;
  add_paragraph_at = λ text style d. refl;
  center = λ p d. d;
  center_blocks = λ p d. refl;
  add_run = λ text p d.
      ((p, run_count (get_elem? d p)), adjust p (with_spans (λ runs. runs ++ plain text ∷ [])) d);
  add_run_blocks = λ text p d. refl;
  add_run_part = λ text p d. refl;
  add_run_number = λ text p d. refl;
  set_bold = λ r d. adjust r.0 (with_spans (adjust r.1 embolden)) d;
  set_bold_blocks = λ r d. refl;
  set_italic = λ r d. adjust r.0 (with_spans (adjust r.1 slant)) d;
  set_italic_blocks = λ r d. refl;
  set_size = λ n r d. d;
  set_size_blocks = λ n r d. refl;
  set_font = λ name r d. d;
  set_font_blocks = λ name r d. refl;
  new_heading = λ text level d. (length d, d ++ heading level (spans text) ∷ []);
  new_heading_blocks = λ text level d. refl;
  runs = λ p d. [];
  add_table =
      λ n columns d. (length d, d ++ table columns (replicate n (replicate columns "")) ∷ []);
  add_table_blocks = λ n columns d. refl;
  add_table_at = λ n columns d. refl;
  set_style = λ name t d. d;
  set_style_blocks = λ name t d. refl;
  row_cells = λ i t d. cells t i d;
  row_cells_at = λ i t d h. map_self (cells t i d);
  add_row = λ t d. (cells t (row_count (get_elem? d t)) d, adjust t with_blank_row d);
  add_row_blocks = λ t d. refl;
  add_row_at = λ t d. map_self (cells t (row_count (get_elem? d t)) d);
  set_text = λ c text d. adjust c.part (with_rows (adjust c.row (adjust c.column (λ old. text)))) d;
  set_text_blocks = λ c text d. refl;
}

-- In place of `str`: a letter for each kind of number.
abbrev digits : Value → String
digits (int n) = "n"
digits (float m k) = "x"

add_para_reads_example :
    (runs : List Span) × ((add_para bodies "Result: 512 KB"
        (some "Result:")
        (paragraph none [] ∷ [])).1
      ≡ paragraph none [] ∷ paragraph none runs ∷ [])
    × (joined runs ≡ "Result: 512 KB")
    × (bold_text runs ≡ "Result:")
add_para_reads_example =
    add_para_reads bodies "Result: 512 KB" (some "Result:") (paragraph none [] ∷ [])

make_docx_reports_example :
    (d : List Block) × (make_docx bodies digits "/repo" ≡ ok ("/repo/mini2-report.docx", d))
    × (headings d ≡ outline)
    × (styled d ≡ (takeaways ++ course_ideas) ++ (failures ++ references))
    × (grids d ≡ answers_grid ∷ results_grid digits ∷ tail_grid digits ∷ [])
make_docx_reports_example = make_docx_reports bodies digits "/repo"
