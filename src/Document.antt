-- ===== src/Document.antt =====
-- scripts/generate_submission_docs.py as far as it writes the report: the library python-docx, which is
-- a parameter, and the helpers `add_heading` and `add_para`. Document/Report has `make_docx`.
pub mod Texts
pub mod Report
pub mod Blocks
pub mod Tables
pub mod Contents
pub mod Grids
pub mod Figures
pub mod Parts
pub mod Written
use Prim.Native.String.{len, slice}
use text.Mathlib.Text.{starts_with}
use mini2_anu_asim.Prelude.{
  ℕ, zero, suc, ◌≡◌, ◌<◌, String, str_eq, Bool, true, false, not, ◌&&◌, Option, none, some, List,
  [], ◌∷◌, ◌++◌, map, length, get_elem?, replicate, Result, or_raise, ◌>>=◌, ok, index_error,
  if◌then◌else◌,
}

-- A run of text in one style.
pub record Span : Type 0 where
  pub text : String
  pub bold : Bool
  pub italic : Bool

-- A part of the body of a document. A paragraph has its style, if one was asked for; a heading has its
-- level, and a table its columns and the texts of its rows.
pub data Block : Type 0 where
  paragraph : Option String → List Span → Block
  heading : ℕ → List Span → Block
  table : ℕ → List (List String) → Block

abbrev pub plain : String → Span
plain text = record { text = text; bold = false; italic = false }

-- The runs of a paragraph that is made with a text: none if the text is empty.
abbrev pub spans : String → List Span
spans text = if str_eq text "" then [] else plain text ∷ []

-- A list whose item with a number is changed.
abbrev pub adjust {ℓ} : {A : Type ℓ} → ℕ → (A → A) → List A → List A
adjust i f [] = []
adjust zero f (a ∷ rest) = f a ∷ rest
adjust (suc i) f (a ∷ rest) = a ∷ adjust i f rest

abbrev pub with_spans : (List Span → List Span) → Block → Block
with_spans f (paragraph style runs) = paragraph style (f runs)
with_spans f (heading level runs) = heading level (f runs)
with_spans f (table columns rows) = table columns rows

abbrev pub with_rows : (List (List String) → List (List String)) → Block → Block
with_rows f (paragraph style runs) = paragraph style runs
with_rows f (heading level runs) = heading level runs
with_rows f (table columns rows) = table columns (f rows)

-- How many runs a part has.
abbrev pub run_count : Option Block → ℕ
run_count (some (paragraph style runs)) = length runs
run_count (some (heading level runs)) = length runs
run_count _ = 0

abbrev pub columns_of : Option Block → ℕ
columns_of (some (table columns rows)) = columns
columns_of _ = 0

abbrev pub row_count : Option Block → ℕ
row_count (some (table columns rows)) = length rows
row_count _ = 0

-- The row that `add_row` puts under a table.
abbrev pub with_blank_row : Block → Block
with_blank_row (table columns rows) = table columns (rows ++ replicate columns "" ∷ [])
with_blank_row b = b

-- The place of a cell: the number of its table in the body, of its row and of its column.
pub record Place : Type 0 where
  pub part : ℕ
  pub row : ℕ
  pub column : ℕ

-- The places of so many cells of a row, from a column on.
abbrev pub places : ℕ → ℕ → ℕ → ℕ → List Place
places part row column zero = []
places part row column (suc n) =
    record { part = part; row = row; column = column } ∷ places part row (suc column) n

pub data Side : Type 0 where
  top bottom left right : Side

-- What the code uses of python-docx. A paragraph, run, table or cell is a reference into its document;
-- the parts of the body are numbered, and none is ever taken away. Lengths are decimals m / 10 ^ k.
-- What `blocks` does not show (margins, fonts, alignment, the look of a table) leaves it as it is.
pub record Docx : Type 1 where
  pub Doc : Type 0
  pub Par : Type 0
  pub Run : Type 0
  pub Table : Type 0
  pub Cell : Type 0
  pub blocks : Doc → List Block
  pub par_at : Par → ℕ
  pub run_part : Run → ℕ
  pub run_number : Run → ℕ
  pub table_at : Table → ℕ
  pub cell_at : Cell → Place
  -- `Document()`: the template has an empty body.
  pub create : Doc
  pub create_blocks : blocks create ≡ []
  -- `doc.sections[0].top_margin = Inches(…)`, and so on.
  pub set_margin : Side → ℕ → ℕ → Doc → Doc
  pub set_margin_blocks : (s : Side) (m k : ℕ) (d : Doc) → blocks (set_margin s m k d) ≡ blocks d
  -- `doc.add_paragraph(text, style=…)`.
  pub add_paragraph : String → Option String → Doc → Par × Doc
  pub add_paragraph_blocks :
      (text : String) (style : Option String) (d : Doc)
      → blocks (add_paragraph text style d).1 ≡ blocks d ++ paragraph style (spans text) ∷ []
  pub add_paragraph_at :
      (text : String) (style : Option String) (d : Doc)
      → par_at (add_paragraph text style d).0 ≡ length (blocks d)
  -- `p.alignment = WD_ALIGN_PARAGRAPH.CENTER`.
  pub center : Par → Doc → Doc
  pub center_blocks : (p : Par) (d : Doc) → blocks (center p d) ≡ blocks d
  -- `p.add_run(text)`.
  pub add_run : String → Par → Doc → Run × Doc
  pub add_run_blocks :
      (text : String) (p : Par) (d : Doc)
      → blocks (add_run text p d).1
        ≡ adjust (par_at p) (with_spans (λ runs. runs ++ plain text ∷ [])) (blocks d)
  pub add_run_part : (text : String) (p : Par) (d : Doc) → run_part (add_run text p d).0 ≡ par_at p
  pub add_run_number :
      (text : String) (p : Par) (d : Doc)
      → run_number (add_run text p d).0 ≡ run_count (get_elem? (blocks d) (par_at p))
  -- `r.bold = True`.
  pub set_bold : Run → Doc → Doc
  pub set_bold_blocks :
      (r : Run) (d : Doc)
      → blocks (set_bold r d)
        ≡ adjust
            (run_part r)
            (with_spans (adjust (run_number r) (λ s. record s { bold = true })))
            (blocks d)
  -- `r.italic = True`.
  pub set_italic : Run → Doc → Doc
  pub set_italic_blocks :
      (r : Run) (d : Doc)
      → blocks (set_italic r d)
        ≡ adjust
            (run_part r)
            (with_spans (adjust (run_number r) (λ s. record s { italic = true })))
            (blocks d)
  -- `r.font.size = Pt(…)`.
  pub set_size : ℕ → Run → Doc → Doc
  pub set_size_blocks : (n : ℕ) (r : Run) (d : Doc) → blocks (set_size n r d) ≡ blocks d
  -- `run.font.name = …`.
  pub set_font : String → Run → Doc → Doc
  pub set_font_blocks : (name : String) (r : Run) (d : Doc) → blocks (set_font name r d) ≡ blocks d
  -- `doc.add_heading(text, level=…)`.
  pub new_heading : String → ℕ → Doc → Par × Doc
  pub new_heading_blocks :
      (text : String) (level : ℕ) (d : Doc)
      → blocks (new_heading text level d).1 ≡ blocks d ++ heading level (spans text) ∷ []
  -- `p.runs`.
  pub runs : Par → Doc → List Run
  -- `doc.add_table(rows=…, cols=…)`.
  pub add_table : ℕ → ℕ → Doc → Table × Doc
  pub add_table_blocks :
      (n columns : ℕ) (d : Doc)
      → blocks (add_table n columns d).1
        ≡ blocks d ++ table columns (replicate n (replicate columns "")) ∷ []
  pub add_table_at :
      (n columns : ℕ) (d : Doc) → table_at (add_table n columns d).0 ≡ length (blocks d)
  -- `table.style = …`.
  pub set_style : String → Table → Doc → Doc
  pub set_style_blocks :
      (name : String) (t : Table) (d : Doc) → blocks (set_style name t d) ≡ blocks d
  -- `table.rows[i].cells`, of a row that the table has.
  pub row_cells : ℕ → Table → Doc → List Cell
  pub row_cells_at :
      (i : ℕ) (t : Table) (d : Doc)
      → i < row_count (get_elem? (blocks d) (table_at t))
      → map cell_at (row_cells i t d)
        ≡ places (table_at t) i 0 (columns_of (get_elem? (blocks d) (table_at t)))
  -- `table.add_row().cells`.
  pub add_row : Table → Doc → List Cell × Doc
  pub add_row_blocks :
      (t : Table) (d : Doc) → blocks (add_row t d).1 ≡ adjust (table_at t) with_blank_row (blocks d)
  pub add_row_at :
      (t : Table) (d : Doc)
      → map cell_at (add_row t d).0
        ≡ places
            (table_at t)
            (row_count (get_elem? (blocks d) (table_at t)))
            0
            (columns_of (get_elem? (blocks d) (table_at t)))
  -- `cell.text = …`.
  pub set_text : Cell → String → Doc → Doc
  pub set_text_blocks :
      (c : Cell) (text : String) (d : Doc)
      → blocks (set_text c text d)
        ≡ adjust
            (cell_at c).part
            (with_rows (adjust (cell_at c).row (adjust (cell_at c).column (λ old. text))))
            (blocks d)

-- `text[len(prefix):]`, of a text that begins with the prefix.
abbrev pub behind : String → String → String
behind prefix text = slice text (len prefix) (len text)

module _ (x : Docx) where
  open x use {
    Doc, Par, Run, Cell, add_paragraph, add_run, set_bold, set_font, new_heading, runs, set_text,
  }

  -- The loop over the runs of a heading.
  unfoldable pub name_fonts : List Run → Doc → Doc
  name_fonts [] d = d
  name_fonts (r ∷ rs) d = name_fonts rs (set_font "Aptos Display" r d)

  unfoldable pub add_heading : String → ℕ → Doc → Par × Doc
  unfolding name_fonts
  add_heading text level d =
      let (p, d1) = new_heading text level d in (p, name_fonts (runs p d1) d1)

  unfoldable pub add_para : String → Option String → Doc → Par × Doc
  add_para text bold_prefix d =
      let (p, d1) = add_paragraph "" none d in
      elim bold_prefix [
        | none ↦ (p, (add_run text p d1).1)
        | some prefix ↦
            if not (str_eq prefix "") && starts_with text prefix
            then (let (r, d2) = add_run prefix p d1 in
                (p, (add_run (behind prefix text) p (set_bold r d2)).1))
            else (p, (add_run text p d1).1)
      ]

  -- `cells[i].text = text`.
  unfoldable pub set_at : List Cell → ℕ → String → Doc → Result Doc
  set_at cells i text d = do c ← or_raise index_error (get_elem? cells i); ok (set_text c text d)
