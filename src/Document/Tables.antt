-- ===== src/Document/Tables.antt =====
-- What the loops that fill a table leave in it.
use mini2_anu_asim.Prelude.{
  ℕ, zero, suc, ◌+◌, ◌<◌, ◌≤◌, ◌≡◌, refl, sym, ap, ◌∙◌, String, some, List, [], ◌∷◌, ◌++◌, map,
  append_assoc, append-nil, length, length-append, length-map, get_elem?, replicate, ok, or_raise,
  All, arith,
}
use mini2_anu_asim.Document.{Docx, Block, table, adjust, with_rows, with_blank_row, places, set_at}
use mini2_anu_asim.Document.Texts.{Value}
use mini2_anu_asim.Document.Report.{set_values, value_rows}
use mini2_anu_asim.Document.Blocks.{adjust-last, get_elem-last}

length-replicate : (n : ℕ) (a : String) → length (replicate n a) ≡ n
length-replicate zero a = refl
length-replicate (suc n) a = ap suc (length-replicate n a)

length-adjust {ℓ} :
    {A : Type ℓ} (i : ℕ) (f : A → A) (xs : List A) → length (adjust i f xs) ≡ length xs
length-adjust i f [] = refl
length-adjust zero f (a ∷ xs) = refl
length-adjust (suc i) f (a ∷ xs) = ap suc (length-adjust i f xs)

-- The texts put over those of a row, from an index on.
abbrev put_all : ℕ → List String → List String → List String
put_all i [] row = row
put_all i (text ∷ texts) row = put_all (suc i) texts (adjust i (λ old. text) row)

adjust-between :
    (text old : String) (done row : List String)
    → adjust (length done) (λ o. text) (done ++ old ∷ row) ≡ (done ++ text ∷ []) ++ row
adjust-between text old [] row = refl
adjust-between text old (d ∷ done) row = ap (λ r. d ∷ r) (adjust-between text old done row)

put_all-between :
    (texts done row : List String)
    → length texts ≡ length row
    → (i : ℕ) → i ≡ length done
    → put_all i texts (done ++ row) ≡ done ++ texts
put_all-between [] done [] h i at = refl
put_all-between [] done (old ∷ row) h i at = absurd (omega (arith, h))
put_all-between (text ∷ texts) done [] h i at = absurd (omega (arith, h))
put_all-between (text ∷ texts) done (old ∷ row) h i at = rw at (
    ap (put_all (suc (length done)) texts) (adjust-between text old done row)
    ∙ put_all-between texts (done ++ text ∷ []) row (omega (arith, h)) (suc (length done))
        (omega (arith, length-append done (text ∷ [])))
    ∙ append_assoc done (text ∷ []) texts)

module _ (x : Docx) where
  open x use {
    Doc, Table, Cell, blocks, table_at, cell_at, add_table, add_table_blocks, add_table_at,
    set_style_blocks, row_cells, row_cells_at, add_row, add_row_blocks, add_row_at, set_text,
    set_text_blocks,
  }

  -- The cells are those of the last row of the table that ends the body, which holds these texts.
  pub record IsRow (before : List Block) (columns : ℕ) (rows : List (List String))
      (cells : List Cell) (row : List String) (d : Doc) : Type 0 where
    pub body : blocks d ≡ before ++ table columns (rows ++ row ∷ []) ∷ []
    pub at : map cell_at cells ≡ places (length before) (length rows) 0 (length row)

  cell_found :
      (cells : List Cell) (i part r c n : ℕ)
      → map cell_at cells ≡ places part r c n
      → i < n
      → (cell : Cell) × (get_elem? cells i ≡ some cell)
        × (cell_at cell ≡ record { part = part; row = r; column = c + i })
  cell_found [] i part r c zero e h = absurd (omega arith)
  cell_found [] i part r c (suc n) e h = absurd cc
  cell_found (cell ∷ cells) i part r c zero e h = absurd (omega arith)
  cell_found (cell ∷ cells) zero part r c (suc n) e h =
      let here : cell_at cell ≡ record { part = part; row = r; column = c } = cc in
      (cell, refl, here ∙ ap (λ k. record { part = part; row = r; column = k }) (omega arith))
  cell_found (cell ∷ cells) (suc i) part r c (suc n) e h =
      let others : map cell_at cells ≡ places part r (suc c) n = cc in
      let (found, at, place) = cell_found cells i part r (suc c) n others (omega arith) in
      (found, at, place ∙ ap (λ k. record { part = part; row = r; column = k }) (omega arith))

  pub set_at-IsRow :
      (before : List Block) (columns : ℕ) (rows : List (List String)) (cells : List Cell)
      (row : List String) (d : Doc) (i : ℕ) (text : String)
      → IsRow before columns rows cells row d
      → i < length row
      → (d' : Doc) × (set_at x cells i text d ≡ ok d')
        × IsRow before columns rows cells (adjust i (λ old. text) row) d'
  unfolding set_at
  set_at-IsRow before columns rows cells row d i text is h =
      let nought : 0 + i ≡ i = omega arith in
      let (cell, found, place) =
        cell_found cells i (length before) (length rows) 0 (length row) is.at h in
      (
        set_text cell text d,
        rw (found, or_raise) refl,
        record {
          body =
              set_text_blocks cell text d
              ∙ rw (place, nought, is.body)
                  (adjust-last (with_rows (adjust (length rows) (adjust i (λ old. text)))) before
                      (table columns (rows ++ row ∷ []))
                    ∙ ap (λ r. before ++ table columns r ∷ [])
                        (adjust-last (adjust i (λ old. text)) rows row));
          at =
              is.at
              ∙ ap (λ n. places (length before) (length rows) 0 n)
                  (sym (length-adjust i (λ old. text) row));
        },
      )

  -- The whole row, put over blank cells.
  set_values-IsRow :
      (str : Value → String) (before : List Block) (columns : ℕ) (rows : List (List String))
      (cells : List Cell) (values : List Value) (i : ℕ) (row : List String) (d : Doc)
      → IsRow before columns rows cells row d
      → i + length values ≤ length row
      → (d' : Doc) × (set_values x str cells i values d ≡ ok d')
        × IsRow before columns rows cells (put_all i (map str values) row) d'
  set_values-IsRow str before columns rows cells [] i row d is h = (d, refl, is)
  set_values-IsRow str before columns rows cells (value ∷ rest) i row d is h =
      let (d1, e1, is1) =
        set_at-IsRow before columns rows cells row d i (str value) is (omega (arith, h)) in
      let (d2, e2, is2) =
        set_values-IsRow str before columns rows cells rest (suc i)
          (adjust i (λ old. str value) row) d1 is1
          (omega (arith, h, length-adjust i (λ (old : String). str value) row)) in
      (d2, rw e1 e2, is2)

  -- The row that `add_row` puts under the table that ends the body.
  pub add_row-IsRow :
      (t : Table) (before : List Block) (columns : ℕ) (rows : List (List String)) (d : Doc)
      → table_at t ≡ length before
      → blocks d ≡ before ++ table columns rows ∷ []
      → IsRow before columns rows (add_row t d).0 (replicate columns "") (add_row t d).1
  add_row-IsRow t before columns rows d at body = record {
    body =
        add_row_blocks t d ∙ rw (at, body) (adjust-last with_blank_row before (table columns rows));
    at =
        add_row_at t d
        ∙ rw (at, body, get_elem-last before (table columns rows), length-replicate columns "")
            refl;
  }

  -- The first row of a table that ends the body.
  pub first-IsRow :
      (t : Table) (before : List Block) (row : List String) (d : Doc)
      → table_at t ≡ length before
      → blocks d ≡ before ++ table (length row) (row ∷ []) ∷ []
      → IsRow before (length row) [] (row_cells 0 t d) row d
  first-IsRow t before row d at body =
      let found = get_elem-last before (table (length row) (row ∷ [])) in
      record {
        body = body;
        at = row_cells_at 0 t d (rw (at, body, found) (omega arith)) ∙ rw (at, body, found) refl;
      }

  -- Every row of `value_rows` has as many values as the table has columns; then the loop ends without
  -- an exception, and the rows stand under those of the table.
  pub value_rows-fill :
      (str : Value → String) (t : Table) (before : List Block) (columns : ℕ)
      (rows : List (List String)) (values : List (List Value)) (d : Doc)
      → table_at t ≡ length before
      → blocks d ≡ before ++ table columns rows ∷ []
      → All (λ row. length row ≡ columns) values
      → (d' : Doc) × (value_rows x str t values d ≡ ok d')
        × (blocks d' ≡ before ++ table columns (rows ++ map (map str) values) ∷ [])
  value_rows-fill str t before columns rows [] d at body wide =
      (d, refl, body ∙ ap (λ r. before ++ table columns r ∷ []) (sym (append-nil rows)))
  value_rows-fill str t before columns rows (row ∷ rest) d at body wide =
      let blank = length-replicate columns "" in
      let (d1, e1, is1) =
        set_values-IsRow str before columns rows (add_row t d).0 row 0 (replicate columns "")
          (add_row t d).1 (add_row-IsRow t before columns rows d at body)
          (omega (arith, blank, wide.0)) in
      let full : put_all 0 (map str row) (replicate columns "") ≡ map str row =
        put_all-between (map str row) [] (replicate columns "")
          (omega (arith, blank, wide.0, length-map str row)) 0 refl in
      let (d2, e2, body2) =
        value_rows-fill str t before columns (rows ++ map str row ∷ []) rest d1 at
          (is1.body ∙ ap (λ r. before ++ table columns (rows ++ r ∷ []) ∷ []) full) wide.1 in
      (
        d2,
        rw e1 e2,
        body2
            ∙ ap (λ r. before ++ table columns r ∷ [])
                (append_assoc rows (map str row ∷ []) (map (map str) rest)),
      )
