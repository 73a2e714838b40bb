-- ===== src/Document/Contents.antt =====
-- What a reader finds in the body of a document, and what a part of `make_docx` adds to it.
use mini2_anu_asim.Prelude.{
  ◌≡◌, refl, sym, ap, ◌∙◌, String, none, some, List, [], ◌∷◌, ◌++◌, append_assoc, append-nil,
}
use mini2_anu_asim.Document.{Docx, Block, paragraph, heading, table, spans}
use mini2_anu_asim.Document.Report.{head, say, bullets}
use mini2_anu_asim.Document.Blocks.{joined, joined-spans, blocks-add_heading, add_para_reads}

-- The headings, the paragraphs in a style, and the rows of the tables, in order.
abbrev pub headings : List Block → List String
headings [] = []
headings (heading level runs ∷ rest) = joined runs ∷ headings rest
headings (paragraph style runs ∷ rest) = headings rest
headings (table columns rows ∷ rest) = headings rest

abbrev pub styled : List Block → List String
styled [] = []
styled (paragraph (some style) runs ∷ rest) = joined runs ∷ styled rest
styled (paragraph none runs ∷ rest) = styled rest
styled (heading level runs ∷ rest) = styled rest
styled (table columns rows ∷ rest) = styled rest

abbrev pub grids : List Block → List (List (List String))
grids [] = []
grids (table columns rows ∷ rest) = rows ∷ grids rest
grids (paragraph style runs ∷ rest) = grids rest
grids (heading level runs ∷ rest) = grids rest

headings-append : (xs ys : List Block) → headings (xs ++ ys) ≡ headings xs ++ headings ys
headings-append [] ys = refl
headings-append (heading level runs ∷ xs) ys = ap (λ r. joined runs ∷ r) (headings-append xs ys)
headings-append (paragraph style runs ∷ xs) ys = headings-append xs ys
headings-append (table columns rows ∷ xs) ys = headings-append xs ys

styled-append : (xs ys : List Block) → styled (xs ++ ys) ≡ styled xs ++ styled ys
styled-append [] ys = refl
styled-append (paragraph (some style) runs ∷ xs) ys =
    ap (λ r. joined runs ∷ r) (styled-append xs ys)
styled-append (paragraph none runs ∷ xs) ys = styled-append xs ys
styled-append (heading level runs ∷ xs) ys = styled-append xs ys
styled-append (table columns rows ∷ xs) ys = styled-append xs ys

grids-append : (xs ys : List Block) → grids (xs ++ ys) ≡ grids xs ++ grids ys
grids-append [] ys = refl
grids-append (table columns rows ∷ xs) ys = ap (λ r. rows ∷ r) (grids-append xs ys)
grids-append (paragraph style runs ∷ xs) ys = grids-append xs ys
grids-append (heading level runs ∷ xs) ys = grids-append xs ys

module _ (x : Docx) where
  open x use {Doc, blocks, add_paragraph, add_paragraph_blocks}

  -- The second document goes on behind the first, with these headings, styled paragraphs and tables.
  pub record Adds (old new : Doc) (hs ps : List String) (ts : List (List (List String)))
      : Type 0 where
    pub added : List Block
    pub grown : blocks new ≡ blocks old ++ added
    pub heads : headings added ≡ hs
    pub paras : styled added ≡ ps
    pub tables : grids added ≡ ts

  pub then_Adds :
      {a b c : Doc} {hs hs' ps ps' : List String} {ts ts' : List (List (List String))}
      → Adds a b hs ps ts
      → Adds b c hs' ps' ts'
      → Adds a c (hs ++ hs') (ps ++ ps') (ts ++ ts')
  then_Adds {a = a} first second = record {
    added = first.added ++ second.added;
    grown =
        second.grown
        ∙ ap (λ bs. bs ++ second.added) first.grown
        ∙ append_assoc (blocks a) first.added second.added;
    heads = headings-append first.added second.added ∙ rw (first.heads, second.heads) refl;
    paras = styled-append first.added second.added ∙ rw (first.paras, second.paras) refl;
    tables = grids-append first.added second.added ∙ rw (first.tables, second.tables) refl;
  }

  pub head-Adds : (text : String) (d : Doc) → Adds d (head x text d) (text ∷ []) [] []
  head-Adds text d = record {
    added = heading 1 (spans text) ∷ [];
    grown = blocks-add_heading x text 1 d;
    heads = ap (λ t. t ∷ []) (joined-spans text);
    paras = refl;
    tables = refl;
  }

  pub say-Adds : (text : String) (d : Doc) → Adds d (say x text d) [] [] []
  say-Adds text d =
      let (runs, grown, _, _) = add_para_reads x text none d in
      record {
        added = paragraph none runs ∷ [];
        grown = grown;
        heads = refl;
        paras = refl;
        tables = refl;
      }

  pub bullets-Adds : (items : List String) (d : Doc) → Adds d (bullets x items d) [] items []
  bullets-Adds [] d = record {
    added = [];
    grown = sym (append-nil (blocks d));
    heads = refl;
    paras = refl;
    tables = refl;
  }
  bullets-Adds (item ∷ items) d =
      let first : Adds d (add_paragraph item (some "List Bullet") d).1 [] (item ∷ []) [] = record {
        added = paragraph (some "List Bullet") (spans item) ∷ [];
        grown = add_paragraph_blocks item (some "List Bullet") d;
        heads = refl;
        paras = ap (λ t. t ∷ []) (joined-spans item);
        tables = refl;
      } in
      then_Adds first (bullets-Adds items _)
