-- ===== src/Document/Blocks.antt =====
-- What the helpers of the document generator and its loops add to the body of a document.
use Prim.Native.String.{len, slice}
use text.Mathlib.Text.{starts_with}
use text.Mathlib.TextEquality.{starts_with_iff}
use text.Mathlib.TextPositions.{len-append, slice-append_right}
use text.Mathlib.TextLemmas.{append-nil as append-nil_text}
use mini2_anu_asim.Prelude.{
  ℕ, ◌≡◌, refl, sym, subst, ap, ◌∙◌, String, ◌<>◌, str_eq, eq_iff, true, false, not, ◌&&◌, Option,
  none, some, List, [], ◌∷◌, ◌++◌, length, get_elem?, Bool-cases, inl, inr, if◌then◌else◌,
}
use mini2_anu_asim.Document.{
  Docx, Span, paragraph, heading, plain, spans, adjust, with_spans, run_count, starts_with, behind,
  name_fonts, add_heading, add_para,
}

pub adjust-last {ℓ} :
    {A : Type ℓ} (f : A → A) (xs : List A) (a : A)
    → adjust (length xs) f (xs ++ a ∷ []) ≡ xs ++ f a ∷ []
adjust-last f [] a = refl
adjust-last f (y ∷ xs) a = ap (λ r. y ∷ r) (adjust-last f xs a)

pub get_elem-last {ℓ} :
    {A : Type ℓ} (xs : List A) (a : A) → get_elem? (xs ++ a ∷ []) (length xs) ≡ some a
get_elem-last [] a = refl
get_elem-last (y ∷ xs) a = get_elem-last xs a

-- The text of some runs, and the part of it that is bold.
abbrev pub joined : List Span → String
joined [] = ""
joined (s ∷ rest) = s.text <> joined rest

abbrev pub bold_text : List Span → String
bold_text [] = ""
bold_text (s ∷ rest) = if s.bold then s.text <> bold_text rest else bold_text rest

pub joined-spans : (text : String) → joined (spans text) ≡ text
joined-spans text = elim (Bool-cases (str_eq text "")) [
  | inl e ↦ rw (e, spans) (sym ((eq_iff text "").0 e))
  | inr e ↦ rw (e, spans) (append-nil_text text)
]

prefix-behind :
    (prefix text : String) → starts_with text prefix ≡ true → prefix <> behind prefix text ≡ text
prefix-behind prefix text h =
    let (rest, e) = (starts_with_iff text prefix).0 h in
    subst (λ t. prefix <> behind prefix t ≡ t) e
      (ap (λ r. prefix <> r)
        (ap (λ n. slice (prefix <> rest) (len prefix) n) (len-append prefix rest)
          ∙ slice-append_right prefix rest))

-- The prefix, if the text begins with it.
abbrev pub bold_part : String → String → String
bold_part prefix text = if starts_with text prefix then prefix else ""

no_prefix : (text : String) → bold_part "" text ≡ ""
no_prefix text = elim (Bool-cases (starts_with text "")) [ inl e ↦ rw e refl | inr e ↦ rw e refl ]

module _ (x : Docx) where
  open x use {
    Doc, Run, blocks, par_at, add_paragraph, add_paragraph_blocks, add_paragraph_at, add_run,
    add_run_blocks, add_run_part, add_run_number, run_number, set_bold, set_bold_blocks,
    set_font_blocks, new_heading, new_heading_blocks, runs,
  }

  blocks-name_fonts : (rs : List Run) (d : Doc) → blocks (name_fonts x rs d) ≡ blocks d
  unfolding name_fonts
  blocks-name_fonts [] d = refl
  blocks-name_fonts (r ∷ rs) d = blocks-name_fonts rs _ ∙ set_font_blocks "Aptos Display" r d

  pub blocks-add_heading :
      (text : String) (level : ℕ) (d : Doc)
      → blocks (add_heading x text level d).1 ≡ blocks d ++ heading level (spans text) ∷ []
  unfolding add_heading
  blocks-add_heading text level d =
      blocks-name_fonts (runs (new_heading text level d).0 (new_heading text level d).1) _
      ∙ new_heading_blocks text level d

  -- A paragraph without text, and its first run.
  blocks-run :
      (text : String) (d : Doc)
      → blocks (add_run text (add_paragraph "" none d).0 (add_paragraph "" none d).1).1
        ≡ blocks d ++ paragraph none (plain text ∷ []) ∷ []
  blocks-run text d =
      add_run_blocks text _ _
      ∙ rw (add_paragraph_blocks "" none d, add_paragraph_at "" none d)
          (adjust-last (with_spans (λ runs. runs ++ plain text ∷ [])) (blocks d)
            (paragraph none []))

  -- A paragraph whose first run is bold.
  blocks-bold_run :
      (prefix rest : String) (d : Doc)
      → let (p, d1) = add_paragraph "" none d in
        let (r, d2) = add_run prefix p d1 in
        blocks (add_run rest p (set_bold r d2)).1
        ≡ blocks d
          ++ paragraph none
              (record { text = prefix; bold = true; italic = false } ∷ plain rest ∷ [])
            ∷ []
  blocks-bold_run prefix rest d =
      let (p, d1) = add_paragraph "" none d in
      let (r, d2) = add_run prefix p d1 in
      let at = add_paragraph_at "" none d in
      let body = blocks d in
      let number : run_number r ≡ 0 =
        add_run_number prefix p d1
        ∙ rw (add_paragraph_blocks "" none d, at)
            (ap run_count (get_elem-last body (paragraph none []))) in
      let bold : blocks (set_bold r d2)
          ≡ body
            ++ paragraph none (record { text = prefix; bold = true; italic = false } ∷ []) ∷ [] =
        set_bold_blocks r d2
        ∙ rw (blocks-run prefix d, number, add_run_part prefix p d1, at)
            (adjust-last (with_spans (adjust 0 (λ s. record s { bold = true }))) body
              (paragraph none (plain prefix ∷ []))) in
      add_run_blocks rest p (set_bold r d2)
      ∙ rw (bold, at)
          (adjust-last (with_spans (λ runs. runs ++ plain rest ∷ [])) body
            (paragraph none (record { text = prefix; bold = true; italic = false } ∷ [])))

  -- `add_para` adds a paragraph that reads as its text, whatever prefix it is given. If the text begins
  -- with the prefix, just the prefix is bold, and otherwise nothing is.
  pub add_para_reads :
      (text : String) (bold_prefix : Option String) (d : Doc)
      → (runs : List Span) × (blocks (add_para x text bold_prefix d).1
          ≡ blocks d ++ paragraph none runs ∷ [])
        × (joined runs ≡ text)
        × (bold_text runs ≡ (elim bold_prefix [
          | none ↦ ""
          | some prefix ↦ if starts_with text prefix then prefix else ""
        ]))
  unfolding add_para
  add_para_reads text none d = (plain text ∷ [], blocks-run text d, append-nil_text text, refl)
  add_para_reads text (some prefix) d = elim (Bool-cases (str_eq prefix "")) [
    | inl empty ↦
        let nothing : bold_part prefix text ≡ "" =
          subst (λ p. bold_part p text ≡ "") (sym ((eq_iff prefix "").0 empty)) (no_prefix text) in
        rw (empty, not, ◌&&◌, nothing)
          (plain text ∷ [], blocks-run text d, append-nil_text text, refl)
    | inr given ↦ elim (Bool-cases (starts_with text prefix)) [
      | inl e ↦
          rw (given, e, not, ◌&&◌)
            (
              record { text = prefix; bold = true; italic = false }
                  ∷ plain (behind prefix text)
                  ∷ [],
              blocks-bold_run prefix (behind prefix text) d,
              ap (λ r. prefix <> r) (append-nil_text (behind prefix text))
                  ∙ prefix-behind prefix text e,
              append-nil_text prefix,
            )
      | inr e ↦
          rw (given, e, not, ◌&&◌) (plain text ∷ [], blocks-run text d, append-nil_text text, refl)
    ]
  ]
