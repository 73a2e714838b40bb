-- ===== src/Poster.antt =====
-- `make_poster` of scripts/generate_submission_docs.py: the library python-pptx, which is a parameter,
-- and the helpers `rgb`, `add_box`, `add_text`, `add_line` and `add_node`.
pub mod Safe
pub mod Notes
pub mod Upper
pub mod Steps
pub mod Literal
pub mod Loops
pub mod Layout
use Prim.Native.Char.{code}
use mini2_anu_asim.Prelude.{
  ℕ, ◌+◌, ◌*◌, ◌^◌, ◌≤◌, ◌<◌, ◌≡◌, String, Bool, true, false, Option, none, some, List, [], ◌∷◌,
  ◌++◌, ◌==◌, ◌-◌, ◌&&◌, leb, take, drop, if◌then◌else◌, Result, ok, ◌>>=◌,
}
use mini2_anu_asim.Prelude.Int.{ℤ, pos, sub_ℕ}
use mini2_anu_asim.Prelude.Text.{Str, codes}

pub data Kind : Type 0 where
  rounded rectangle oval text_box picture : Kind

-- What stands on a slide. The position of a shape is in halves of a unit, since `add_node` divides by
-- two; its size, and the two ends of a line, are in whole units.
pub data Item : Type 0 where
  shape : Kind → ℤ → ℤ → ℕ → ℕ → Item
  line : ℕ → ℕ → ℕ → ℕ → Item

pub record Colour : Type 0 where
  pub red : ℕ
  pub green : ℕ
  pub blue : ℕ

pub data Side : Type 0 where
  left right top bottom : Side

pub data Align : Type 0 where
  to_center to_right : Align

-- What the code sets of a shape. Lengths are decimals m / 10 ^ k.
pub data Setting : Type 0 where
  solid_fill clear_text : Setting
  fill_colour line_colour font_colour : Colour → Setting
  line_width font_size : ℕ → ℕ → Setting
  margin : Side → ℕ → ℕ → Setting
  text : String → Setting
  align : Align → Setting
  bold : Bool → Setting

-- The value of a hexadecimal digit.
unfoldable pub hex_digit : ℕ → Option ℕ
hex_digit c =
    if leb b'0' c && leb c b'9'
    then some (c - b'0')
    else if leb b'a' c && leb c b'f'
    then some (c - b'a' + 10)
    else if leb b'A' c && leb c b'F'
    then some (c - b'A' + 10)
    else none

-- What the code uses of Python and of python-pptx. `inches m k` is `Inches(x)`, where the float `x` is
-- computed as m / 10 ^ k: the whole units below, up to the rounding of `x`.
pub record Pptx : Type 1 where
  pub Slide : Type 0
  pub Shape : Type 0
  pub items : Slide → List Item
  pub inches : ℕ → ℕ → ℕ
  pub inches_low : (m k : ℕ) → 914400 * m ≤ (inches m k + 1) * 10 ^ k
  pub inches_high : (m k : ℕ) → inches m k * 10 ^ k ≤ 914400 * m
  -- `int(text, 16)`.
  pub int16 : Str → Result ℕ
  pub int16_digits :
      (c d a b : ℕ)
      → hex_digit c ≡ some a
      → hex_digit d ≡ some b
      → int16 (c ∷ d ∷ []) ≡ ok (16 * a + b)
  -- `add_shape`, `add_textbox`, `add_connector` and `add_picture`.
  pub add : Item → Slide → Shape × Slide
  pub add_items : (i : Item) (s : Slide) → items (add i s).1 ≡ items s ++ i ∷ []
  -- The slide that `make_poster` adds to a new presentation, in the empty layout.
  pub blank : Slide
  pub blank_items : items blank ≡ []
  pub set_background : Colour → Slide → Slide
  pub set_background_items : (c : Colour) (s : Slide) → items (set_background c s) ≡ items s
  pub set_notes : String → Slide → Slide
  pub set_notes_items : (t : String) (s : Slide) → items (set_notes t s) ≡ items s
  pub set : Setting → Shape → Slide → Slide
  pub set_items : (t : Setting) (h : Shape) (s : Slide) → items (set t h s) ≡ items s

-- `text.lstrip("#")`.
unfoldable pub strip_hashes : Str → Str
strip_hashes [] = []
strip_hashes (c ∷ s) = let rest = strip_hashes s in if c == b'#' then rest else c ∷ s

-- `text[i:i + 2]`.
abbrev pub pair_at : ℕ → Str → Str
pair_at i s = take 2 (drop i s)

module _ (x : Pptx) where
  open x use {Slide, Shape, inches, int16, add, set}

  -- The colour of the digits behind the hashes.
  unfoldable pub colour_of : Str → Result Colour
  colour_of hex = do
    red ← int16 (pair_at 0 hex)
    green ← int16 (pair_at 2 hex)
    blue ← int16 (pair_at 4 hex)
    ok (record { red = red; green = green; blue = blue })

  unfoldable pub rgb : String → Result Colour
  unfolding strip_hashes colour_of
  rgb hex_color = colour_of (strip_hashes (codes hex_color))

  unfoldable pub add_box : ℤ → ℤ → ℕ → ℕ → String → String → Bool → Slide → Result Slide
  unfolding rgb
  add_box x y w h fill outline radius s = do
    let (box, s1) = add (shape (if radius then rounded else rectangle) x y w h) s
    let s2 = set solid_fill box s1
    c ← rgb fill
    let s3 = set (fill_colour c) box s2
    l ← rgb outline
    ok (set (line_colour l) box s3)

  unfoldable pub set_align : Option Align → Shape → Slide → Slide
  set_align none box s = s
  set_align (some a) box s = set (align a) box s

  unfoldable pub add_text :
      ℤ → ℤ → ℕ → ℕ → String → ℕ × ℕ → String → Bool → Option Align → Slide → Result Slide
  unfolding rgb set_align
  add_text x y w h t size color is_bold a s = do
    let (box, s1) = add (shape text_box x y w h) s
    let s2 = set clear_text box s1
    let s3 = set (margin right 4 2) box (set (margin left 4 2) box s2)
    let s4 = set (margin bottom 2 2) box (set (margin top 2 2) box s3)
    let s5 = set_align a box (set (text t) box s4)
    let s6 = set (bold is_bold) box (set (font_size size.0 size.1) box s5)
    c ← rgb color
    ok (set (font_colour c) box s6)

  unfoldable pub add_line : ℕ × ℕ → ℕ × ℕ → String → ℕ × ℕ → Slide → Result Slide
  unfolding rgb
  add_line from to color width s = do
    let (link, s1) = add (line from.0 from.1 to.0 to.1) s
    c ← rgb color
    ok (set (line_width width.0 width.1) link (set (line_colour c) link s1))

  unfoldable pub add_node : ℕ × ℕ → String → String → String → String → Slide → Result Slide
  unfolding rgb
  add_node at label fill outline color s = do
    let size = inches 36 2
    let (box, s1) = add (shape oval (sub_ℕ (2 * at.0) size) (sub_ℕ (2 * at.1) size) size size) s
    let s2 = set solid_fill box s1
    c ← rgb fill
    let s3 = set (fill_colour c) box s2
    l ← rgb outline
    let s4 = set (text label) box (set clear_text box (set (line_colour l) box s3))
    let s5 = set (font_size 10 0) box (set (bold true) box (set (align to_center) box s4))
    k ← rgb color
    ok (set (font_colour k) box s5)

  -- Statements that follow each other.
  abbrev pub run_all : List (Slide → Result Slide) → Slide → Result Slide
  run_all [] s = ok s
  run_all (step ∷ steps) s = do s' ← step s; run_all steps s'
