-- ===== src/Poster/Safe.antt =====
-- The helpers of `make_poster` do not raise, and what they put on the slide lies inside it.
use mini2_anu_asim.Prelude.{
  ℕ, ◌+◌, ◌*◌, ◌≤◌, ◌≡◌, refl, sym, ap, ◌∙◌, String, Bool, true, false, ◌&&◌, Option, none, some,
  List, [], ◌∷◌, ◌++◌, if◌then◌else◌, Result, ok, ◌>>=◌, arith, leb, All, All-append, append_assoc,
  append-nil,
}
use mini2_anu_asim.Prelude.Int.{ℤ, sub_ℕ, pos_part, neg_part}
use mini2_anu_asim.Prelude.Text.{Str, codes}
use mini2_anu_asim.Prelude.Dict.{is_some}
use mini2_anu_asim.Poster.{
  Pptx, Kind, rounded, rectangle, oval, text_box, picture, Item, shape, line, Colour, Align,
  hex_digit, strip_hashes, rgb, add_box, set_align, add_text, add_line, add_node, run_all,
  colour_of,
}

-- Six hexadecimal digits.
abbrev pub are_six : Str → Bool
are_six (a ∷ b ∷ c ∷ d ∷ e ∷ f ∷ []) =
    is_some (hex_digit a)
    && (is_some (hex_digit b)
        && (is_some (hex_digit c)
            && (is_some (hex_digit d) && (is_some (hex_digit e) && is_some (hex_digit f)))))
are_six _ = false

abbrev pub is_colour : String → Bool
is_colour s = are_six (strip_hashes (codes s))

given : (o : Option ℕ) → is_some o ≡ true → (n : ℕ) × (o ≡ some n)
given none h = absurd cc
given (some n) h = (n, refl)

pub after_ok {ℓ κ} :
    {R : Type ℓ} {S : Type κ} {r : R} {res : Result R} (next : R → Result S)
    → res ≡ ok r
    → (res >>= next) ≡ next r
after_ok next e = ap (λ res. res >>= next) e

module _ (x : Pptx) where
  open x use {Slide, Shape, inches, items, int16, int16_digits, add, add_items, set, set_items}

  int16_pair :
      (c d : ℕ)
      → is_some (hex_digit c) ≡ true
      → is_some (hex_digit d) ≡ true
      → (n : ℕ) × (int16 (c ∷ d ∷ []) ≡ ok n)
  int16_pair c d hc hd =
      let (a, ea) = given (hex_digit c) hc in
      let (b, eb) = given (hex_digit d) hd in (16 * a + b, int16_digits c d a b ea eb)

  abbrev pub slide_width : ℕ
  slide_width = inches 13333 3

  abbrev pub slide_height : ℕ
  slide_height = inches 75 1

  -- The item does not stand out over the edges of the slide.
  abbrev pub Inside : Item → Type 0
  Inside (shape kind a b w h) =
      (neg_part a ≡ 0)
      × (pos_part a + 2 * w ≤ 2 * slide_width)
      × (neg_part b ≡ 0)
      × (pos_part b + 2 * h ≤ 2 * slide_height)
  Inside (line a b c d) =
      (a ≤ slide_width) × (b ≤ slide_height) × (c ≤ slide_width) × (d ≤ slide_height)

  -- The step does not raise, and adds items that lie inside the slide.
  abbrev pub Safe : (Slide → Result Slide) → Type 0
  Safe step =
      (s : Slide)
      → (s' : Slide) × (more : List Item) × (step s ≡ ok s')
        × (items s' ≡ items s ++ more)
        × All Inside more

  pub run_all-Safe : (steps : List (Slide → Result Slide)) → All Safe steps → Safe (run_all x steps)
  run_all-Safe [] h s = (s, [], refl, sym (append-nil (items s)), tt)
  run_all-Safe (step ∷ steps) h s =
      let (s1, is1, e1, b1, in1) = h.0 s in
      let (s2, is2, e2, b2, in2) = run_all-Safe steps h.1 s1 in
      (
        s2,
        is1 ++ is2,
        rw e1 e2,
        b2 ∙ ap (λ l. l ++ is2) b1 ∙ append_assoc (items s) is1 is2,
        All-append Inside is1 is2 in1 in2,
      )

  colour_of-six : (hex : Str) → are_six hex ≡ true → (c : Colour) × (colour_of x hex ≡ ok c)
  unfolding colour_of
  colour_of-six (a ∷ b ∷ c ∷ d ∷ e ∷ f ∷ []) h =
      let (red, er) = int16_pair a b (ground arith) (ground arith) in
      let (green, eg) = int16_pair c d (ground arith) (ground arith) in
      let (blue, eb) = int16_pair e f (ground arith) (ground arith) in
      (record { red = red; green = green; blue = blue }, rw (er, eg, eb) refl)
  colour_of-six _ h = absurd cc

  pub rgb-ok : (t : String) → is_colour t ≡ true → (c : Colour) × (rgb x t ≡ ok c)
  unfolding rgb
  rgb-ok t h = colour_of-six (strip_hashes (codes t)) h

  set_align-items : (a : Option Align) (h : Shape) (s : Slide) → items (set_align x a h s) ≡ items s
  unfolding set_align
  set_align-items none h s = refl
  set_align-items (some a) h s = set_items _ h s

  pub add_box-Safe :
      (a b : ℤ) (w h : ℕ) (fill outline : String) (radius : Bool)
      → ((kind : Kind) → Inside (shape kind a b w h))
      → is_colour fill ≡ true
      → is_colour outline ≡ true
      → Safe (add_box x a b w h fill outline radius)
  unfolding add_box
  add_box-Safe a b w h fill outline radius inside hf ho s =
      let (c, ec) = rgb-ok fill hf in
      let (l, el) = rgb-ok outline ho in
      let kind = if radius then rounded else rectangle in
      (
        _,
        shape kind a b w h ∷ [],
        after_ok _ ec ∙ after_ok _ el,
        set_items _ _ _ ∙ set_items _ _ _ ∙ set_items _ _ _ ∙ add_items _ _,
        (inside kind, tt),
      )

  pub add_text-Safe :
      (a b : ℤ) (w h : ℕ) (t : String) (size : ℕ × ℕ) (color : String) (is_bold : Bool)
      (al : Option Align)
      → ((kind : Kind) → Inside (shape kind a b w h))
      → is_colour color ≡ true
      → Safe (add_text x a b w h t size color is_bold al)
  unfolding add_text
  add_text-Safe a b w h t size color is_bold al inside hc s =
      let (c, ec) = rgb-ok color hc in
      (
        _,
        shape text_box a b w h ∷ [],
        after_ok _ ec,
        set_items _ _ _
            ∙ set_items _ _ _
            ∙ set_items _ _ _
            ∙ set_align-items al _ _
            ∙ set_items _ _ _
            ∙ set_items _ _ _
            ∙ set_items _ _ _
            ∙ set_items _ _ _
            ∙ set_items _ _ _
            ∙ set_items _ _ _
            ∙ add_items _ _,
        (inside text_box, tt),
      )

  pub add_line-Safe :
      (from to : ℕ × ℕ) (color : String) (width : ℕ × ℕ)
      → Inside (line from.0 from.1 to.0 to.1)
      → is_colour color ≡ true
      → Safe (add_line x from to color width)
  unfolding add_line
  add_line-Safe from to color width inside hc s =
      let (c, ec) = rgb-ok color hc in
      (
        _,
        line from.0 from.1 to.0 to.1 ∷ [],
        after_ok _ ec,
        set_items _ _ _ ∙ set_items _ _ _ ∙ add_items _ _,
        (inside, tt),
      )

  pub add_node-Safe :
      (at : ℕ × ℕ) (label fill outline color : String)
      → ((kind : Kind)
          → Inside (
              shape kind
                (sub_ℕ (2 * at.0) (inches 36 2))
                (sub_ℕ (2 * at.1) (inches 36 2))
                (inches 36 2)
                (inches 36 2)))
      → is_colour fill ≡ true
      → is_colour outline ≡ true
      → is_colour color ≡ true
      → Safe (add_node x at label fill outline color)
  unfolding add_node
  add_node-Safe at label fill outline color inside hf ho hc s =
      let (c, ec) = rgb-ok fill hf in
      let (l, el) = rgb-ok outline ho in
      let (k, ek) = rgb-ok color hc in
      let size = inches 36 2 in
      (
        _,
        shape oval (sub_ℕ (2 * at.0) size) (sub_ℕ (2 * at.1) size) size size ∷ [],
        after_ok _ ec ∙ after_ok _ el ∙ after_ok _ ek,
        set_items _ _ _
            ∙ set_items _ _ _
            ∙ set_items _ _ _
            ∙ set_items _ _ _
            ∙ set_items _ _ _
            ∙ set_items _ _ _
            ∙ set_items _ _ _
            ∙ set_items _ _ _
            ∙ set_items _ _ _
            ∙ add_items _ _,
        (inside oval, tt),
      )

  pub add_picture-Safe :
      (a b : ℤ) (w h : ℕ)
      → Inside (shape picture a b w h)
      → Safe (λ s. ok (add (shape picture a b w h) s).1)
  add_picture-Safe a b w h inside s =
      (_, shape picture a b w h ∷ [], refl, add_items _ _, (inside, tt))

pub sub_inside :
    (a b w m : ℕ)
    → b ≤ a
    → a + 2 * w ≤ m + b
    → (neg_part (sub_ℕ a b) ≡ 0) × (pos_part (sub_ℕ a b) + 2 * w ≤ m)
sub_inside a b w m h k = let e : leb b a ≡ true = ground arith in rw e (refl, omega (arith, h, k))
