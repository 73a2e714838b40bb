-- ===== src/Poster/Literal.antt =====
-- The helpers of `make_poster` at lengths that are literals: that a shape fits is computed.
use native.Mathlib.Nat.{one-le-pow, mul-le-mul_right, le_of_mul-le-mul_right}
use mini2_anu_asim.Prelude.{
  ℕ, zero, suc, ◌+◌, ◌*◌, ◌^◌, ◌≤◌, ◌<◌, ◌≡◌, refl, String, Bool, true, Option, List, [], ◌∷◌, map,
  flatten, arith, leb, ◌&&◌, Result, All, All-append,
}
use mini2_anu_asim.Poster.{Pptx, Kind, shape, Align, add_box, add_text, add_line, add_node}
use mini2_anu_asim.Poster.Safe.{
  slide_width, slide_height, Inside, Safe, is_colour, add_box-Safe, add_text-Safe, add_line-Safe,
  add_node-Safe, sub_inside,
}
use mini2_anu_asim.Poster.Upper.{at, range_from}

-- A length and another behind it are at most so many units.
abbrev pub is_within : ℕ × ℕ → ℕ × ℕ → ℕ → Bool
is_within (a, k) (w, m) n = leb (914400 * (a * 10 ^ m + w * 10 ^ k)) (n * (10 ^ k * 10 ^ m))

pub All-flatten {ℓ κ} :
    {A : Type ℓ} (P : A → Type κ) (parts : List (List A))
    → All (All P) parts
    → All P (flatten parts)
All-flatten P [] h = tt
All-flatten P (part ∷ parts) h = All-append P part (flatten parts) h.0 (All-flatten P parts h.1)

and_left : (a b : Bool) → a && b ≡ true → a ≡ true
and_left a b h = ground arith

and_right : (a b : Bool) → a && b ≡ true → b ≡ true
and_right a b h = ground arith

pow_pos : (k : ℕ) → 0 < 10 ^ k
pow_pos k = one-le-pow k 10 (omega arith)

module _ (x : Pptx) where
  open x use {Slide, inches, inches_low, inches_high}

  within : (a k w m n : ℕ) → is_within (a, k) (w, m) n ≡ true → inches a k + inches w m ≤ n
  within a k w m n h =
      let P = 10 ^ k in
      let Q = 10 ^ m in
      let I = inches a k in
      let J = inches w m in
      let first : I * P * Q ≤ 914400 * a * Q = mul-le-mul_right Q (inches_high a k) in
      let second : J * Q * P ≤ 914400 * w * P = mul-le-mul_right P (inches_high w m) in
      let bound : 914400 * (a * Q + w * P) ≤ n * (P * Q) = ground arith in
      let scaled : (I + J) * (P * Q) ≤ n * (P * Q) = omega (arith, first, second, bound) in
      le_of_mul-le-mul_right scaled (omega (arith, mul-le-mul_right Q (pow_pos k), pow_pos m))

  -- The slide is at least so wide and so high.
  pub wide : 12191694 ≤ slide_width x
  wide = omega (arith, inches_low 13333 3)

  pub high : 6857999 ≤ slide_height x
  high = omega (arith, inches_low 75 1)

  -- A box and a text whose place and size are literals.
  abbrev pub are_within : ℕ × ℕ → ℕ × ℕ → ℕ × ℕ → ℕ × ℕ → Bool
  are_within a b w h = is_within a w 12191694 && is_within b h 6857999

  Inside-literal :
      (a b w h : ℕ × ℕ)
      → are_within a b w h ≡ true
      → (kind : Kind)
      → Inside x
          (shape kind (at (inches a.0 a.1)) (at (inches b.0 b.1)) (inches w.0 w.1) (inches h.0 h.1))
  Inside-literal a b w h e kind =
      let across =
        within a.0 a.1 w.0 w.1 12191694
          (and_left (is_within a w 12191694) (is_within b h 6857999) e) in
      let down =
        within b.0 b.1 h.0 h.1 6857999
          (and_right (is_within a w 12191694) (is_within b h 6857999) e) in
      (refl, omega (arith, across, wide), refl, omega (arith, down, high))

  pub box_Safe :
      (a b w h : ℕ × ℕ) (fill outline : String) (radius : Bool)
      → are_within a b w h && (is_colour fill && is_colour outline) ≡ true
      → Safe x (
          add_box x
            (at (inches a.0 a.1))
            (at (inches b.0 b.1))
            (inches w.0 w.1)
            (inches h.0 h.1)
            fill
            outline
            radius)
  box_Safe a b w h fill outline radius e =
      let colours = and_right (are_within a b w h) (is_colour fill && is_colour outline) e in
      add_box-Safe x _ _ _ _ fill outline radius
        (Inside-literal a b w h
          (and_left (are_within a b w h) (is_colour fill && is_colour outline) e))
        (and_left (is_colour fill) (is_colour outline) colours)
        (and_right (is_colour fill) (is_colour outline) colours)

  pub text_Safe :
      (a b w h : ℕ × ℕ) (t : String) (size : ℕ × ℕ) (color : String) (is_bold : Bool)
      (al : Option Align)
      → are_within a b w h && is_colour color ≡ true
      → Safe x (
          add_text x
            (at (inches a.0 a.1))
            (at (inches b.0 b.1))
            (inches w.0 w.1)
            (inches h.0 h.1)
            t
            size
            color
            is_bold
            al)
  text_Safe a b w h t size color is_bold al e =
      add_text-Safe x _ _ _ _ t size color is_bold al
        (Inside-literal a b w h (and_left (are_within a b w h) (is_colour color) e))
        (and_right (are_within a b w h) (is_colour color) e)

  -- The loops: what is safe at every item.
  pub All-range :
      (f : ℕ → Slide → Result Slide) (i n : ℕ)
      → ((b : ℕ) → b < i + n → Safe x (f b))
      → All (Safe x) (map f (range_from i n))
  All-range f i zero h = tt
  All-range f i (suc n) h =
      (h i (omega arith), All-range f (suc i) n (λ b k. h b (omega (arith, k))))

  -- A node and a line at points in hundredths of an inch.
  abbrev pub is_on : ℕ → ℕ → Bool
  is_on a b = leb 36 a && leb a 1300 && (leb 36 b && leb b 700)

  pub node_Safe :
      (a b : ℕ) (label fill outline color : String)
      → is_on a b ≡ true
      → is_colour fill && (is_colour outline && is_colour color) ≡ true
      → Safe x (add_node x (inches a 2, inches b 2) label fill outline color)
  node_Safe a b label fill outline color e c =
      let rest = and_right (is_colour fill) (is_colour outline && is_colour color) c in
      let ha : (36 ≤ a) × (a ≤ 1300) = (ground arith, ground arith) in
      let hb : (36 ≤ b) × (b ≤ 700) = (ground arith, ground arith) in
      let size = inches 36 2 in
      let across =
        sub_inside (2 * inches a 2) size size (2 * slide_width x)
          (omega (arith, inches_low a 2, inches_high 36 2, ha.0))
          (omega (arith, inches_high a 2, inches_high 36 2, wide, ha.1)) in
      let down =
        sub_inside (2 * inches b 2) size size (2 * slide_height x)
          (omega (arith, inches_low b 2, inches_high 36 2, hb.0))
          (omega (arith, inches_high b 2, inches_high 36 2, high, hb.1)) in
      add_node-Safe x (inches a 2, inches b 2) label fill outline color
        (λ kind. (across.0, across.1, down.0, down.1))
        (and_left (is_colour fill) (is_colour outline && is_colour color) c)
        (and_left (is_colour outline) (is_colour color) rest)
        (and_right (is_colour outline) (is_colour color) rest)

  pub link_Safe :
      (a b c d : ℕ) (color : String) (width : ℕ × ℕ)
      → is_on a b && is_on c d ≡ true
      → is_colour color ≡ true
      → Safe x (add_line x (inches a 2, inches b 2) (inches c 2, inches d 2) color width)
  link_Safe a b c d color width e h =
      let near = and_left (is_on a b) (is_on c d) e in
      let far = and_right (is_on a b) (is_on c d) e in
      let ha : (a ≤ 1300) × (b ≤ 700) = (ground (arith, near), ground (arith, near)) in
      let hc : (c ≤ 1300) × (d ≤ 700) = (ground (arith, far), ground (arith, far)) in
      add_line-Safe x (inches a 2, inches b 2) (inches c 2, inches d 2) color width
        (
          omega (arith, inches_high a 2, wide, ha.0),
          omega (arith, inches_high b 2, high, ha.1),
          omega (arith, inches_high c 2, wide, hc.0),
          omega (arith, inches_high d 2, high, hc.1),
        )
        h
