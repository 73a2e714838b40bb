-- ===== src/Tests/Drawing.antt =====
-- A python-pptx whose slides are the lists of what stands on them, and the poster over it.
use native.Mathlib.Nat.{lt-div-mul-add, one-le-pow, mul-div-le}
use mini2_anu_asim.Prelude.{
  ℕ, ◌+◌, ◌*◌, ◌/◌, ◌^◌, ◌≤◌, ◌<◌, ◌≡◌, refl, Option, some, List, [], ◌∷◌, ◌++◌, arith, Result, ok,
  err, value_error, All,
}
use mini2_anu_asim.Prelude.Text.{Str}
use mini2_anu_asim.Poster.{Pptx, Item, hex_digit}
use mini2_anu_asim.Poster.Steps.{make_poster}
use mini2_anu_asim.Poster.Safe.{Inside}
use mini2_anu_asim.Poster.Layout.{make_poster_fits}

abbrev whole_units : ℕ → ℕ → ℕ
whole_units m k = 914400 * m / 10 ^ k

whole_units_low : (m k : ℕ) → 914400 * m ≤ (whole_units m k + 1) * 10 ^ k
whole_units_low m k =
    let P = 10 ^ k in
    let below : 914400 * m < 914400 * m / P * P + P =
      lt-div-mul-add (one-le-pow k 10 (omega arith)) in
    let q = 914400 * m / P in omega (arith, below)

whole_units_high : (m k : ℕ) → whole_units m k * 10 ^ k ≤ 914400 * m
whole_units_high m k =
    let P = 10 ^ k in
    let above : P * (914400 * m / P) ≤ 914400 * m = mul-div-le (914400 * m) P in
    omega (arith, above)

unfoldable two_digits : Option ℕ → Option ℕ → Result ℕ
two_digits (some a) (some b) = ok (16 * a + b)
two_digits _ _ = err value_error

unfoldable digits_value : Str → Result ℕ
digits_value (c ∷ d ∷ []) = two_digits (hex_digit c) (hex_digit d)
digits_value _ = err value_error

digits_value_lem :
    (c d a b : ℕ)
    → hex_digit c ≡ some a
    → hex_digit d ≡ some b
    → digits_value (c ∷ d ∷ []) ≡ ok (16 * a + b)
unfolding digits_value two_digits
digits_value_lem c d a b h k = rw (h, k) refl

abbrev flat : Pptx
flat = record {
  Slide = List Item;
  Shape = ℕ;
  items = λ s. s;
  inches = whole_units;
  inches_low = whole_units_low;
  inches_high = whole_units_high;
  int16 = digits_value;
  int16_digits = digits_value_lem;
  add = λ i s. (0, s ++ i ∷ []);
  add_items = λ i s. refl;
  blank = [];
  blank_items = refl;
  set_background = λ c s. s;
  set_background_items = λ c s. refl;
  set_notes = λ t s. s;
  set_notes_items = λ t s. refl;
  set = λ t h s. s;
  set_items = λ t h s. refl;
}

make_poster_fits_example :
    (s : List Item) × (make_poster flat "/repo" ≡ ok ("/repo/mini2-poster.pptx", s))
    × All (Inside flat) s
make_poster_fits_example = make_poster_fits flat "/repo"
