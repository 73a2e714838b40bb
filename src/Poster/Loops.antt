-- ===== src/Poster/Loops.antt =====
-- The bodies of the loops of `make_poster` stay inside the slide.
use mini2_anu_asim.Prelude.{
  ℕ, ◌+◌, ◌-◌, ◌*◌, ◌≤◌, ◌<◌, ◌≡◌, refl, String, true, false, none, some, arith, ltb, length,
  Bool-cases, inl, inr, All,
}
use mini2_anu_asim.Poster.{Pptx, to_center, add_box, strip_hashes, hex_digit}
use mini2_anu_asim.Poster.Safe.{
  slide_height, Safe, is_colour, add_box-Safe, add_text-Safe, add_line-Safe,
}
use mini2_anu_asim.Poster.Upper.{at}
use mini2_anu_asim.Poster.Steps.{pieces, piece_steps, row_steps, client_steps, turn_steps}
use mini2_anu_asim.Poster.Literal.{wide, high, All-range}

module _ (x : Pptx) where
  open x use {inches, inches_high as hi}

  pub piece_steps-Safe :
      (i : ℕ) (top bottom color : String)
      → i < 4
      → is_colour color ≡ true
      → All (Safe x) (piece_steps x i (top, bottom, color))
  unfolding strip_hashes hex_digit
  piece_steps-Safe i top bottom color h c =
      let y = inches 158 2 + inches (42 * i) 2 in
      let box =
        add_box-Safe x (at (inches 942 2)) (at y) (inches 322 2) (inches 33 2) "#172033" color true
          (λ kind. (
            refl,
            omega (arith, hi 942 2, hi 322 2, wide x),
            refl,
            omega (arith, hi 158 2, hi (42 * i) 2, hi 33 2, high x, h),
          ))
          refl c in
      let name =
        add_text-Safe x (at (inches 942 2 + inches 8 2)) (at (y + inches 6 2)) (inches 128 2)
          (inches 16 2) top (77, 1) color true none
          (λ kind. (
            refl,
            omega (arith, hi 942 2, hi 8 2, hi 128 2, wide x),
            refl,
            omega (arith, hi 158 2, hi (42 * i) 2, hi 6 2, hi 16 2, high x, h),
          ))
          c in
      let note =
        add_text-Safe x (at (inches 942 2 + inches 142 2)) (at (y + inches 6 2)) (inches 17 1)
          (inches 16 2) bottom (71, 1) "#cbd5e1" false none
          (λ kind. (
            refl,
            omega (arith, hi 942 2, hi 142 2, hi 17 1, wide x),
            refl,
            omega (arith, hi 158 2, hi (42 * i) 2, hi 6 2, hi 16 2, high x, h),
          ))
          refl in
      let plus =
        add_text-Safe x (at (inches 942 2 + inches 152 2)) (at (y + inches 29 2)) (inches 16 2)
          (inches 14 2) "+" (85, 1) "#94a3b8" true (some to_center)
          (λ kind. (
            refl,
            omega (arith, hi 942 2, hi 152 2, hi 16 2, wide x),
            refl,
            omega (arith, hi 158 2, hi (42 * i) 2, hi 29 2, hi 14 2, high x, h),
          ))
          refl in
      elim (Bool-cases (ltb i (length pieces - 1))) [
        | inl e ↦ rw (e, piece_steps) (box, (name, (note, (plus, tt))))
        | inr e ↦ rw (e, piece_steps) (box, (name, (note, tt)))
      ]

  pub row_steps-Safe :
      (r : ℕ) (label pages : String) (blocks : ℕ) (color : String)
      → r < 3
      → blocks ≤ 18
      → is_colour color ≡ true
      → All (Safe x) (row_steps x r (label, pages, blocks, color))
  unfolding strip_hashes hex_digit
  row_steps-Safe r label pages blocks color h n c =
      let y = inches (526 + 42 * r) 2 in
      (
        add_text-Safe x (at (inches 52 2)) (at y) (inches 62 2) (inches 18 2) label (89, 1) color
            true none
            (λ kind. (
              refl,
              omega (arith, hi 52 2, hi 62 2, wide x),
              refl,
              omega (arith, hi (526 + 42 * r) 2, hi 18 2, high x, h),
            ))
            c,
        (
          add_text-Safe x (at (inches 112 2)) (at y) (inches 7 1) (inches 18 2) pages (79, 1)
              "#cbd5e1" false none
              (λ kind. (
                refl,
                omega (arith, hi 112 2, hi 7 1, wide x),
                refl,
                omega (arith, hi (526 + 42 * r) 2, hi 18 2, high x, h),
              ))
              refl,
          All-range x
              (λ b.
                add_box x (at (inches (190 + 6 * b) 2)) (at (y + inches 1 2)) (inches 45 3)
                  (inches 16 2) color color false)
              0 blocks
              (λ b k.
                add_box-Safe x (at (inches (190 + 6 * b) 2)) (at (y + inches 1 2)) (inches 45 3)
                  (inches 16 2) color color false
                  (λ kind. (
                    refl,
                    omega (arith, hi (190 + 6 * b) 2, hi 45 3, wide x, k, n),
                    refl,
                    omega (arith, hi (526 + 42 * r) 2, hi 1 2, hi 16 2, high x, h),
                  ))
                  c c),
        ),
      )

  pub client_steps-Safe :
      (i : ℕ) (client color : String)
      → i < 4
      → is_colour color ≡ true
      → All (Safe x) (client_steps x i (client, color))
  client_steps-Safe i client color h c =
      let y = inches (528 + 28 * i) 2 in
      let down : y + inches 8 2 ≤ slide_height x =
        omega (arith, hi (528 + 28 * i) 2, hi 8 2, high x, h) in
      (
        add_text-Safe x (at (inches 412 2)) (at y) (inches 45 2) (inches 16 2) client (75, 1) color
            true none
            (λ kind. (
              refl,
              omega (arith, hi 412 2, hi 45 2, wide x),
              refl,
              omega (arith, hi (528 + 28 * i) 2, hi 16 2, high x, h),
            ))
            c,
        (
          add_line-Safe x (inches 46 1, y + inches 8 2) (inches 528 2, y + inches 8 2) color (12, 1)
              (omega (arith, hi 46 1, wide x), down, omega (arith, hi 528 2, wide x), down) c,
          tt,
        ),
      )

  pub turn_steps-Safe :
      (i : ℕ) (color : String)
      → i < 4
      → is_colour color ≡ true
      → All (Safe x) (turn_steps x i color)
  turn_steps-Safe i color h c = (
    add_line-Safe x (inches 62 1, inches 568 2) (inches (670 + 26 * i) 2, inches 568 2) color
        (10, 1)
        (
          omega (arith, hi 62 1, wide x),
          omega (arith, hi 568 2, high x),
          omega (arith, hi (670 + 26 * i) 2, wide x, h),
          omega (arith, hi 568 2, high x),
        )
        c,
    (
      add_box-Safe x (at (inches (678 + 26 * i) 2)) (at (inches 555 2)) (inches 16 2) (inches 24 2)
          color color false
          (λ kind. (
            refl,
            omega (arith, hi (678 + 26 * i) 2, hi 16 2, wide x, h),
            refl,
            omega (arith, hi 555 2, hi 24 2, high x),
          ))
          c c,
      tt,
    ),
  )
