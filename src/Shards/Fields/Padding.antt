-- ===== src/Shards/Fields/Padding.antt =====
-- White space around a status or a borough, and the case of its letters, do not matter.
use mini2_anu_asim.Prelude.{
  ℕ, ◌≡◌, refl, sym, ap, ◌∙◌, true, some, [], ◌∷◌, ◌++◌, map, arith, All, ◌⊎◌, inl, inr, Bool-cases,
  All-append,
}
use mini2_anu_asim.Prelude.Text.{Str, Unicode, lstrip, rstrip, strip, IsAscii, ascii_lower}
use mini2_anu_asim.Shards.Fields.{Codes, code, code_of}

module _ (u : Unicode) where
  abbrev pub IsSpace : ℕ → Type 0
  IsSpace c = u.is_space c ≡ true

  lstrip-spaces : (p s : Str) → All IsSpace p → lstrip u (p ++ s) ≡ lstrip u s
  unfolding lstrip
  lstrip-spaces [] s h = refl
  lstrip-spaces (c ∷ p) s h = rw (h.0, lstrip) (lstrip-spaces p s h.1)

  rstrip-All : (q : Str) → All IsSpace q → rstrip u q ≡ []
  unfolding rstrip
  rstrip-All [] h = refl
  rstrip-All (c ∷ q) h = rw (rstrip-All q h.1, rstrip) (rw (h.0) refl)

  rstrip-spaces : (s q : Str) → All IsSpace q → rstrip u (s ++ q) ≡ rstrip u s
  unfolding rstrip
  rstrip-spaces [] q h = rstrip-All q h
  rstrip-spaces (c ∷ s) q h = rw (rstrip-spaces s q h, rstrip) refl

  -- Either the whole text is white space, or stripping its left end leaves its right end alone.
  lstrip-append : (s q : Str) → All IsSpace s ⊎ (lstrip u (s ++ q) ≡ lstrip u s ++ q)
  unfolding lstrip
  lstrip-append [] q = inl tt
  lstrip-append (c ∷ s) q = elim (Bool-cases (u.is_space c)) [
    | inr e ↦ inr (ground arith)
    | inl e ↦ elim (lstrip-append s q) [
      | inl blank ↦ inl (e, blank)
      | inr same ↦ inr (ground arith)
    ]
  ]

  lstrip-All : (s : Str) → All IsSpace s → lstrip u s ≡ []
  unfolding lstrip
  lstrip-All [] h = refl
  lstrip-All (c ∷ s) h = rw (h.0, lstrip) (lstrip-All s h.1)

  strip-padded : (p s q : Str) → All IsSpace p → All IsSpace q → strip u (p ++ (s ++ q)) ≡ strip u s
  unfolding strip
  strip-padded p s q hp hq = elim (lstrip-append s q) [
    | inr same ↦
        ap (rstrip u) (lstrip-spaces p (s ++ q) hp ∙ same) ∙ rstrip-spaces (lstrip u s) q hq
    | inl blank ↦
        ap (rstrip u)
          (lstrip-spaces p (s ++ q) hp ∙ lstrip-All (s ++ q) (All-append IsSpace s q blank hq))
        ∙ ap (rstrip u) (sym (lstrip-All s blank))
  ]

  -- Around an ASCII text that no white space borders, white space changes nothing, and neither does
  -- the case of the letters: the code is that of the text in lower case.
  pub code_padded :
      (m : Codes) (p s q : Str)
      → All IsSpace p
      → All IsSpace q
      → All IsAscii s
      → strip u s ≡ s
      → code u m (some (p ++ (s ++ q))) ≡ code_of m (map ascii_lower s)
  unfolding code
  code_padded m p s q hp hq hs e =
      ap (λ t. code_of m (u.lower t)) (strip-padded p s q hp hq ∙ e)
      ∙ ap (code_of m) (u.lower_ascii s hs)
