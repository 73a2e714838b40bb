-- ===== src/Shards/Fields/Zip.antt =====
-- What `parse_zip` finds.
use mini2_anu_asim.Prelude.{ℕ, ◌+◌, ◌*◌, ◌≡◌, refl, none, some, [], ◌∷◌, ◌++◌, arith, All}
use mini2_anu_asim.Prelude.Text.{Str, Unicode}
use mini2_anu_asim.Shards.Search.{digits_at, search_from}
use mini2_anu_asim.Shards.Fields.{parse_zip}

module _ (u : Unicode) where
  abbrev pub IsNoDigit : ℕ → Type 0
  IsNoDigit c = u.digit c ≡ none

  search_skips :
      (pre s : Str)
      → All IsNoDigit pre
      → search_from (digits_at u 5 0) (pre ++ s) ≡ search_from (digits_at u 5 0) s
  unfolding search_from digits_at
  search_skips [] s h = refl
  search_skips (c ∷ pre) s h = rw (h.0, digits_at, search_from) (search_skips pre s h.1)

  -- The five digits behind a text without digits are the zip code, whatever follows them.
  pub parse_zip_finds :
      (pre rest : Str) (a b c d e : ℕ) {x y z v w : ℕ}
      → All IsNoDigit pre
      → u.digit a ≡ some x
      → u.digit b ≡ some y
      → u.digit c ≡ some z
      → u.digit d ≡ some v
      → u.digit e ≡ some w
      → parse_zip u (some (pre ++ (a ∷ b ∷ c ∷ d ∷ e ∷ rest)))
        ≡ 10000 * x + 1000 * y + 100 * z + 10 * v + w
  unfolding parse_zip search_from digits_at
  parse_zip_finds pre rest a b c d e h ha hb hc hd he =
      rw (search_skips pre (a ∷ b ∷ c ∷ d ∷ e ∷ rest) h, parse_zip)
        (rw (ha, hb, hc, hd, he) (omega arith))
