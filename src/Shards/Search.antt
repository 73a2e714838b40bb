-- ===== src/Shards/Search.antt =====
-- The two `re.search` calls of `parse_year` and `parse_zip`, and Python's `int(text)`.
use mini2_anu_asim.Prelude.{
  ℕ, zero, suc, ◌+◌, ◌*◌, ◌^◌, ◌<◌, ◌≡◌, ap, Bool, true, false, ◌&&◌, Option, none, some, [], ◌∷◌,
  arith, leb, ◌==◌, if◌then◌else◌, Option-cases, inl, inr,
}
use native.Mathlib.Nat.{pow-suc}
use mini2_anu_asim.Prelude.Int.{ℤ, pos, sub_ℕ}
use mini2_anu_asim.Prelude.Text.{Str, Unicode, strip}

module _ (u : Unicode) where
  -- `\d{n}` at the start of a text, read as a number behind the digits `acc`.
  unfoldable pub digits_at : ℕ → ℕ → Str → Option ℕ
  digits_at zero acc s = some acc
  digits_at (suc n) acc [] = none
  digits_at (suc n) acc (c ∷ s) = elim (u.digit c) [
    | none ↦ none
    | some d ↦ digits_at n (acc * 10 + d) s
  ]

  -- `(20\d{2}|19\d{2})` at the start of a text.
  unfoldable pub year_at : Str → Option ℕ
  unfolding digits_at
  year_at [] = none
  year_at (a ∷ []) = none
  year_at (a ∷ b ∷ s) =
      if a == b'2' && b == b'0'
      then digits_at 2 20 s
      else if a == b'1' && b == b'9'
      then digits_at 2 19 s
      else none

  -- The digits of `int(text)`: single underscores may stand between digits, and more than 4300
  -- digits are refused. The flag says that a digit was just read.
  unfoldable pub int_digits : ℕ → ℕ → Bool → Str → Option ℕ
  int_digits acc n true [] = if leb n 4300 then some acc else none
  int_digits acc n false [] = none
  int_digits acc n after (c ∷ s) =
      if c == b'_'
      then (elim after [ true ↦ int_digits acc n false s | false ↦ none ])
      else (elim (u.digit c) [ none ↦ none | some d ↦ int_digits (acc * 10 + d) (n + 1) true s ])

  unfoldable pub signed : Str → Option ℤ
  unfolding int_digits
  signed [] = none
  signed (c ∷ s) =
      if c == b'-'
      then (elim (int_digits 0 0 false s) [ none ↦ none | some n ↦ some (sub_ℕ 0 n) ])
      else if c == b'+'
      then (elim (int_digits 0 0 false s) [ none ↦ none | some n ↦ some (pos n) ])
      else (elim (int_digits 0 0 false (c ∷ s)) [ none ↦ none | some n ↦ some (pos n) ])

  -- `int(text)`, or nothing where it raises `ValueError`.
  unfoldable pub int_of_text : Str → Option ℤ
  unfolding signed strip
  int_of_text s = signed (strip u s)

  digits_at-lt :
      (n acc : ℕ) (s : Str) {r : ℕ} (bound : ℕ)
      → acc < bound
      → digits_at n acc s ≡ some r
      → r < bound * 10 ^ n
  unfolding digits_at
  digits_at-lt zero acc s {r} bound h e = ground arith
  digits_at-lt (suc n) acc [] {r} bound h e = cc
  digits_at-lt (suc n) acc (c ∷ s) {r} bound h e = elim (Option-cases (u.digit c)) [
    | inl p ↦ absurd (ground arith)
    | inr (d, p) ↦
        let small = u.digit_bound c d p in
        let more =
          digits_at-lt n (acc * 10 + d) s (bound * 10) (omega arith) (rw (p, digits_at) at e) in
        omega (arith, ap (λ (t : ℕ). bound * t) (pow-suc 10 n), more)
  ]

-- `re.search`: the leftmost position where the pattern matches.
unfoldable pub search_from : (Str → Option ℕ) → Str → Option ℕ
search_from at [] = at []
search_from at (c ∷ s) = elim (at (c ∷ s)) [ none ↦ search_from at s | some v ↦ some v ]

-- What every match of a pattern satisfies, the result of the search does.
pub search_from_lem :
    (at : Str → Option ℕ) (P : ℕ → Type 0)
    → ((s : Str) (v : ℕ) → at s ≡ some v → P v)
    → (s : Str) (v : ℕ) → search_from at s ≡ some v
    → P v
unfolding search_from
search_from_lem at P keep [] v h = keep [] v h
search_from_lem at P keep (c ∷ s) v h = elim (Option-cases (at (c ∷ s))) [
  | inl e ↦ search_from_lem at P keep s v (rw (e, search_from) at h)
  | inr (w, e) ↦ keep (c ∷ s) v (ground arith)
]

module _ (u : Unicode) where
  pub year_at-lt : (s : Str) (y : ℕ) → year_at u s ≡ some y → y < 2100
  unfolding year_at
  year_at-lt [] y h = cc
  year_at-lt (a ∷ []) y h = cc
  year_at-lt (a ∷ b ∷ s) y h = year_cases (a == b'2' && b == b'0') (a == b'1' && b == b'9') h
    where
      year_cases :
          (p q : Bool)
          → (if p then digits_at u 2 20 s else if q then digits_at u 2 19 s else none) ≡ some y
          → y < 2100
      year_cases true q h = digits_at-lt u 2 20 s 21 (omega arith) h
      year_cases false true h = let below = digits_at-lt u 2 19 s 20 (omega arith) h in omega arith
      year_cases false false h = cc

  pub zip_at-lt : (s : Str) (z : ℕ) → digits_at u 5 0 s ≡ some z → z < 100000
  zip_at-lt s z h = digits_at-lt u 5 0 s 1 (omega arith) h
