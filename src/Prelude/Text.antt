-- ===== src/Prelude/Text.antt =====
-- Texts that the code walks, as lists of code points, and what the code uses of `str` and `re`.
-- The Unicode tables are no part of the program: `Unicode` has what the code asks of them, and says
-- of it only what holds in ASCII.
use Prim.Native.Char.{code}
use mini2_anu_asim.Prelude.{
  ℕ, ◌-◌, ◌+◌, ◌<◌, String, ◌≡◌, refl, Bool, true, false, ◌&&◌, ◌||◌, Option, none, some, List, [],
  ◌∷◌, map, arith, leb, ◌==◌, if◌then◌else◌, All,
}

abbrev pub Str : Type 0
Str = List ℕ

-- The code points of a literal.
abbrev pub codes : String → Str
codes String.[] = []
codes (String.◌∷◌ c s) = code c ∷ codes s

abbrev pub IsAscii : ℕ → Type 0
IsAscii c = c < 128

unfoldable pub ascii_lower : ℕ → ℕ
ascii_lower c = if leb b'A' c && leb c b'Z' then c + 32 else c

unfoldable pub ascii_space : ℕ → Bool
ascii_space c = (leb 9 c && leb c 13) || (leb 28 c && leb c 32)

unfoldable pub ascii_digit : ℕ → Option ℕ
ascii_digit c = if leb b'0' c && leb c b'9' then some (c - b'0') else none

-- `str.lower`, `str.isspace` (also `\s`), and the value of a decimal digit (also `\d`).
pub record Unicode : Type 0 where
  pub lower : Str → Str
  pub is_space : ℕ → Bool
  pub digit : ℕ → Option ℕ
  pub digit_bound : (c d : ℕ) → digit c ≡ some d → d < 10
  pub lower_ascii : (s : Str) → All IsAscii s → lower s ≡ map ascii_lower s
  pub space_ascii : (c : ℕ) → IsAscii c → is_space c ≡ ascii_space c
  pub digit_ascii : (c : ℕ) → IsAscii c → digit c ≡ ascii_digit c

pub ascii_digit_bound : (c d : ℕ) → ascii_digit c ≡ some d → d < 10
unfolding ascii_digit
ascii_digit_bound c d h = ground arith

-- The tables of a machine that knows ASCII alone.
abbrev pub ascii : Unicode
ascii = record {
  lower = map ascii_lower;
  is_space = ascii_space;
  digit = ascii_digit;
  digit_bound = ascii_digit_bound;
  lower_ascii = λ s h. refl;
  space_ascii = λ c h. refl;
  digit_ascii = λ c h. refl;
}

module _ (u : Unicode) where
  unfoldable pub lstrip : Str → Str
  lstrip [] = []
  lstrip (c ∷ s) = let rest = lstrip s in if u.is_space c then rest else c ∷ s

  unfoldable pub rstrip : Str → Str
  rstrip [] = []
  rstrip (c ∷ s) = elim (rstrip s) [ [] ↦ if u.is_space c then [] else c ∷ [] | d ∷ r ↦ c ∷ d ∷ r ]

  -- `s.strip()`.
  unfoldable pub strip : Str → Str
  unfolding lstrip rstrip
  strip s = rstrip (lstrip s)

-- `a == b` on texts.
unfoldable pub text_eq : Str → Str → Bool
text_eq [] [] = true
text_eq [] (d ∷ t) = false
text_eq (c ∷ s) [] = false
text_eq (c ∷ s) (d ∷ t) = (c == d) && text_eq s t

pub text_eq_sound : (s t : Str) → text_eq s t ≡ true → s ≡ t
unfolding text_eq
text_eq_sound [] [] h = refl
text_eq_sound [] (d ∷ t) h = cc
text_eq_sound (c ∷ s) [] h = cc
text_eq_sound (c ∷ s) (d ∷ t) h = ground (arith, text_eq_sound s t)

pub text_eq_refl : (s : Str) → text_eq s s ≡ true
unfolding text_eq
text_eq_refl [] = refl
text_eq_refl (c ∷ s) = ground (arith, text_eq_refl s)
