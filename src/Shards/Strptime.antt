-- ===== src/Shards/Strptime.antt =====
-- `datetime.strptime` at the three formats of `parse_year`. A format becomes a regular expression,
-- matched without regard to case; the alternatives of each directive are tried in their order, and
-- the first match of the whole format counts. The a.m. and p.m. marks are those of the C locale.
use mini2_anu_asim.Prelude.{
  ℕ, ◌+◌, ◌-◌, ◌*◌, ◌%◌, ◌≤◌, ◌≡◌, Bool, not, ◌&&◌, ◌||◌, Option, none, some, List, [], ◌∷◌, ◌++◌,
  arith, leb, ◌==◌, if◌then◌else◌,
}
use mini2_anu_asim.Prelude.Text.{Str, Unicode, ascii_lower}

-- A directive, a run of white space, or a literal character in lower case.
pub data Directive : Type 0 where
  year month day hour24 hour12 minute second am_pm space : Directive
  lit : ℕ → Directive

-- "%m/%d/%Y %I:%M:%S %p".
abbrev pub us_12h : List Directive
us_12h =
    month
    ∷ lit b'/'
    ∷ day
    ∷ lit b'/'
    ∷ year
    ∷ space
    ∷ hour12
    ∷ lit b':'
    ∷ minute
    ∷ lit b':'
    ∷ second
    ∷ space
    ∷ am_pm
    ∷ []

-- "%m/%d/%Y %H:%M:%S".
abbrev pub us_24h : List Directive
us_24h =
    month
    ∷ lit b'/'
    ∷ day
    ∷ lit b'/'
    ∷ year
    ∷ space
    ∷ hour24
    ∷ lit b':'
    ∷ minute
    ∷ lit b':'
    ∷ second
    ∷ []

-- "%Y-%m-%dT%H:%M:%S".
abbrev pub iso : List Directive
iso =
    year
    ∷ lit b'-'
    ∷ month
    ∷ lit b'-'
    ∷ day
    ∷ lit b't'
    ∷ hour24
    ∷ lit b':'
    ∷ minute
    ∷ lit b':'
    ∷ second
    ∷ []

-- What the match has read so far. The hour does not bear on the date.
pub record Read : Type 0 where
  pub y : ℕ
  pub m : ℕ
  pub d : ℕ
  pub s : ℕ

-- The ways to match a piece: a value and the rest of the text, the preferred first.
abbrev pub Ways : Type 0
Ways = List (ℕ × Str)

-- An ASCII range such as `[1-9]`.
unfoldable pub range : ℕ → ℕ → Str → Ways
range lo hi [] = []
range lo hi (c ∷ s) = if leb lo c && leb c hi then (c - b'0', s) ∷ [] else []

-- A literal, matched without regard to case.
unfoldable pub literal : ℕ → Str → Ways
literal l [] = []
literal l (c ∷ s) = if ascii_lower c == l then (0, s) ∷ [] else []

-- Every way continues the number `a` by a digit.
unfoldable pub behind : ℕ → Ways → Ways
behind a [] = []
behind a ((b, r) ∷ rest) = (a * 10 + b, r) ∷ behind a rest

-- Two pieces, read as one number.
unfoldable pub paired : Ways → (Str → Ways) → Ways
unfolding behind
paired [] next = []
paired ((a, s) ∷ ways) next = behind a (next s) ++ paired ways next

module _ (u : Unicode) where
  -- `\d`.
  unfoldable pub digit : Str → Ways
  digit [] = []
  digit (c ∷ s) = elim (u.digit c) [ none ↦ [] | some v ↦ (v, s) ∷ [] ]

  -- `\s+`, the longest run first.
  unfoldable pub spaces : Str → Ways
  spaces [] = []
  spaces (c ∷ s) = let more = spaces s in if u.is_space c then more ++ ((0, s) ∷ []) else []

  unfoldable pub ways : Directive → Str → Ways
  unfolding range literal paired digit spaces
  ways year s = paired (paired (paired (digit s) digit) digit) digit
  ways month s =
      paired (range b'1' b'1' s) (range b'0' b'2')
      ++ (paired (range b'0' b'0' s) (range b'1' b'9') ++ range b'1' b'9' s)
  ways day s =
      paired (range b'3' b'3' s) (range b'0' b'1')
      ++ (paired (range b'1' b'2' s) digit
          ++ (paired (range b'0' b'0' s) (range b'1' b'9')
              ++ (range b'1' b'9' s ++ paired (literal 32 s) (range b'1' b'9'))))
  ways hour24 s =
      paired (range b'2' b'2' s) (range b'0' b'3') ++ (paired (range b'0' b'1' s) digit ++ digit s)
  ways hour12 s =
      paired (range b'1' b'1' s) (range b'0' b'2')
      ++ (paired (range b'0' b'0' s) (range b'1' b'9') ++ range b'1' b'9' s)
  ways minute s = paired (range b'0' b'5' s) digit ++ digit s
  ways second s =
      paired (range b'6' b'6' s) (range b'0' b'1') ++ (paired (range b'0' b'5' s) digit ++ digit s)
  ways am_pm s = paired (literal b'a' s) (literal b'm') ++ paired (literal b'p' s) (literal b'm')
  ways space s = spaces s
  ways (lit l) s = literal l s

abbrev pub store : Directive → ℕ → Read → Read
store year v r = record r { y = v }
store month v r = record r { m = v }
store day v r = record r { d = v }
store second v r = record r { s = v }
store _ v r = r

unfoldable pub each : Ways → (ℕ → Str → List (Read × Str)) → List (Read × Str)
each [] next = []
each ((v, s) ∷ rest) next = next v s ++ each rest next

unfoldable pub days_in_month : ℕ → ℕ → ℕ
days_in_month y m =
    if m == 2
    then (if y % 4 == 0 && (not (y % 100 == 0) || y % 400 == 0) then 29 else 28)
    else if m == 4 || m == 6 || m == 9 || m == 11
    then 30
    else 31

-- The checks of the constructors `date` and `datetime`.
unfoldable pub is_date : Read → Bool
unfolding days_in_month
is_date r =
    leb 1 r.y
    && leb r.y 9999
    && leb 1 r.m
    && leb r.m 12
    && leb 1 r.d
    && leb r.d (days_in_month r.y r.m)
    && leb r.s 59

-- The defaults before the match.
abbrev pub blank : Read
blank = record { y = 1900; m = 1; d = 1; s = 0 }

-- The first match must end where the text ends.
unfoldable pub accept : List (Read × Str) → Option ℕ
unfolding is_date
accept [] = none
accept ((r, []) ∷ _) = if is_date r then some r.y else none
accept ((r, c ∷ rest) ∷ _) = none

module _ (u : Unicode) where
  unfoldable pub match_all : List Directive → Read → Str → List (Read × Str)
  unfolding ways each
  match_all [] r s = (r, s) ∷ []
  match_all (f ∷ fs) r s = each (ways u f s) (λ v rest. match_all fs (store f v r) rest)

  -- The year of `datetime.strptime(text, format)`, or nothing where it raises `ValueError`.
  unfoldable pub strptime : List Directive → Str → Option ℕ
  unfolding match_all accept
  strptime fs s = accept (match_all fs blank s)

accept_bounds : (l : List (Read × Str)) (v : ℕ) → accept l ≡ some v → (1 ≤ v) × (v ≤ 9999)
unfolding accept
accept_bounds [] v h = cc
accept_bounds ((r, []) ∷ l) v h = ground arith
accept_bounds ((r, c ∷ rest) ∷ l) v h = cc

pub strptime_bounds :
    (u : Unicode) (fs : List Directive) (s : Str) (v : ℕ)
    → strptime u fs s ≡ some v
    → (1 ≤ v) × (v ≤ 9999)
unfolding strptime
strptime_bounds u fs s v h = accept_bounds (match_all u fs blank s) v h
