-- ===== src/Shards/Fields.antt =====
-- The cells of a row: `parse_year`, `parse_zip`, `parse_float`, `code` and `row_to_record`.
pub mod Laws
pub mod Padding
pub mod Zip
pub mod Record
use mini2_anu_asim.Prelude.{
  ℕ, String, Bool, Option, none, some, List, [], ◌∷◌, if◌then◌else◌, Result, ok, err, value_error,
  or_raise, ◌>>=◌,
}
use mini2_anu_asim.Prelude.Int.{ℤ, pos}
use mini2_anu_asim.Prelude.Text.{Str, codes, Unicode, strip, text_eq}
use mini2_anu_asim.Prelude.Floats.{Floats}
use mini2_anu_asim.Struct.{Fields, pack_fields}
use mini2_anu_asim.Shards.Search.{digits_at, year_at, int_of_text, search_from}
use mini2_anu_asim.Shards.Strptime.{strptime, us_12h, us_24h, iso}

-- A row of `csv.DictReader`: the text under a column, or nothing where the row has none.
abbrev pub Row : Type 0
Row = String → Option Str

abbrev pub Codes : Type 0
Codes = List (Str × ℕ)

abbrev pub status_codes : Codes
status_codes =
    (codes "open", 1)
    ∷ (codes "closed", 2)
    ∷ (codes "pending", 3)
    ∷ (codes "assigned", 4)
    ∷ (codes "in progress", 5)
    ∷ []

abbrev pub borough_codes : Codes
borough_codes =
    (codes "manhattan", 1)
    ∷ (codes "bronx", 2)
    ∷ (codes "brooklyn", 3)
    ∷ (codes "queens", 4)
    ∷ (codes "staten island", 5)
    ∷ []

-- `mapping.get(name, 0)`.
unfoldable pub code_of : Codes → Str → ℕ
unfolding text_eq
code_of [] name = 0
code_of ((t, n) ∷ rest) name = if text_eq t name then n else code_of rest name

-- `value or ""`.
abbrev pub or_empty : Option Str → Str
or_empty none = []
or_empty (some s) = s

-- The year of the first format that fits, else of the first year that the text shows, else 0.
unfoldable pub first_year : Option ℕ → Option ℕ → Option ℕ → Option ℕ → ℕ
first_year (some y) _ _ _ = y
first_year none (some y) _ _ = y
first_year none none (some y) _ = y
first_year none none none (some y) = y
first_year none none none none = 0

module _ (u : Unicode) where
  unfoldable pub parse_year : Option Str → ℕ
  unfolding first_year
  parse_year none = 0
  parse_year (some []) = 0
  parse_year (some (c ∷ s)) =
      let value = c ∷ s in
      let trimmed = strip u value in
      first_year (strptime u us_12h trimmed) (strptime u us_24h trimmed) (strptime u iso trimmed)
        (search_from (year_at u) value)

  unfoldable pub parse_zip : Option Str → ℕ
  parse_zip value = elim (search_from (digits_at u 5 0) (or_empty value)) [ none ↦ 0 | some z ↦ z ]

  -- `code(mapping, value)`.
  unfoldable pub code : Codes → Option Str → ℕ
  unfolding code_of
  code mapping value = code_of mapping (u.lower (strip u (or_empty value)))

  -- `int(row.get("Unique Key") or 0)`.
  unfoldable pub parse_key : Option Str → Result ℤ
  parse_key none = ok (pos 0)
  parse_key (some []) = ok (pos 0)
  parse_key (some (c ∷ s)) = or_raise value_error (int_of_text u (c ∷ s))

module _ (fl : Floats) where
  unfoldable pub parse_float : Option Str → fl.F
  parse_float none = fl.decimal 0 1
  parse_float (some s) = elim (fl.parse s) [ none ↦ fl.decimal 0 1 | some x ↦ x ]

module _ (u : Unicode) (fl : Floats) where
  -- The arguments that `row_to_record` packs, behind a key that was read.
  abbrev pub row_fields : ℤ → Row → Fields fl
  row_fields key row = record {
    key = key;
    latitude = parse_float fl (row "Latitude");
    longitude = parse_float fl (row "Longitude");
    incident_zip = parse_zip u (row "Incident Zip");
    year = parse_year u (row "Created Date");
    status = code u status_codes (row "Status");
    borough = code u borough_codes (row "Borough");
  }

  unfoldable pub row_to_record : Row → Result (List ℕ)
  row_to_record row = do key ← parse_key u (row "Unique Key"); pack_fields fl (row_fields key row)
