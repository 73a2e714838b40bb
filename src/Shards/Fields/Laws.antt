-- ===== src/Shards/Fields/Laws.antt =====
-- The parsed cells stay in the ranges of the record format, so only the key and the coordinates can
-- make `row_to_record` raise.
use mini2_anu_asim.Prelude.{
  ℕ, ◌^◌, ◌<◌, ◌≤◌, ◌≡◌, refl, Bool, true, false, ◌&&◌, Option, none, some, [], ◌∷◌, arith, ltb,
  leb, ok, err, Exc, struct_error, overflow_error, ◌⊎◌, inl, inr, All, Option-cases, Bool-cases,
}
use mini2_anu_asim.Prelude.Int.{ℤ, pos, negsuc, pos_part, neg_part}
use mini2_anu_asim.Prelude.Text.{Str, Unicode, strip}
use mini2_anu_asim.Prelude.Floats.{Floats}
use mini2_anu_asim.Struct.{Fields, pack_fields, pack_record, pack_args, pack_one, pack_signed32}
use mini2_anu_asim.Struct.Bytes.{le_bytes, word32}
use mini2_anu_asim.Struct.Total.{Fits, pack_fields-Fits}
use mini2_anu_asim.Shards.Search.{
  digits_at, year_at, search_from, search_from_lem, year_at-lt, zip_at-lt,
}
use mini2_anu_asim.Shards.Strptime.{strptime, strptime_bounds, us_12h, us_24h, iso}
use mini2_anu_asim.Shards.Fields.{
  Codes, status_codes, borough_codes, code_of, or_empty, first_year, parse_year, parse_zip, code,
}

first_year_bound :
    (a b c d : Option ℕ)
    → ((v : ℕ) → a ≡ some v → v ≤ 9999)
    → ((v : ℕ) → b ≡ some v → v ≤ 9999)
    → ((v : ℕ) → c ≡ some v → v ≤ 9999)
    → ((v : ℕ) → d ≡ some v → v ≤ 9999)
    → first_year a b c d ≤ 9999
unfolding first_year
first_year_bound (some y) b c d ha hb hc hd = ha y refl
first_year_bound none (some y) c d ha hb hc hd = hb y refl
first_year_bound none none (some y) d ha hb hc hd = hc y refl
first_year_bound none none none (some y) ha hb hc hd = hd y refl
first_year_bound none none none none ha hb hc hd = omega arith

code_of_bound : (m : Codes) (t : Str) → All (λ e. e.1 ≤ 5) m → code_of m t ≤ 5
unfolding code_of
code_of_bound [] t h = omega arith
code_of_bound ((s, n) ∷ rest) t h = ground (arith, code_of_bound rest t h.1)

module _ (u : Unicode) where
  year_bound : (cell : Option Str) → parse_year u cell ≤ 9999
  unfolding parse_year
  year_bound none = omega arith
  year_bound (some []) = omega arith
  year_bound (some (c ∷ s)) =
      let t : Str = strip u (c ∷ s) in
      first_year_bound (strptime u us_12h t) (strptime u us_24h t) (strptime u iso t)
        (search_from (year_at u) (c ∷ s)) (λ v e. (strptime_bounds u us_12h t v e).1)
        (λ v e. (strptime_bounds u us_24h t v e).1) (λ v e. (strptime_bounds u iso t v e).1)
        (λ v e.
          search_from_lem (year_at u) (λ y. y ≤ 9999)
            (λ r y p. let below = year_at-lt u r y p in omega arith) (c ∷ s) v e)

  zip_bound : (cell : Option Str) → parse_zip u cell < 100000
  unfolding parse_zip
  zip_bound cell = elim (Option-cases (search_from (digits_at u 5 0) (or_empty cell))) [
    | inl e ↦ rw (e, parse_zip) (omega arith)
    | inr (z, e) ↦
        rw (e, parse_zip)
          (search_from_lem (digits_at u 5 0) (λ y. y < 100000) (zip_at-lt u) (or_empty cell) z e)
  ]

  -- Whatever the cells hold, the year has at most four digits, the zip code at most five, and the
  -- two codes are at most 5.
  pub cell_bounds :
      (created zip status borough : Option Str)
      → (parse_year u created ≤ 9999)
        × (parse_zip u zip < 100000)
        × (code u status_codes status ≤ 5)
        × (code u borough_codes borough ≤ 5)
  unfolding code
  cell_bounds created zip status borough = (
    year_bound created,
    zip_bound zip,
    code_of_bound status_codes (u.lower (strip u (or_empty status))) (omega arith),
    code_of_bound borough_codes (u.lower (strip u (or_empty borough))) (omega arith),
  )

in_range : ℤ → Bool
in_range z = ltb (pos_part z) (2 ^ 31) && leb (neg_part z) (2 ^ 31)

key_refused : (z : ℤ) → in_range z ≡ false → pack_signed32 z ≡ err struct_error
unfolding in_range pack_signed32
key_refused (pos n) h = ground arith
key_refused (negsuc n) h = ground arith

key_packed : (z : ℤ) → in_range z ≡ true → pack_signed32 z ≡ ok (le_bytes 4 (word32 z))
unfolding in_range pack_signed32 word32
key_packed (pos n) h = ground arith
key_packed (negsuc n) h = ground arith

module _ (fl : Floats) (a : Fields fl) {e : Exc} (h : pack_fields fl a ≡ err e) where
  key_error_kind : in_range a.key ≡ false → e ≡ struct_error
  unfolding pack_fields pack_record pack_args pack_one
  key_error_kind bad = cc (key_refused a.key bad)

  latitude_error_kind : in_range a.key ≡ true → fl.to_f32 a.latitude ≡ none → e ≡ overflow_error
  unfolding pack_fields pack_record pack_args pack_one
  latitude_error_kind good ea = cc (key_packed a.key good)

  longitude_error_kind :
      (la : ℕ)
      → in_range a.key ≡ true
      → fl.to_f32 a.latitude ≡ some la
      → fl.to_f32 a.longitude ≡ none
      → e ≡ overflow_error
  unfolding pack_fields pack_record pack_args pack_one
  longitude_error_kind la good ea eo = cc (key_packed a.key good)

-- The ways in which `struct.pack` refuses the arguments of a row.
pub pack_errors :
    (fl : Floats) (a : Fields fl) {e : Exc}
    → a.incident_zip < 2 ^ 32
    → a.year < 2 ^ 16
    → a.status < 2 ^ 8
    → a.borough < 2 ^ 8
    → pack_fields fl a ≡ err e
    → ((e ≡ struct_error) × ((2 ^ 31 ≤ pos_part a.key) ⊎ (2 ^ 31 < neg_part a.key)))
      ⊎ ((e ≡ overflow_error)
          × (pos_part a.key < 2 ^ 31)
          × (neg_part a.key ≤ 2 ^ 31)
          × ((fl.to_f32 a.latitude ≡ none) ⊎ (fl.to_f32 a.longitude ≡ none)))
unfolding in_range
pack_errors fl a {e} hz hy hs hb h = elim (Bool-cases (in_range a.key)) [
  | inr bad ↦ inl (key_error_kind fl a h bad, ground arith)
  | inl good ↦ elim (Option-cases (fl.to_f32 a.latitude)) [
    | inl ea ↦ inr (latitude_error_kind fl a h good ea, ground arith, ground arith, inl ea)
    | inr (la, ea) ↦ elim (Option-cases (fl.to_f32 a.longitude)) [
      | inl eo ↦ inr (longitude_error_kind fl a h la good ea eo, ground arith, ground arith, inr eo)
      | inr (lo, eo) ↦
          let fits : Fits fl a la lo = record {
            key_below = ground arith;
            key_above = ground arith;
            latitude_bits = ea;
            longitude_bits = eo;
            zip_word = hz;
            year_word = hy;
            status_byte = hs;
            borough_byte = hb;
          } in
          absurd (cc (pack_fields-Fits fl a la lo fits))
    ]
  ]
]

-- The two reasons of a refusal.
pub key_refuses :
    (fl : Floats) (a : Fields fl)
    → (2 ^ 31 ≤ pos_part a.key) ⊎ (2 ^ 31 < neg_part a.key)
    → pack_fields fl a ≡ err struct_error
unfolding pack_fields pack_record pack_args pack_one in_range
key_refuses fl a wide =
    let bad : in_range a.key ≡ false = ground arith in rw (key_refused a.key bad) refl

pub coordinate_refuses :
    (fl : Floats) (a : Fields fl)
    → pos_part a.key < 2 ^ 31
    → neg_part a.key ≤ 2 ^ 31
    → (fl.to_f32 a.latitude ≡ none) ⊎ (fl.to_f32 a.longitude ≡ none)
    → pack_fields fl a ≡ err overflow_error
unfolding pack_fields pack_record pack_args pack_one in_range
coordinate_refuses fl a below above (inl ea) =
    let good : in_range a.key ≡ true = ground arith in rw (key_packed a.key good, ea) refl
coordinate_refuses fl a below above (inr eo) =
    let good : in_range a.key ≡ true = ground arith in
    elim (Option-cases (fl.to_f32 a.latitude)) [
      | inl ea ↦ rw (key_packed a.key good, ea) refl
      | inr (la, ea) ↦ rw (key_packed a.key good, ea, eo) refl
    ]
