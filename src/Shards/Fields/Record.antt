-- ===== src/Shards/Fields/Record.antt =====
-- `row_to_record` on every branch: what it writes, and exactly when it raises.
use mini2_anu_asim.Prelude.{
  ◌↔◌, subst, sym, Option-cases, ℕ, ◌^◌, ◌<◌, ◌≤◌, ◌≡◌, refl, Option, none, some, List, [], ◌∷◌,
  arith, ok, err, Exc, value_error, struct_error, overflow_error, ◌⊎◌, inl, inr, length,
}
use mini2_anu_asim.Prelude.Int.{ℤ, pos, pos_part, neg_part}
use mini2_anu_asim.Prelude.Text.{Str, Unicode}
use mini2_anu_asim.Prelude.Floats.{Floats}
use mini2_anu_asim.Struct.{pack_fields, record_size}
use mini2_anu_asim.Struct.Layout.{read_record}
use mini2_anu_asim.Struct.RoundTrip.{stands_for, read_record-pack_fields}
use mini2_anu_asim.Struct.Total.{Fits, pack_fields-Fits}
use mini2_anu_asim.Shards.Fields.{
  Row, int_of_text, parse_key, parse_float, row_fields, row_to_record,
}
use mini2_anu_asim.Shards.Fields.Laws.{cell_bounds, pack_errors, key_refuses, coordinate_refuses}

module _ (u : Unicode) (fl : Floats) (row : Row) where
  -- If the key is an int32 and both coordinates round to float32 values, then whatever the other
  -- cells hold, the row becomes 20 bytes that the client reads back as the parsed cells.
  pub row_to_record_reads :
      (key : ℤ) (la lo : ℕ)
      → parse_key u (row "Unique Key") ≡ ok key
      → pos_part key < 2 ^ 31
      → neg_part key ≤ 2 ^ 31
      → fl.to_f32 (parse_float fl (row "Latitude")) ≡ some la
      → fl.to_f32 (parse_float fl (row "Longitude")) ≡ some lo
      → (bs : List ℕ) × (row_to_record u fl row ≡ ok bs)
        × (length bs ≡ record_size)
        × (read_record bs ≡ stands_for fl (row_fields u fl key row) la lo)
  unfolding row_to_record
  row_to_record_reads key la lo hk below above ela elo =
      let (hy, hz, hs, hb) =
        cell_bounds u (row "Created Date") (row "Incident Zip") (row "Status") (row "Borough") in
      let fields = row_fields u fl key row in
      let fits : Fits fl fields la lo = record {
        key_below = below;
        key_above = above;
        latitude_bits = ela;
        longitude_bits = elo;
        zip_word = omega arith;
        year_word = omega arith;
        status_byte = omega arith;
        borough_byte = omega arith;
      } in
      let packed = pack_fields-Fits fl fields la lo fits in
      let (size, la', lo', ea, eo, reads) = read_record-pack_fields fl fields packed in
      (_, rw hk packed, size, cc (reads, ea, eo))

-- What `int(cell or 0)` is: 0 where there is no text, else the number that the text is, if it is one.
pub data IsKey (u : Unicode) : Option Str → ℤ → Type 0 where
  absent : IsKey u none (pos 0)
  empty : IsKey u (some []) (pos 0)
  read : {c : ℕ} {s : Str} {key : ℤ} → int_of_text u (c ∷ s) ≡ some key → IsKey u (some (c ∷ s)) key

pub data IsNoKey (u : Unicode) : Option Str → Type 0 where
  no_integer : {c : ℕ} {s : Str} → int_of_text u (c ∷ s) ≡ none → IsNoKey u (some (c ∷ s))

parse_key-cases :
    (u : Unicode) (cell : Option Str)
    → ((key : ℤ) × (parse_key u cell ≡ ok key) × IsKey u cell key)
      ⊎ ((parse_key u cell ≡ err value_error) × IsNoKey u cell)
unfolding parse_key
parse_key-cases u none = inl (pos 0, refl, absent)
parse_key-cases u (some []) = inl (pos 0, refl, empty)
parse_key-cases u (some (c ∷ s)) = elim (Option-cases (int_of_text u (c ∷ s))) [
  | inl e ↦ inr (rw e refl, no_integer e)
  | inr (key, e) ↦ inl (key, rw e refl, read e)
]

parse_key-IsKey :
    (u : Unicode) (cell : Option Str) (key : ℤ) → IsKey u cell key → parse_key u cell ≡ ok key
unfolding parse_key
parse_key-IsKey u _ _ absent = refl
parse_key-IsKey u _ _ empty = refl
parse_key-IsKey u _ _ (read e) = rw e refl

parse_key-IsNoKey :
    (u : Unicode) (cell : Option Str) → IsNoKey u cell → parse_key u cell ≡ err value_error
unfolding parse_key
parse_key-IsNoKey u _ (no_integer e) = rw e refl

-- Why `row_to_record` raises: the key is no integer, or the key is no int32, or the key is one and a
-- coordinate is too large for a float32.
pub data Refused (u : Unicode) (fl : Floats) (row : Row) : Exc → Type 0 where
  bad_key : IsNoKey u (row "Unique Key") → Refused u fl row value_error
  wide_key :
      (key : ℤ)
      → IsKey u (row "Unique Key") key
      → (2 ^ 31 ≤ pos_part key) ⊎ (2 ^ 31 < neg_part key)
      → Refused u fl row struct_error
  wide_coordinate :
      (key : ℤ)
      → IsKey u (row "Unique Key") key
      → pos_part key < 2 ^ 31
      → neg_part key ≤ 2 ^ 31
      → (fl.to_f32 (parse_float fl (row "Latitude")) ≡ none)
        ⊎ (fl.to_f32 (parse_float fl (row "Longitude")) ≡ none)
      → Refused u fl row overflow_error

module _ (u : Unicode) (fl : Floats) (row : Row) where
  raised : {e x : Exc} → e ≡ x → Refused u fl row x → Refused u fl row e
  raised h r = subst (Refused u fl row) (sym h) r

  Refused-pack :
      (key : ℤ) (e : Exc)
      → IsKey u (row "Unique Key") key
      → pack_fields fl (row_fields u fl key row) ≡ err e
      → Refused u fl row e
  Refused-pack key e hk h =
      let (hy, hz, hs, hb) =
        cell_bounds u (row "Created Date") (row "Incident Zip") (row "Status") (row "Borough") in
      elim (pack_errors fl (row_fields u fl key row) (omega arith) (omega arith) (omega arith)
        (omega arith) h) [
          | inl (k, wide) ↦ raised k (wide_key key hk wide)
          | inr (k, below, above, wide) ↦ raised k (wide_coordinate key hk below above wide)
        ]

  raises-Refused : (e : Exc) → row_to_record u fl row ≡ err e → Refused u fl row e
  unfolding row_to_record
  raises-Refused e h = elim (parse_key-cases u (row "Unique Key")) [
    | inl (key, p, is) ↦ Refused-pack key e is (rw (p, row_to_record) at h)
    | inr (p, bad) ↦ raised (let raises = rw (p, row_to_record) at h in cc) (bad_key bad)
  ]

  Refused-raises : (e : Exc) → Refused u fl row e → row_to_record u fl row ≡ err e
  unfolding row_to_record
  Refused-raises _ (bad_key bad) = rw (parse_key-IsNoKey u (row "Unique Key") bad) refl
  Refused-raises _ (wide_key key is wide) =
      rw (parse_key-IsKey u (row "Unique Key") key is)
        (key_refuses fl (row_fields u fl key row) wide)
  Refused-raises _ (wide_coordinate key is below above wide) =
      rw (parse_key-IsKey u (row "Unique Key") key is)
        (coordinate_refuses fl (row_fields u fl key row) below above wide)

  -- `row_to_record` raises exactly for these reasons: `ValueError` for a key that is a text but no
  -- integer, `struct.error` for a key that is no int32, and `OverflowError` for an int32 with a
  -- coordinate that is too large for a float32. The other cells never make it raise.
  pub row_to_record_errors : (e : Exc) → (row_to_record u fl row ≡ err e) ↔ Refused u fl row e
  row_to_record_errors e = (raises-Refused e, Refused-raises e)
