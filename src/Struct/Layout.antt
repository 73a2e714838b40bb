-- ===== src/Struct/Layout.antt =====
-- The packed struct `Record` as src/client/main.cpp reads it out of a segment's payload.
use mini2_anu_asim.Prelude.{ℕ, zero, suc, ◌/◌, List, [], ◌∷◌, length, take, drop}
use mini2_anu_asim.Prelude.Int.{ℤ}
use mini2_anu_asim.Struct.Bytes.{from_le, signed32}

-- A float field is its 32 bits.
pub record Record : Type 0 where
  pub unique_key : ℤ
  pub latitude : ℕ
  pub longitude : ℕ
  pub incident_zip : ℕ
  pub created_year : ℕ
  pub status : ℕ
  pub borough : ℕ

-- The field of `n` bytes at an offset.
abbrev pub field_at : ℕ → ℕ → List ℕ → ℕ
field_at off n bs = from_le (take n (drop off bs))

-- The `memcpy` of one record.
unfoldable pub read_record : List ℕ → Record
unfolding from_le signed32
read_record bs = record {
  unique_key = signed32 (field_at 0 4 bs);
  latitude = field_at 4 4 bs;
  longitude = field_at 8 4 bs;
  incident_zip = field_at 12 4 bs;
  created_year = field_at 16 2 bs;
  status = field_at 18 1 bs;
  borough = field_at 19 1 bs;
}

-- The loop over the `rec_count` records of a payload.
unfoldable pub read_loop : ℕ → List ℕ → List Record
read_loop zero bs = []
read_loop (suc n) bs = read_record (take 20 bs) ∷ read_loop n (drop 20 bs)

unfoldable pub read_records : List ℕ → List Record
unfolding read_loop
read_records bs = read_loop (length bs / 20) bs
