-- ===== src/Struct/RoundTrip.antt =====
-- What `struct.pack` writes at the record format, `memcpy` into the C++ struct reads back.
use mini2_anu_asim.Prelude.{
  ℕ, ◌*◌, ◌^◌, ◌<◌, ◌≡◌, refl, ap, ◌∙◌, List, [], ◌∷◌, ◌++◌, arith, ok, >>=-eq-ok, Option-cases,
  inl, inr, length, some,
}
use mini2_anu_asim.Prelude.Int.{ℤ, pos, negsuc}
use mini2_anu_asim.Prelude.Floats.{Floats}
use mini2_anu_asim.Struct.Bytes.{
  le_bytes, word32, signed32, from_le-le_bytes, signed32-word32_pos, signed32-word32_neg,
  word32_lt_neg,
}
use mini2_anu_asim.Struct.Layout.{Record, read_record}
use mini2_anu_asim.Struct.{
  Fields, pack_fields, Value, float, pack_one, pack_args, pack_record, pack_signed32, pack_unsigned,
  record_size, Code, int32, float32, uint32, uint16, uint8,
}

pack_signed32_lem :
    (z : ℤ) {bs : List ℕ}
    → pack_signed32 z ≡ ok bs
    → (w : ℕ) × (w < 2 ^ 32) × (bs ≡ le_bytes 4 w) × (signed32 w ≡ z)
unfolding pack_signed32
pack_signed32_lem (pos n) h = (
  word32 (pos n),
  unfold word32 in ground arith,
  unfold word32 in ground arith,
  signed32-word32_pos n (ground arith),
)
pack_signed32_lem (negsuc n) h =
    (word32 (negsuc n), word32_lt_neg n, ground arith, signed32-word32_neg n (ground arith))

pack_unsigned_lem :
    (k : ℕ) (z : ℤ) {bs : List ℕ}
    → pack_unsigned k z ≡ ok bs
    → (w : ℕ) × (w < 2 ^ (8 * k)) × (bs ≡ le_bytes k w) × (z ≡ pos w)
unfolding pack_unsigned
pack_unsigned_lem k (pos n) h = (n, ground arith, ground arith, refl)
pack_unsigned_lem k (negsuc n) h = cc

module _ (fl : Floats) where
  pack_args-cons :
      (c : Code) (cs : List Code) (v : Value fl) (vs : List (Value fl)) {bs : List ℕ}
      → pack_args fl (c ∷ cs) (v ∷ vs) ≡ ok bs
      → (p r : List ℕ) × (pack_one fl c v ≡ ok p) × (pack_args fl cs vs ≡ ok r) × (bs ≡ p ++ r)
  unfolding pack_args
  pack_args-cons c cs v vs h =
      let (p, hp, hr) = >>=-eq-ok (pack_one fl c v) _ h in
      let (r, hr', e) = >>=-eq-ok (pack_args fl cs vs) _ hr in (p, r, hp, hr', cc)

  pack_args-nil : {bs : List ℕ} → pack_args fl [] [] ≡ ok bs → bs ≡ []
  unfolding pack_args
  pack_args-nil h = cc

  pack_float_lem :
      (x : fl.F) {bs : List ℕ}
      → pack_one fl float32 (float x) ≡ ok bs
      → (w : ℕ) × (w < 2 ^ 32) × (bs ≡ le_bytes 4 w) × (fl.to_f32 x ≡ some w)
  unfolding pack_one
  pack_float_lem x h = elim (Option-cases (fl.to_f32 x)) [
    | inl e ↦ absurd (ground arith)
    | inr (w, e) ↦ (w, fl.f32_word x w e, ground arith, e)
  ]

-- The seven words, little endian, one after the other.
abbrev pub layout : (k la lo z y s b : ℕ) → List ℕ
layout k la lo z y s b =
    le_bytes 4 k
    ++ (le_bytes 4 la
        ++ (le_bytes 4 lo
            ++ (le_bytes 4 z ++ (le_bytes 2 y ++ (le_bytes 1 s ++ (le_bytes 1 b ++ []))))))

length-layout : (k la lo z y s b : ℕ) → length (layout k la lo z y s b) ≡ 20
unfolding le_bytes
length-layout k la lo z y s b = refl

read_layout :
    (k la lo z y s b : ℕ)
    → k < 2 ^ 32
    → la < 2 ^ 32
    → lo < 2 ^ 32
    → z < 2 ^ 32
    → y < 2 ^ 16
    → s < 2 ^ 8
    → b < 2 ^ 8
    → read_record (layout k la lo z y s b) ≡ record {
      unique_key = signed32 k;
      latitude = la;
      longitude = lo;
      incident_zip = z;
      created_year = y;
      status = s;
      borough = b;
    }
unfolding le_bytes read_record
read_layout k la lo z y s b hk hla hlo hz hy hs hb = λ i. record {
  unique_key = signed32 (from_le-le_bytes 4 k hk i);
  latitude = from_le-le_bytes 4 la hla i;
  longitude = from_le-le_bytes 4 lo hlo i;
  incident_zip = from_le-le_bytes 4 z hz i;
  created_year = from_le-le_bytes 2 y hy i;
  status = from_le-le_bytes 1 s hs i;
  borough = from_le-le_bytes 1 b hb i;
}

-- The words behind a successful `struct.pack` at the record format.
record Packed (fl : Floats) (a : Fields fl) (bs : List ℕ) : Type 0 where
  k : ℕ
  la : ℕ
  lo : ℕ
  k_word : k < 2 ^ 32
  la_word : la < 2 ^ 32
  lo_word : lo < 2 ^ 32
  zip_word : a.incident_zip < 2 ^ 32
  year_word : a.year < 2 ^ 16
  status_byte : a.status < 2 ^ 8
  borough_byte : a.borough < 2 ^ 8
  key_value : signed32 k ≡ a.key
  latitude_bits : fl.to_f32 a.latitude ≡ some la
  longitude_bits : fl.to_f32 a.longitude ≡ some lo
  bytes : bs ≡ layout k la lo a.incident_zip a.year a.status a.borough

unsigned_field :
    (k n : ℕ) {bs : List ℕ}
    → pack_unsigned k (pos n) ≡ ok bs
    → (n < 2 ^ (8 * k)) × (bs ≡ le_bytes k n)
unfolding pack_unsigned
unsigned_field k n h = ground arith

pack_fields-Packed :
    (fl : Floats) (a : Fields fl) {bs : List ℕ} → pack_fields fl a ≡ ok bs → Packed fl a bs
unfolding pack_fields pack_record pack_one
pack_fields-Packed fl a h =
    let (p0, r0, h0, t0, e0) = pack_args-cons fl int32 _ _ _ h in
    let (p1, r1, h1, t1, e1) = pack_args-cons fl float32 _ _ _ t0 in
    let (p2, r2, h2, t2, e2) = pack_args-cons fl float32 _ _ _ t1 in
    let (p3, r3, h3, t3, e3) = pack_args-cons fl uint32 _ _ _ t2 in
    let (p4, r4, h4, t4, e4) = pack_args-cons fl uint16 _ _ _ t3 in
    let (p5, r5, h5, t5, e5) = pack_args-cons fl uint8 _ _ _ t4 in
    let (p6, r6, h6, t6, e6) = pack_args-cons fl uint8 _ _ _ t5 in
    let e7 = pack_args-nil fl t6 in
    let (k, k_word, ek, key_value) = pack_signed32_lem a.key h0 in
    let (la, la_word, ela, latitude_bits) = pack_float_lem fl a.latitude h1 in
    let (lo, lo_word, elo, longitude_bits) = pack_float_lem fl a.longitude h2 in
    let (zip_word, ez) = unsigned_field 4 a.incident_zip h3 in
    let (year_word, ey) = unsigned_field 2 a.year h4 in
    let (status_byte, es) = unsigned_field 1 a.status h5 in
    let (borough_byte, eb) = unsigned_field 1 a.borough h6 in
    record {
      k = k;
      la = la;
      lo = lo;
      k_word = k_word;
      la_word = la_word;
      lo_word = lo_word;
      zip_word = zip_word;
      year_word = year_word;
      status_byte = status_byte;
      borough_byte = borough_byte;
      key_value = key_value;
      latitude_bits = latitude_bits;
      longitude_bits = longitude_bits;
      bytes = cc (e0, e1, e2, e3, e4, e5, e6, e7, ek, ela, elo, ez, ey, es, eb);
    }

module _ (fl : Floats) (a : Fields fl) where
  -- The record that the bytes stand for, given the bits of the two floats.
  abbrev pub stands_for : ℕ → ℕ → Record
  stands_for la lo = record {
    unique_key = a.key;
    latitude = la;
    longitude = lo;
    incident_zip = a.incident_zip;
    created_year = a.year;
    status = a.status;
    borough = a.borough;
  }

  -- A successful `struct.pack` at the record format gives 20 bytes, and the C++ struct read from
  -- them has the seven packed values, a float as the bits of its rounding to float32.
  pub read_record-pack_fields :
      {bs : List ℕ}
      → pack_fields fl a ≡ ok bs
      → (length bs ≡ record_size)
        × (la : ℕ) × (lo : ℕ) × (fl.to_f32 a.latitude ≡ some la)
        × (fl.to_f32 a.longitude ≡ some lo)
        × (read_record bs ≡ stands_for la lo)
  read_record-pack_fields h =
      let p = pack_fields-Packed fl a h in
      (
        rw p.bytes (length-layout p.k p.la p.lo a.incident_zip a.year a.status a.borough),
        p.la,
        p.lo,
        p.latitude_bits,
        p.longitude_bits,
        rw p.bytes (
            read_layout p.k p.la p.lo a.incident_zip a.year a.status a.borough p.k_word p.la_word
              p.lo_word p.zip_word p.year_word p.status_byte p.borough_byte
            ∙ ap (λ (z : ℤ). record (stands_for p.la p.lo) { unique_key = z }) p.key_value),
      )
