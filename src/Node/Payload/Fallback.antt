-- ===== src/Node/Payload/Fallback.antt =====
-- The sample records, and what the payload of a node always is.
use Prim.Native.Char.{Char, code}
use mini2_anu_asim.Prelude.{
  ℕ, zero, suc, ◌+◌, ◌*◌, ◌%◌, ◌^◌, ◌≤◌, ◌<◌, ◌≡◌, refl, ◌∙◌, ap, String, Option, some, List, [],
  ◌∷◌, ◌++◌, map, append-nil, arith, ok, >>=-eq-ok, length, flatten,
}
use mini2_anu_asim.Prelude.Int.{ℤ, pos, ◌+ℤ◌, mod_ℤ, mod_ℤ-lt, pos_part, neg_part, sub_ℕ}
use mini2_anu_asim.Prelude.Floats.{Floats}
use mini2_anu_asim.Struct.{pack_fields}
use mini2_anu_asim.Struct.Layout.{Record, read_record, read_records}
use mini2_anu_asim.Struct.RoundTrip.{read_record-pack_fields}
use mini2_anu_asim.Struct.Total.{
  Fits, pack_fields-Fits, AreRecords, length-flatten_records, read_records-flatten,
}
use mini2_anu_asim.Node.Payload.{
  Files, sample, samples, build_fallback_payload, choose_payload, init_payload, load_shard_payload,
}
use mini2_anu_asim.Node.Payload.Load.{length-load_shard_payload}

-- What a record says besides the coordinates.
pub record Facts : Type 0 where
  pub key : ℤ
  pub incident_zip : ℕ
  pub year : ℕ
  pub status : ℕ
  pub borough : ℕ

abbrev pub facts : Record → Facts
facts r = record {
  key = r.unique_key;
  incident_zip = r.incident_zip;
  year = r.created_year;
  status = r.status;
  borough = r.borough;
}

-- The facts of the sample record of the number `i`, and of `n` of them from `i` on.
abbrev pub sample_fact : ℤ → Facts
sample_fact i = record {
  key = pos 10000000 +ℤ i;
  incident_zip = 10000 + mod_ℤ i 200;
  year = 2020 + mod_ℤ i 5;
  status = mod_ℤ i 4;
  borough = mod_ℤ i 6;
}

abbrev pub sample_facts : ℕ → ℤ → List Facts
sample_facts zero i = []
sample_facts (suc n) i = sample_fact i ∷ sample_facts n (i +ℤ pos 1)

module _ (fl : Floats) where
  sample_reads :
      (i : ℤ) {part : List ℕ}
      → pack_fields fl (sample fl i) ≡ ok part
      → (length part ≡ 20) × (facts (read_record part) ≡ sample_fact i)
  unfolding sample
  sample_reads i h =
      let (size, la, lo, ea, eo, reads) = read_record-pack_fields fl (sample fl i) h in
      (size, ap (λ (r : Record). facts r) reads)

  samples_parts :
      (n : ℕ) (i : ℤ) {bs : List ℕ}
      → samples fl n i ≡ ok bs
      → (parts : List (List ℕ)) × (bs ≡ flatten parts)
        × AreRecords parts
        × (length parts ≡ n)
        × (map facts (map read_record parts) ≡ sample_facts n i)
  unfolding samples
  samples_parts zero i h = ([], cc, tt, refl, refl)
  samples_parts (suc n) i h =
      let (part, hp, hr) = >>=-eq-ok (pack_fields fl (sample fl i)) _ h in
      let (rest, hr', e) = >>=-eq-ok (samples fl n (i +ℤ pos 1)) _ hr in
      let (parts, ep, records, count, same) = samples_parts n (i +ℤ pos 1) hr' in
      let (size, reads) = sample_reads i hp in
      (part ∷ parts, cc (e, ep), (size, records), ap suc count, λ k. reads k ∷ same k)

  -- If the sample records can be packed, the client reads ten records from them: their keys count
  -- up from 10000000 + base, and their zip codes, years and codes follow the number.
  pub fallback_reads :
      (base : ℤ) {bs : List ℕ}
      → build_fallback_payload fl base ≡ ok bs
      → (length bs ≡ 200) × (map facts (read_records bs) ≡ sample_facts 10 base)
  unfolding build_fallback_payload
  fallback_reads base {bs} h =
      let (parts, e, records, count, same) = samples_parts 10 base h in
      let size = length-flatten_records parts records in
      let reads = read_records-flatten parts [] records (omega arith) in
      (rw e (omega (arith, size, count)), rw e (ap (map facts) (rw append-nil at reads) ∙ same))

  -- A number that the sample records of a node can have: `ord` is below 0x110000.
  abbrev pub IsSampled : ℤ → Type 0
  IsSampled i = (pos_part i < 2 ^ 24) × (neg_part i ≤ 650)

  -- The coordinates of these sample records round to float32 values.
  abbrev pub CoordinatesFit : Type 0
  CoordinatesFit =
      (i : ℤ)
      → IsSampled i
      → ((w : ℕ) × (fl.to_f32 (sample fl i).latitude ≡ some w))
        × ((w : ℕ) × (fl.to_f32 (sample fl i).longitude ≡ some w))

  sample_fits :
      (i : ℤ)
      → CoordinatesFit
      → IsSampled i
      → (part : List ℕ) × (pack_fields fl (sample fl i) ≡ ok part)
  sample_fits i fit k =
      let ((la, ela), (lo, elo)) = fit i k in
      let fits : Fits fl (sample fl i) la lo = record {
        key_below = unfold sample ◌+ℤ◌ in ground arith;
        key_above = unfold sample ◌+ℤ◌ in ground arith;
        latitude_bits = ela;
        longitude_bits = elo;
        zip_word = unfold sample in omega (arith, mod_ℤ-lt i 200 (omega arith));
        year_word = unfold sample in omega (arith, mod_ℤ-lt i 5 (omega arith));
        status_byte = unfold sample in omega (arith, mod_ℤ-lt i 4 (omega arith));
        borough_byte = unfold sample in omega (arith, mod_ℤ-lt i 6 (omega arith));
      } in
      (_, pack_fields-Fits fl (sample fl i) la lo fits)

  next_fits :
      (n : ℕ) (i : ℤ)
      → pos_part i + suc n ≤ 2 ^ 24
      → neg_part i ≤ 650
      → (pos_part (i +ℤ pos 1) + n ≤ 2 ^ 24) × (neg_part (i +ℤ pos 1) ≤ 650)
  unfolding ◌+ℤ◌
  next_fits n i h k = ground arith

  samples_total :
      (n : ℕ) (i : ℤ)
      → CoordinatesFit
      → pos_part i + n ≤ 2 ^ 24
      → neg_part i ≤ 650
      → (bs : List ℕ) × (samples fl n i ≡ ok bs)
  unfolding samples
  samples_total zero i fit h k = ([], refl)
  samples_total (suc n) i fit h k =
      let (part, hp) = sample_fits i fit (omega arith) in
      let (h', k') = next_fits n i h k in
      let (rest, hr) = samples_total n (i +ℤ pos 1) fit h' k' in (part ++ rest, rw (hp, hr) refl)

  chosen_whole :
      (shard : List ℕ) (base : ℤ) {bs : List ℕ}
      → length shard % 20 ≡ 0
      → choose_payload fl shard base ≡ ok bs
      → (length bs % 20 ≡ 0) × (0 < length bs)
  unfolding choose_payload
  chosen_whole [] base h e = let size = (fallback_reads base e).0 in omega (arith, size)
  chosen_whole (b ∷ shard) base {bs} h e = let same : bs ≡ b ∷ shard = cc in rw same (omega arith)

  chosen_total :
      (shard : List ℕ) (base : ℤ)
      → CoordinatesFit
      → pos_part base + 10 ≤ 2 ^ 24
      → neg_part base ≤ 650
      → (bs : List ℕ) × (choose_payload fl shard base ≡ ok bs)
  unfolding choose_payload build_fallback_payload
  chosen_total [] base fit h k = samples_total 10 base fit h k
  chosen_total (b ∷ shard) base fit h k = (b ∷ shard, refl)

  -- A node whose id is one character starts, whatever the files hold, provided that the coordinates of
  -- the sample records that a node can have round to float32 values; and the payload that it keeps is
  -- one whole record at least, with no partial one.
  pub init_payload_serves :
      (fs : Files) (env : Option String) (c : Char)
      → code c < 0x110000
      → CoordinatesFit
      → (bs : List ℕ) × (init_payload fl fs env (String.◌∷◌ c String.[]) ≡ ok bs)
        × (length bs % 20 ≡ 0)
        × (0 < length bs)
  unfolding init_payload
  init_payload_serves fs env c h fit =
      let node : String = String.◌∷◌ c String.[] in
      let base : ℤ = sub_ℕ (10 * code c) 650 in
      let shard = load_shard_payload fs env node in
      let (bs, e) = chosen_total shard base fit (ground arith) (ground arith) in
      let (whole, some_bytes) = chosen_whole shard base (length-load_shard_payload fs node env) e in
      (bs, e, whole, some_bytes)
