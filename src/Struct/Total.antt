-- ===== src/Struct/Total.antt =====
-- Arguments in range are packed, and the decoder inverts a whole file of records.
use mini2_anu_asim.Prelude.{
  ℕ, ◌*◌, ◌/◌, ◌^◌, ◌<◌, ◌≤◌, ◌≡◌, refl, ap, List, [], ◌∷◌, ◌++◌, arith, ok, length, take, drop,
  flatten, length-append, All, some, map, append_assoc,
}
use mini2_anu_asim.Prelude.Int.{ℤ, pos, negsuc, pos_part, neg_part}
use mini2_anu_asim.Prelude.Floats.{Floats}
use mini2_anu_asim.Struct.Bytes.{le_bytes, word32}
use mini2_anu_asim.Struct.Layout.{read_record, read_loop, read_records}
use mini2_anu_asim.Struct.RoundTrip.{layout}
use mini2_anu_asim.Struct.{
  Fields, pack_fields, pack_one, pack_args, pack_record, pack_signed32, pack_unsigned,
}

pack_signed32_fits :
    (z : ℤ)
    → pos_part z < 2 ^ 31
    → neg_part z ≤ 2 ^ 31
    → pack_signed32 z ≡ ok (le_bytes 4 (word32 z))
unfolding pack_signed32 word32
pack_signed32_fits (pos n) h k = ground arith
pack_signed32_fits (negsuc n) h k = ground arith

pack_unsigned_fits : (k n : ℕ) → n < 2 ^ (8 * k) → pack_unsigned k (pos n) ≡ ok (le_bytes k n)
unfolding pack_unsigned
pack_unsigned_fits k n h = ground arith

-- The ranges of the format characters.
pub record Fits (fl : Floats) (a : Fields fl) (la lo : ℕ) : Type 0 where
  pub key_below : pos_part a.key < 2 ^ 31
  pub key_above : neg_part a.key ≤ 2 ^ 31
  pub latitude_bits : fl.to_f32 a.latitude ≡ some la
  pub longitude_bits : fl.to_f32 a.longitude ≡ some lo
  pub zip_word : a.incident_zip < 2 ^ 32
  pub year_word : a.year < 2 ^ 16
  pub status_byte : a.status < 2 ^ 8
  pub borough_byte : a.borough < 2 ^ 8

pub pack_fields-Fits :
    (fl : Floats) (a : Fields fl) (la lo : ℕ)
    → Fits fl a la lo
    → pack_fields fl a ≡ ok (layout (word32 a.key) la lo a.incident_zip a.year a.status a.borough)
unfolding pack_fields pack_record pack_args pack_one
pack_fields-Fits fl a la lo h =
    rw
      (
        pack_signed32_fits a.key h.key_below h.key_above,
        h.latitude_bits,
        h.longitude_bits,
        pack_unsigned_fits 4 a.incident_zip h.zip_word,
        pack_unsigned_fits 2 a.year h.year_word,
        pack_unsigned_fits 1 a.status h.status_byte,
        pack_unsigned_fits 1 a.borough h.borough_byte,
      )
      refl

take-length-append {ℓ} : {A : Type ℓ} (xs ys : List A) → take (length xs) (xs ++ ys) ≡ xs
take-length-append [] ys = refl
take-length-append (x ∷ xs) ys = ap (λ t. x ∷ t) (take-length-append xs ys)

drop-length-append {ℓ} : {A : Type ℓ} (xs ys : List A) → drop (length xs) (xs ++ ys) ≡ ys
drop-length-append [] ys = refl
drop-length-append (x ∷ xs) ys = drop-length-append xs ys

-- Twenty bytes each.
abbrev pub AreRecords : List (List ℕ) → Type 0
AreRecords = All (λ bs. length bs ≡ 20)

pub length-flatten_records :
    (parts : List (List ℕ)) → AreRecords parts → length (flatten parts) ≡ 20 * length parts
length-flatten_records [] h = refl
length-flatten_records (p ∷ ps) h =
    omega (arith, length-append p (flatten ps), length-flatten_records ps h.1, h.0)

read_loop-flatten :
    (parts : List (List ℕ)) (rest : List ℕ)
    → AreRecords parts
    → read_loop (length parts) (flatten parts ++ rest) ≡ map read_record parts
unfolding read_loop
read_loop-flatten [] rest h = refl
read_loop-flatten (p ∷ ps) rest h =
    let tail : List ℕ = flatten ps ++ rest in
    let t : take 20 (p ++ tail) ≡ p = rw h.0 at (take-length-append p tail) in
    let d : drop 20 (p ++ tail) ≡ tail = rw h.0 at (drop-length-append p tail) in
    rw (append_assoc, t, d, read_loop-flatten ps rest h.1) refl

-- The client's loop over a payload that holds whole records reads each of them, in order, whatever
-- part of a record stands behind them.
pub read_records-flatten :
    (parts : List (List ℕ)) (rest : List ℕ)
    → AreRecords parts
    → length rest < 20
    → read_records (flatten parts ++ rest) ≡ map read_record parts
unfolding read_records
read_records-flatten parts rest h k =
    let n : length (flatten parts ++ rest) / 20 ≡ length parts =
      omega (arith, length-append (flatten parts) rest, length-flatten_records parts h) in
    rw n (read_loop-flatten parts rest h)
