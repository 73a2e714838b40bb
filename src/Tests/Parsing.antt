-- ===== src/Tests/Parsing.antt =====
-- The cells of a row, and the record format.
use mini2_anu_asim.Prelude.{
  ◌↔◌, ℕ, ◌≡◌, refl, none, some, List, [], ◌∷◌, arith, ok, err, value_error, length,
}
use mini2_anu_asim.Prelude.Int.{pos, negsuc}
use mini2_anu_asim.Prelude.Text.{codes, ascii, ascii_lower, ascii_space, ascii_digit, strip}
use mini2_anu_asim.Struct.{
  Fields, pack_fields, record_size, pack_record, pack_args, pack_one, pack_signed32, pack_unsigned,
  calcsize, record_fmt,
}
use mini2_anu_asim.Struct.Bytes.{le_bytes, word32}
use mini2_anu_asim.Struct.Layout.{read_record}
use mini2_anu_asim.Struct.RoundTrip.{stands_for, read_record-pack_fields}
use mini2_anu_asim.Shards.Search.{int_of_text, digits_at, search_from}
use mini2_anu_asim.Shards.Strptime.{strptime, iso}
use mini2_anu_asim.Shards.Fields.{
  parse_year, parse_zip, parse_key, parse_float, code, row_fields, row_to_record,
}
use mini2_anu_asim.Shards.Fields.Record.{row_to_record_reads, row_to_record_errors, Refused}
use mini2_anu_asim.Tests.Samples.{counting, request, keyless}

format_size : calcsize record_fmt ≡ record_size
unfolding calcsize
format_size = refl

year_of_us_date : parse_year ascii (some (codes " 01/02/2021 03:04:05 AM")) ≡ 2021
unfolding parse_year strptime strip ascii_lower ascii_space ascii_digit
year_of_us_date = refl

year_of_iso_date : parse_year ascii (some (codes "2020-02-29t23:59:59")) ≡ 2020
unfolding parse_year strptime strip ascii_lower ascii_space ascii_digit search_from
year_of_iso_date = refl

no_such_day : strptime ascii iso (codes "2021-02-29T23:59:59") ≡ none
unfolding strptime ascii_lower ascii_space ascii_digit
no_such_day = refl

int_texts :
    (int_of_text ascii (codes " -1_000 ") ≡ some (negsuc 999))
    × (int_of_text ascii (codes "1__0") ≡ none)
unfolding int_of_text ascii_space ascii_digit
int_texts = (refl, refl)

abbrev one_record : List ℕ
one_record = 42 ∷ 0 ∷ 0 ∷ 0 ∷ 0 ∷ 0 ∷ 0 ∷ 0 ∷ 0 ∷ 0 ∷ 0 ∷ 0 ∷ 17 ∷ 39 ∷ 0 ∷ 0 ∷ 229 ∷ 7 ∷ 2 ∷ 4 ∷ []

request_record : row_to_record ascii counting request ≡ ok one_record
unfolding row_to_record parse_key parse_year strptime strip ascii_lower ascii_space ascii_digit
    parse_zip search_from digits_at code parse_float int_of_text pack_fields pack_record pack_args
    pack_one pack_signed32 pack_unsigned le_bytes
request_record = refl

key_text : parse_key ascii (request "Unique Key") ≡ ok (pos 42)
unfolding parse_key int_of_text ascii_space ascii_digit
key_text = refl

origin : counting.to_f32 (parse_float counting (request "Latitude")) ≡ some 0
unfolding parse_float
origin = refl

row_to_record_reads_example :
    (bs : List ℕ) × (row_to_record ascii counting request ≡ ok bs)
    × (length bs ≡ record_size)
    × (read_record bs ≡ stands_for counting (row_fields ascii counting (pos 42) request) 0 0)
row_to_record_reads_example =
    row_to_record_reads ascii counting request (pos 42) 0 0 key_text (omega arith) (omega arith)
      origin origin

keyless_record : row_to_record ascii counting keyless ≡ err value_error
unfolding row_to_record parse_key int_of_text ascii_space ascii_digit
keyless_record = refl

row_to_record_errors_example :
    (row_to_record ascii counting keyless ≡ err value_error)
    ↔ Refused ascii counting keyless value_error
row_to_record_errors_example = row_to_record_errors ascii counting keyless value_error

abbrev deep_south : Fields counting
deep_south = record {
  key = negsuc 1;
  latitude = 258;
  longitude = 7;
  incident_zip = 10001;
  year = 2021;
  status = 2;
  borough = 4;
}

abbrev deep_south_bytes : List ℕ
deep_south_bytes =
    254 ∷ 255 ∷ 255 ∷ 255 ∷ 2 ∷ 1 ∷ 0 ∷ 0 ∷ 7 ∷ 0 ∷ 0 ∷ 0 ∷ 17 ∷ 39 ∷ 0 ∷ 0 ∷ 229 ∷ 7 ∷ 2 ∷ 4 ∷ []

pack_deep_south : pack_fields counting deep_south ≡ ok deep_south_bytes
unfolding pack_fields pack_record pack_args pack_one pack_signed32 pack_unsigned le_bytes word32
pack_deep_south = refl

read_record-pack_fields_example :
    (length deep_south_bytes ≡ record_size)
    × (la : ℕ) × (lo : ℕ) × (counting.to_f32 258 ≡ some la)
    × (counting.to_f32 7 ≡ some lo)
    × (read_record deep_south_bytes ≡ stands_for counting deep_south la lo)
read_record-pack_fields_example = read_record-pack_fields counting deep_south pack_deep_south
