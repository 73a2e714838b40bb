-- ===== src/Tests/Dealing.antt =====
-- `main` of make_shards.py on a few rows.
use mini2_anu_asim.Prelude.{
  ℕ, ◌+◌, ◌-◌, ◌*◌, ◌/◌, ◌≡◌, refl, some, List, [], ◌∷◌, map, arith, ok, err, value_error, length,
  flatten,
}
use mini2_anu_asim.Prelude.Int.{pos}
use mini2_anu_asim.Prelude.Text.{ascii, strip, ascii_lower, ascii_space, ascii_digit}
use mini2_anu_asim.Prelude.Dict.{get}
use mini2_anu_asim.Struct.{
  pack_fields, pack_record, pack_args, pack_one, pack_signed32, pack_unsigned,
}
use mini2_anu_asim.Struct.Layout.{read_record, read_records}
use mini2_anu_asim.Shards.Search.{int_of_text, digits_at, search_from}
use mini2_anu_asim.Shards.Strptime.{strptime}
use mini2_anu_asim.Shards.Fields.{
  Row, parse_year, parse_zip, parse_key, parse_float, code, row_to_record,
}
use mini2_anu_asim.Shards.Deal.{main, Report}
use mini2_anu_asim.Shards.Deal.Shares.{limited, outcome, share}
use mini2_anu_asim.Shards.Deal.Results.{
  records, main_deals, shard_file_reads, main_reports, main_raises,
}
use mini2_anu_asim.Tests.Samples.{counting, request, keyless}

-- The second row raises, and the limit keeps it out.
abbrev rows : List Row
rows = request ∷ keyless ∷ request ∷ []

abbrev one : List (List ℕ)
one = records ascii counting (pos 1) "shards" rows

main_deals_example :
    (get "A" (main ascii counting (pos 1) "shards" rows).1.files ≡ some (flatten (share 0 0 one)))
    × (get "A" (main ascii counting (pos 1) "shards" rows).1.counts
        ≡ some ((length one + 8 - 0) / 9))
main_deals_example = main_deals ascii counting (pos 1) "shards" rows 0 (omega arith)

shard_file_reads_example :
    (length (flatten (share 0 0 one)) ≡ 20 * ((length one + 8 - 0) / 9))
    × (read_records (flatten (share 0 0 one)) ≡ map read_record (share 0 0 one))
shard_file_reads_example =
    shard_file_reads ascii counting (pos 1) "shards" rows 0 (omega arith)
      (main_deals ascii counting (pos 1) "shards" rows 0 (omega arith)).0
      (main_deals ascii counting (pos 1) "shards" rows 0 (omega arith)).1

below_limit : outcome ascii counting (limited (pos 1) rows) ≡ ok tt
unfolding outcome row_to_record parse_key parse_year strptime strip ascii_lower ascii_space
    ascii_digit parse_zip search_from digits_at code parse_float int_of_text pack_fields pack_record
    pack_args pack_one pack_signed32 pack_unsigned
below_limit = refl

no_limit : outcome ascii counting (limited (pos 0) rows) ≡ err value_error
unfolding outcome row_to_record parse_key parse_year strptime strip ascii_lower ascii_space
    ascii_digit parse_zip search_from digits_at code parse_float int_of_text pack_fields pack_record
    pack_args pack_one pack_signed32 pack_unsigned
no_limit = refl

main_reports_example :
    (r : Report) × ((main ascii counting (pos 1) "shards" rows).0 ≡ ok r)
    × (r.total ≡ 1)
    × (r.bytes ≡ 20)
main_reports_example = main_reports ascii counting (pos 1) "shards" rows below_limit

main_raises_example : (main ascii counting (pos 0) "shards" rows).0 ≡ err value_error
main_raises_example = main_raises ascii counting (pos 0) "shards" rows value_error no_limit
