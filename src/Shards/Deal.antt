-- ===== src/Shards/Deal.antt =====
-- `main` of scripts/make_shards.py: the loop that deals the records to the nodes' files.
pub mod Steps
pub mod Shares
pub mod Correct
pub mod Results
pub mod Partition
use mini2_anu_asim.Prelude.{
  ℕ, zero, suc, ◌+◌, ◌*◌, ◌%◌, String, ◌<>◌, Bool, true, false, not, ◌&&◌, Option, none, some, List,
  [], ◌∷◌, ◌++◌, map, if◌then◌else◌, Result, ok, err, key_error, index_error, or_raise, ◌>>=◌,
  length, get_elem?,
}
use mini2_anu_asim.Prelude.Int.{ℤ, pos, leb_ℤ, is_zero}
use mini2_anu_asim.Prelude.Text.{Unicode}
use mini2_anu_asim.Prelude.Floats.{Floats}
use mini2_anu_asim.Prelude.Dict.{Dict, get, set, values}
use mini2_anu_asim.Prelude.Paths.{join_path}
use mini2_anu_asim.Struct.{record_size}
use mini2_anu_asim.Shards.Fields.{Row, row_to_record}

-- `NODES`, the characters of "ABCDEFGHI".
abbrev pub nodes : List String
nodes = "A" ∷ "B" ∷ "C" ∷ "D" ∷ "E" ∷ "F" ∷ "G" ∷ "H" ∷ "I" ∷ []

-- `NODES[idx % len(NODES)]`.
unfoldable pub node_at : ℕ → Result String
node_at idx = or_raise index_error (get_elem? nodes (idx % length nodes))

-- The nine open files and the counters.
pub record Shards : Type 0 where
  pub files : Dict (List ℕ)
  pub counts : Dict ℕ

abbrev pub start : Shards
start = record { files = map (λ n. (n, [])) nodes; counts = map (λ n. (n, 0)) nodes }

-- `files[node].write(part)` and `counts[node] += 1`.
unfoldable pub write : String → List ℕ → Shards → Result Shards
write node part st = do
  file ← or_raise key_error (get node st.files)
  count ← or_raise key_error (get node st.counts)
  ok (record { files = set node (file ++ part) st.files; counts = set node (count + 1) st.counts })

-- What `main` prints at the end: the records, their bytes, and the count of each node with the path
-- of its file.
pub record Report : Type 0 where
  pub total : ℕ
  pub bytes : ℕ
  pub lines : List (String × ℕ × String)

unfoldable pub sum : List ℕ → ℕ
sum [] = 0
sum (n ∷ ns) = n + sum ns

-- `os.path.join(args.out_dir, f"shard_{n}.bin")`.
abbrev pub shard_path : String → String → String
shard_path dir node = join_path dir ("shard_" <> node <> ".bin")

abbrev pub report_lines : String → Dict ℕ → List (String × ℕ × String)
report_lines dir [] = []
report_lines dir ((node, count) ∷ rest) = (node, count, shard_path dir node) ∷ report_lines dir rest

unfoldable pub report : String → Shards → Report
unfolding sum
report dir st =
    let total = sum (values st.counts) in
    record { total = total; bytes = total * record_size; lines = report_lines dir st.counts }

-- The report comes only if no row raised.
unfoldable pub finish : String → Shards → Result (Unit {0}) → Result Report
finish dir st (ok _) = ok (report dir st)
finish dir st (err e) = err e

module _ (u : Unicode) (fl : Floats) where
  -- One round of the loop, behind the test of the limit.
  unfoldable pub deal_one : ℕ → Row → Shards → Result Shards
  unfolding node_at write
  deal_one idx row st = do node ← node_at idx; part ← row_to_record u fl row; write node part st

  -- The loop over the rows: an exception leaves what was written before it, and `finally` closes the
  -- files. A limit of 0 is none.
  unfoldable pub deal : ℤ → ℕ → List Row → Shards → Result (Unit {0}) × Shards
  deal limit idx [] st = (ok tt, st)
  deal limit idx (row ∷ rows) st = elim (not (is_zero limit) && leb_ℤ limit (pos idx)) [
    | true ↦ (ok tt, st)
    | false ↦ elim (deal_one idx row st) [
      | err e ↦ (err e, st)
      | ok st' ↦ deal limit (idx + 1) rows st'
    ]
  ]

  -- `main` on the rows of the CSV file, into the directory `dir`.
  unfoldable pub main : ℤ → String → List Row → Result Report × Shards
  unfolding finish
  main limit dir rows = let (outcome, st) = deal limit 0 rows start in (finish dir st outcome, st)
