-- ===== src/Tests/Querying.antt =====
-- Ten rows, dealt to nine nodes, and a query at the root of a tree of these.
use mathlib.Core.List.{Perm}
use mini2_anu_asim.Prelude.{
  ℕ, zero, suc, ◌<◌, ◌≤◌, ◌≡◌, ◌≢◌, refl, ap, subst, String, str_eq, eq_iff, true, Option, none,
  List, [], ◌∷◌, map, arith, ok, ◌==◌, if◌then◌else◌, All, Bool-cases, inl, inr, length, flatten,
  replicate,
}
use mini2_anu_asim.Prelude.Int.{pos}
use mini2_anu_asim.Prelude.Text.{ascii, strip, ascii_lower, ascii_space, ascii_digit}
use mini2_anu_asim.Prelude.Dict.{get}
use mini2_anu_asim.Prelude.Paths.{join_path}
use mini2_anu_asim.Struct.{
  pack_fields, pack_record, pack_args, pack_one, pack_signed32, pack_unsigned,
}
use mini2_anu_asim.Struct.Layout.{read_record, read_records}
use mini2_anu_asim.Shards.Search.{int_of_text, digits_at, search_from}
use mini2_anu_asim.Shards.Strptime.{strptime}
use mini2_anu_asim.Shards.Fields.{
  Row, parse_year, parse_zip, parse_key, parse_float, code, row_to_record,
}
use mini2_anu_asim.Shards.Deal.{main, shard_path}
use mini2_anu_asim.Shards.Deal.Steps.{name}
use mini2_anu_asim.Shards.Deal.Shares.{encoded}
use mini2_anu_asim.Shards.Deal.Results.{records}
use mini2_anu_asim.Shards.Deal.Partition.{Once, here, there}
use mini2_anu_asim.Node.Payload.{Files, base_of}
use mini2_anu_asim.Node.Servicer.{Segment, replied}
use mini2_anu_asim.Node.Cluster.{Tree, node, nil, cons, call}
use mini2_anu_asim.Node.Cluster.Gathered.{is_up}
use mini2_anu_asim.Leader.Handler.{body}
use mini2_anu_asim.System.{members}
use mini2_anu_asim.System.Complete.{
  Stored, Loaded, shard, Loaded-flatten-shard, query_returns_records,
}
use mini2_anu_asim.Tests.Samples.{counting, request}
use mini2_anu_asim.Tests.Serving.{query_by}

abbrev pub rows : List Row
rows = replicate 10 request

abbrev written : ℕ → Option (List ℕ)
written j = get (name j) (main ascii counting (pos 0) "out" rows).1.files

-- The first number below `n` whose file has this path.
abbrev file_below : ℕ → String → Option (List ℕ)
file_below zero path = none
file_below (suc j) path =
    if str_eq (shard_path "out" (name j)) path then written j else file_below j path

abbrev pub disk : Files
disk = file_below 9

packed : (part : List ℕ) × (row_to_record ascii counting request ≡ ok part)
unfolding row_to_record parse_key parse_year strptime strip ascii_lower ascii_space ascii_digit
    parse_zip search_from digits_at code parse_float int_of_text pack_fields pack_record pack_args
    pack_one pack_signed32 pack_unsigned
packed = (_, refl)

length-encoded-replicate :
    (n : ℕ) {part : List ℕ}
    → row_to_record ascii counting request ≡ ok part
    → length (encoded ascii counting (replicate n request)) ≡ n
unfolding encoded
length-encoded-replicate zero h = refl
length-encoded-replicate (suc n) h = rw (h, encoded) (ap suc (length-encoded-replicate n h))

pub ten : length (records ascii counting (pos 0) "out" rows) ≡ 10
ten = length-encoded-replicate 10 packed.1

pub nine_files : Stored ascii counting (pos 0) "out" rows disk
unfolding join_path
nine_files zero h = refl
nine_files (suc zero) h = refl
nine_files (suc (suc zero)) h = refl
nine_files (suc (suc (suc zero))) h = refl
nine_files (suc (suc (suc (suc zero)))) h = refl
nine_files (suc (suc (suc (suc (suc zero))))) h = refl
nine_files (suc (suc (suc (suc (suc (suc zero)))))) h = refl
nine_files (suc (suc (suc (suc (suc (suc (suc zero))))))) h = refl
nine_files (suc (suc (suc (suc (suc (suc (suc (suc zero)))))))) h = refl
nine_files (suc (suc (suc (suc (suc (suc (suc (suc (suc j))))))))) h = absurd (omega arith)

abbrev below : ℕ → List ℕ
below zero = []
below (suc n) = n ∷ below n

below-All : (n m : ℕ) → n ≤ m → All (λ j. j ≢ m) (below n)
below-All zero m h = tt
below-All (suc n) m h = (λ e. omega arith, below-All n m (omega arith))

below-Once : (n k : ℕ) → k < n → Once k (below n)
below-Once zero k h = absurd (omega arith)
below-Once (suc n) k h = elim (Bool-cases (k == n)) [
  | inl e ↦
      let same : k ≡ n = ground arith in
      subst (λ j. Once k (j ∷ below n)) same (here (below-All n k (omega arith)))
  | inr e ↦ there (ground arith) (below-Once n k (ground arith))
]

abbrev pub part : ℕ → List ℕ
part j = flatten (shard ascii counting (pos 0) "out" rows disk j)

abbrev pub leaf : ℕ → Tree
leaf j = node (name j) (part j) nil

-- I above H and G, and G above the others.
abbrev pub tree : Tree
tree = node "I" (part 8) (
    cons (leaf 7) (
      cons
        (node "G" (part 6) (
          cons (leaf 5)
            (cons (leaf 4) (cons (leaf 3) (cons (leaf 2) (cons (leaf 1) (cons (leaf 0) nil)))))))
        nil))

abbrev out : String
out = "out"

named : out ≢ ""
named h = let same = (eq_iff out "").1 h in cc

pub many : 9 ≤ length (records ascii counting (pos 0) "out" rows)
many = omega (arith, ten)

small : (n : ℕ) → n ≤ 9 → All (λ j. j < 9) (below n)
small zero h = tt
small (suc n) h = (h, small n (omega arith))

started : (j : ℕ) → j < 9 → Loaded ascii counting (pos 0) "out" rows disk (name j, part j)
unfolding base_of
started zero h =
    Loaded-flatten-shard ascii counting (pos 0) "out" rows disk 0 (pos 0) h named many nine_files
      refl
started (suc zero) h =
    Loaded-flatten-shard ascii counting (pos 0) "out" rows disk 1 (pos 10) h named many nine_files
      refl
started (suc (suc zero)) h =
    Loaded-flatten-shard ascii counting (pos 0) "out" rows disk 2 (pos 20) h named many nine_files
      refl
started (suc (suc (suc zero))) h =
    Loaded-flatten-shard ascii counting (pos 0) "out" rows disk 3 (pos 30) h named many nine_files
      refl
started (suc (suc (suc (suc zero)))) h =
    Loaded-flatten-shard ascii counting (pos 0) "out" rows disk 4 (pos 40) h named many nine_files
      refl
started (suc (suc (suc (suc (suc zero))))) h =
    Loaded-flatten-shard ascii counting (pos 0) "out" rows disk 5 (pos 50) h named many nine_files
      refl
started (suc (suc (suc (suc (suc (suc zero)))))) h =
    Loaded-flatten-shard ascii counting (pos 0) "out" rows disk 6 (pos 60) h named many nine_files
      refl
started (suc (suc (suc (suc (suc (suc (suc zero))))))) h =
    Loaded-flatten-shard ascii counting (pos 0) "out" rows disk 7 (pos 70) h named many nine_files
      refl
started (suc (suc (suc (suc (suc (suc (suc (suc zero)))))))) h =
    Loaded-flatten-shard ascii counting (pos 0) "out" rows disk 8 (pos 80) h named many nine_files
      refl
started (suc (suc (suc (suc (suc (suc (suc (suc (suc j))))))))) h = absurd (omega arith)

loaded :
    (n : ℕ)
    → n ≤ 9
    → All (Loaded ascii counting (pos 0) "out" rows disk) (map (λ j. (name j, part j)) (below n))
loaded zero h = tt
loaded (suc n) h = (started n h, loaded n (omega arith))

all-Loaded : All (Loaded ascii counting (pos 0) "out" rows disk) (members tree)
unfolding members
all-Loaded = loaded 9 (omega arith)

in_order : map (λ n. n.0) (members tree) ≡ map name (below 9)
unfolding members
in_order = refl

all_up : is_up tree ≡ true
unfolding is_up
all_up = refl

query_returns_records_example :
    (segments : List Segment) × (call tree (query_by "cli") ≡ replied segments)
    × Perm
        (read_records (body segments))
        (map read_record (records ascii counting (pos 0) "out" rows))
query_returns_records_example =
    query_returns_records ascii counting (pos 0) "out" rows disk tree (query_by "cli") (below 9)
      named many nine_files (small 9 (omega arith)) (below-Once 9) in_order all-Loaded all_up
