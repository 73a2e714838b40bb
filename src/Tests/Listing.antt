-- ===== src/Tests/Listing.antt =====
-- The explicit tree of config/nodes.yaml, and a client that downloads from its leader.
use mini2_anu_asim.Prelude.{
  ℕ, ◌*◌, ◌≡◌, refl, String, str_eq, List, [], map, ok, if◌then◌else◌, arith, length, All,
}
use mini2_anu_asim.Prelude.Dict.{get}
use mini2_anu_asim.Prelude.Int.{pos}
use mini2_anu_asim.Prelude.Text.{ascii}
use mini2_anu_asim.Struct.Layout.{read_record}
use mini2_anu_asim.Shards.Deal.Steps.{name}
use mini2_anu_asim.Node.Tree.{listed, build_children}
use mini2_anu_asim.Node.Cluster.{Forest, node}
use mini2_anu_asim.Node.Deploy.{IsDeployed}
use mini2_anu_asim.Node.Deploy.Explicit.{
  IsLevelled, IsLevelled-entries, listing_below, forest_by, tree_of, IsDeployed-tree_of,
}
use mini2_anu_asim.Leader.Pages.{chunk_bytes}
use mini2_anu_asim.Client.{summary, download}
use mini2_anu_asim.Client.Pages.{page_count}
use mini2_anu_asim.System.Paging.{starts_over}
use mini2_anu_asim.System.Started.{Started}
use mini2_anu_asim.System.Listed.{children_in, download_reads_listed}
use mini2_anu_asim.Tests.Teams.{out-IsPlain}
use mini2_anu_asim.Tests.Samples.{counting, explicit, cluster}
use mini2_anu_asim.Tests.Querying.{rows, disk, many, nine_files, part}
use mini2_anu_asim.Tests.Paging.{rounds, asks, harmless}
use mini2_anu_asim.Tests.Downloading.{
  in_cpp, no_samples, order, served_shards, below_nine, shards, starts, eight, eight_pages,
}

abbrev level : String → ℕ
level id = if str_eq id "A" then 3 else if str_eq id "B" then 2 else if str_eq id "E" then 1 else 0

levelled : IsLevelled (children_in explicit) level
levelled = IsLevelled-entries level (listed explicit) (
  (omega arith, (omega arith, (omega arith, (omega arith, tt)))),
  ((omega arith, (omega arith, (omega arith, tt))), ((omega arith, tt), tt)),
)

-- Each node keeps the shard of its name.
abbrev keep : String → List ℕ
keep id =
    if str_eq id "B"
    then part 1
    else if str_eq id "C"
    then part 2
    else if str_eq id "D"
    then part 3
    else if str_eq id "E"
    then part 4
    else if str_eq id "F"
    then part 5
    else if str_eq id "G"
    then part 6
    else if str_eq id "H"
    then part 7
    else if str_eq id "I"
    then part 8
    else []

in_table : listing_below (children_in explicit) 3 "A" ≡ map name order
unfolding get
in_table = refl

abbrev below_a : Forest
below_a =
    forest_by keep (children_in explicit) (tree_of keep (children_in explicit) 2)
      (children_in explicit "A")

deployed : IsDeployed keep (children_in explicit) (node "A" (keep "A") below_a)
deployed = IsDeployed-tree_of keep (children_in explicit) level 3 "A" levelled (omega arith)

kept :
    All
      (λ j.
        Started ascii counting (pos 0) "out" rows disk in_cpp no_samples (name j, keep (name j)))
      order
kept = starts order (below_nine order served_shards)

download_reads_listed_example :
    (build_children cluster ≡ ok (listed explicit))
    × (download 8 (asks (pos 25)) rounds (starts_over in_cpp below_a)
        ≡ summary (record {
          records = map read_record (shards order);
          call_count = page_count (chunk_bytes (pos 25)) (20 * length (shards order));
        }))
download_reads_listed_example =
    download_reads_listed ascii counting (pos 0) "out" rows disk in_cpp no_samples keep cluster
      explicit "A" level below_a order (asks (pos 25)) rounds 8 refl levelled in_table deployed
      (below_nine order served_shards) kept harmless out-IsPlain many nine_files
      (omega (arith, eight)) (omega (arith, eight_pages))
