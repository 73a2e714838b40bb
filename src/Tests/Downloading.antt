-- ===== src/Tests/Downloading.antt =====
-- A client that downloads from the cluster of config/nodes.yaml.
use mini2_anu_asim.Prelude.{
  Bool, not, str_eq, ℕ, ◌*◌, ◌≤◌, ◌<◌, ◌≡◌, refl, subst, String, true, false, List, [], ◌∷◌, map,
  arith, length, length-append, flatten, ◌⊎◌, All,
}
use mini2_anu_asim.Prelude.Int.{pos}
use mini2_anu_asim.Prelude.Text.{ascii}
use mini2_anu_asim.Struct.Layout.{read_record}
use mini2_anu_asim.Node.Cluster.{Forest, node, unreachable, nil, cons}
use mini2_anu_asim.Node.Cluster.Gathered.{is_up, are_up}
use mini2_anu_asim.Team.Mixed.{stubs_mixed}
use mini2_anu_asim.Leader.Pages.{chunk_bytes, requested}
use mini2_anu_asim.Leader.Handler.{fetched, failed, gather_from_children}
use mini2_anu_asim.Client.{summary, download}
use mini2_anu_asim.Client.Pages.{page_count}
use mini2_anu_asim.System.{members, members_of, served}
use mini2_anu_asim.System.Paging.{starts_over, gather_all_or_nothing, download_reads_shards}
use mini2_anu_asim.Shards.Deal.Steps.{name}
use mini2_anu_asim.Shards.Deal.Shares.{share, length-share}
use mini2_anu_asim.Shards.Deal.Results.{records}
use mini2_anu_asim.System.Started.{Started, Started-shard}
use mini2_anu_asim.Tests.Teams.{out-IsPlain}
use mini2_anu_asim.System.Complete.{shard}
use mini2_anu_asim.Tests.Samples.{counting}
use mini2_anu_asim.Tests.Querying.{rows, disk, many, nine_files, tree, leaf, part, ten}
use mini2_anu_asim.Tests.Paging.{query, rounds, asks, harmless}

-- As in config/nodes.yaml, I runs the Python program.
abbrev pub in_cpp : String → Bool
in_cpp id = not (str_eq id "I")

-- A whole tree, and one that is out of reach.
abbrev half : Forest
half = cons tree (cons (unreachable "X" "down") nil)

gather_all_or_nothing_example :
    ((are_up half ≡ true)
      × (gather_from_children (query (pos 0)) (stubs_mixed in_cpp half)
          ≡ fetched (served (members_of half))))
    ⊎ ((are_up half ≡ false)
        × (message : String) × (gather_from_children (query (pos 0)) (stubs_mixed in_cpp half)
            ≡ failed message))
gather_all_or_nothing_example = gather_all_or_nothing in_cpp half (query (pos 0))

-- The trees below A in config/nodes.yaml, and the shards that their nodes serve. No node serves that
-- of A.
abbrev pub whole : Forest
whole =
    cons
      (node "B" (part 1)
        (cons (leaf 2) (cons (leaf 3) (cons (node "E" (part 4) (cons (leaf 5) nil)) nil))))
      (cons (leaf 7) (cons (leaf 6) (cons (leaf 8) nil)))

abbrev pub order : List ℕ
order = 1 ∷ 2 ∷ 3 ∷ 4 ∷ 5 ∷ 7 ∷ 6 ∷ 8 ∷ []

whole_up : are_up whole ≡ true
unfolding are_up is_up
whole_up = refl

pub in_order : map (λ n. n.0) (members_of whole) ≡ map name order
unfolding members members_of
in_order = refl

pub served_shards : All (λ j. (1 ≤ j) × (j < 9)) order
served_shards = (
  (omega arith, omega arith),
  (
    (omega arith, omega arith),
    (
      (omega arith, omega arith),
      (
        (omega arith, omega arith),
        (
          (omega arith, omega arith),
          (
            (omega arith, omega arith),
            ((omega arith, omega arith), ((omega arith, omega arith), tt)),
          ),
        ),
      ),
    ),
  ),
)

pub below_nine : (js : List ℕ) → All (λ j. (1 ≤ j) × (j < 9)) js → All (λ j. j < 9) js
below_nine [] h = tt
below_nine (j ∷ js) h = (h.0.1, below_nine js h.1)

pub no_samples : String → List ℕ
no_samples id = []

pub starts :
    (js : List ℕ)
    → All (λ j. j < 9) js
    → All
        (Started ascii counting (pos 0) "out" rows disk in_cpp no_samples)
        (map (λ j. (name j, part j)) js)
starts [] h = tt
starts (j ∷ js) h = (
  Started-shard ascii counting (pos 0) "out" rows disk in_cpp no_samples out-IsPlain many nine_files
      j h.0,
  starts js h.1,
)

all-Started :
    All (Started ascii counting (pos 0) "out" rows disk in_cpp no_samples) (members_of whole)
unfolding members members_of
all-Started = starts order (below_nine order served_shards)

abbrev pub shards : List ℕ → List (List ℕ)
shards js = flatten (map (shard ascii counting (pos 0) "out" rows disk) js)

-- Ten rows: one for each of these nodes.
pub length-shards : (js : List ℕ) → All (λ j. (1 ≤ j) × (j < 9)) js → length (shards js) ≡ length js
length-shards [] h = refl
length-shards (j ∷ js) h =
    let all = records ascii counting (pos 0) "out" rows in
    omega (
      arith,
      length-append (share j 0 all) (shards js),
      length-share j 0 all h.0.1,
      h.0.0,
      h.0.1,
      ten,
      length-shards js h.1,
    )

pub eight : length (shards order) ≡ 8
eight = length-shards order served_shards

pub eight_pages : page_count (chunk_bytes (pos 25)) (20 * length (shards order)) ≡ 8
unfolding page_count chunk_bytes requested
eight_pages = rw eight refl

download_reads_shards_example :
    download 8 (asks (pos 25)) rounds (starts_over in_cpp whole)
    ≡ summary (record { records = map read_record (shards order); call_count = 8 })
download_reads_shards_example =
    subst
      (λ n.
        download 8 (asks (pos 25)) rounds (starts_over in_cpp whole)
        ≡ summary (record { records = map read_record (shards order); call_count = n }))
      eight_pages
      (download_reads_shards ascii counting (pos 0) "out" rows disk in_cpp no_samples whole order
        (asks (pos 25)) rounds 8 harmless out-IsPlain many nine_files
        (below_nine order served_shards) in_order all-Started whole_up (omega (arith, eight))
        (omega (arith, eight_pages)))
