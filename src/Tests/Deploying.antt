-- ===== src/Tests/Deploying.antt =====
-- The nodes of an overlay start along the derived table, and a client downloads from their leader.
use mathlib.Core.List.{Perm}
use native.Mathlib.Nat.{ℕ_set}
use mathlib.Core.Logic.{∥∥₁_elim}
use mini2_anu_asim.Prelude.{
  some, none, ℕ, ◌*◌, ◌≤◌, ◌<◌, ◌≡◌, refl, sym, subst, String, str_eq, eq_iff, true, Bool-cases,
  inl, inr, List, [], ◌∷◌, map, ok, ◌↔◌, ◌⊎◌, if◌then◌else◌, arith, ltb, length, All,
}
use mini2_anu_asim.Prelude.Items.{occurrences}
use mini2_anu_asim.Prelude.Dict.{get, set, contains}
use mini2_anu_asim.Prelude.Int.{pos}
use mini2_anu_asim.Prelude.Text.{ascii}
use mini2_anu_asim.Struct.Layout.{Record, read_record}
use mini2_anu_asim.Node.Config.{Config, or_default}
use mini2_anu_asim.Cluster.{find_root, load_tree, get_children}
use mini2_anu_asim.Tests.Trees.{doubling, is_power, not_empty}
use mini2_anu_asim.Node.Tree.{Graph, add_edges, derive_tree, build_children}
use mini2_anu_asim.Node.Tree.Reach.{Reach, here, step, Edge}
use mini2_anu_asim.Node.Cluster.{Forest, node}
use mini2_anu_asim.Node.Deploy.{IsDeployed, times}
use mini2_anu_asim.Node.Deploy.Derived.{derive_tree_starts}
use mini2_anu_asim.Leader.Pages.{chunk_bytes, requested}
use mini2_anu_asim.Client.{summary, download}
use mini2_anu_asim.Client.Pages.{page_count}
use mini2_anu_asim.System.Paging.{starts_over}
use mini2_anu_asim.System.Deployed.{Joined, download_reads_cluster}
use mini2_anu_asim.System.Started.{Started, Started-shard}
use mini2_anu_asim.Shards.Deal.Steps.{name}
use mini2_anu_asim.Tests.Teams.{out-IsPlain}
use mini2_anu_asim.Tests.Samples.{counting, overlay}
use mini2_anu_asim.Tests.Querying.{rows, disk, many, nine_files, part}
use mini2_anu_asim.Tests.Paging.{rounds, asks, harmless}
use mini2_anu_asim.Tests.Downloading.{in_cpp, no_samples, shards, length-shards}

-- A chain: A leads B, and B leads C. D and E are apart.
abbrev chain : Config
chain = record overlay {
  overlay = some (("A" ∷ "B" ∷ []) ∷ ("B" ∷ "C" ∷ []) ∷ ("D" ∷ "E" ∷ []) ∷ []);
}

-- The edges of its overlay.
abbrev joints : Graph
joints =
    ("A", "B" ∷ [])
    ∷ ("B", "A" ∷ "C" ∷ [])
    ∷ ("C", "B" ∷ [])
    ∷ ("D", "E" ∷ [])
    ∷ ("E", "D" ∷ [])
    ∷ []

joints_added : add_edges (or_default [] chain.overlay) [] ≡ ok joints
unfolding add_edges set get contains
joints_added = refl

leads : find_root (or_default [] chain.roles) ≡ ok (some "A")
unfolding find_root get
leads = refl

-- What `load` leaves of the chain, with a vector that doubles its room.
abbrev loaded : Graph
loaded = ("A", "B" ∷ []) ∷ ("B", "C" ∷ []) ∷ []

loads : load_tree doubling none chain ≡ ok loaded
unfolding load_tree set get is_power
loads = refl

abbrev pair : List ℕ
pair = 1 ∷ 2 ∷ []

abbrev OneOf : String → Type 0
OneOf v = (v ≡ "A") ⊎ ((v ≡ "B") ⊎ (v ≡ "C"))

abbrev count : String → ℕ
count v = occurrences v ("A" ∷ map name pair)

OneOf-counted : (v : String) → OneOf v → count v ≡ 1
OneOf-counted v (inl e) = subst (λ w. count w ≡ 1) (sym e) refl
OneOf-counted v (inr (inl e)) = subst (λ w. count w ≡ 1) (sym e) refl
OneOf-counted v (inr (inr e)) = subst (λ w. count w ≡ 1) (sym e) refl

same_string : (x v : String) → str_eq x v ≡ true → v ≡ x
same_string x v h = sym ((eq_iff x v).0 h)

one_of : (v : String) → 0 < count v → OneOf v
one_of v h = elim (Bool-cases (str_eq "A" v)) [
  | inl e ↦ inl (same_string "A" v e)
  | inr a ↦ elim (Bool-cases (str_eq "B" v)) [
    | inl e ↦ inr (inl (same_string "B" v e))
    | inr b ↦ inr (inr (same_string "C" v (ground arith)))
  ]
]

joined_to : (u v : String) → OneOf u → Edge joints u v → OneOf v
unfolding contains get
joined_to u v (inl e) h = one_of v (let edge = subst (λ w. Edge joints w v) e h in ground arith)
joined_to u v (inr (inl e)) h =
    one_of v (let edge = subst (λ w. Edge joints w v) e h in ground arith)
joined_to u v (inr (inr e)) h =
    one_of v (let edge = subst (λ w. Edge joints w v) e h in ground arith)

reach-OneOf : (v : String) → Reach joints "A" v → OneOf v
reach-OneOf v here = inl refl
reach-OneOf _ (step {u} {v} r e) = joined_to u v (reach-OneOf u r) e

to_b : Reach joints "A" "B"
unfolding contains get
to_b = step here refl

to_c : Reach joints "A" "C"
unfolding contains get
to_c = step to_b refl

OneOf-reached : (v : String) → OneOf v → Reach joints "A" v
OneOf-reached v (inl e) = subst (Reach joints "A") (sym e) here
OneOf-reached v (inr (inl e)) = subst (Reach joints "A") (sym e) to_b
OneOf-reached v (inr (inr e)) = subst (Reach joints "A") (sym e) to_c

counted_once : (v : String) → count v ≤ 1
counted_once v = elim (Bool-cases (ltb 0 (count v))) [
  | inl e ↦ omega (arith, OneOf-counted v (one_of v (ground arith)))
  | inr e ↦ ground arith
]

joined : Joined doubling none chain joints loaded "A" pair
joined = record {
  overlay = joints_added;
  found = leads;
  named = not_empty;
  loads = loads;
  derived = refl;
  once = counted_once;
  reached = λ v. (
    λ h. ∣ OneOf-reached v (one_of v (omega (arith, h))) ∣₁,
    λ w. ∥∥₁_elim w (ℕ_set _ _) (λ r. OneOf-counted v (reach-OneOf v r)),
  );
}

abbrev serve : String → List ℕ
serve id = if str_eq id "B" then part 1 else part 2

starts :
    (j : ℕ)
    → j < 9
    → Started ascii counting (pos 0) "out" rows disk in_cpp no_samples (name j, part j)
starts j h =
    Started-shard ascii counting (pos 0) "out" rows disk in_cpp no_samples out-IsPlain many
      nine_files j h

started :
    All
      (λ j.
        Started ascii counting (pos 0) "out" rows disk in_cpp no_samples (name j, serve (name j)))
      pair
started = (starts 1 (omega arith), (starts 2 (omega arith), tt))

small : All (λ j. (1 ≤ j) × (j < 9)) pair
small = ((omega arith, omega arith), ((omega arith, omega arith), tt))

two : length (shards pair) ≡ 2
two = length-shards pair small

two_pages : page_count (chunk_bytes (pos 25)) (20 * length (shards pair)) ≡ 2
unfolding page_count chunk_bytes requested
two_pages = rw two refl

derive_tree_starts_example :
    (table : Graph) × (below : Forest) × (derive_tree joints "A" ≡ ok table)
    × IsDeployed serve (λ q. or_default [] (get q table)) (node "A" (serve "A") below)
    × ((v : String) → times v (node "A" (serve "A") below) ≤ 1)
    × ((v : String) → (times v (node "A" (serve "A") below) ≡ 1) ↔ ∥ Reach joints "A" v ∥₁)
derive_tree_starts_example = derive_tree_starts serve joints "A"

download_reads_cluster_example :
    (table : Graph) × (below : Forest) × (read : List Record) × (build_children chain ≡ ok table)
    × ((p : String) → get_children p loaded ≡ get_children p table)
    × IsDeployed serve (λ q. or_default [] (get q table)) (node "A" (serve "A") below)
    × (download 2 (asks (pos 25)) rounds (starts_over in_cpp below)
        ≡ summary (record {
          records = read;
          call_count = page_count (chunk_bytes (pos 25)) (20 * length (shards pair));
        }))
    × Perm read (map read_record (shards pair))
download_reads_cluster_example =
    download_reads_cluster doubling none chain joints loaded "A" pair ascii counting (pos 0) "out"
      rows disk in_cpp no_samples serve (asks (pos 25)) rounds 2 joined
      (small.0.1, (small.1.0.1, tt)) started harmless out-IsPlain many nine_files
      (omega (arith, two)) (omega (arith, two_pages))
