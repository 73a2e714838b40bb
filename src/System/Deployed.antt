-- ===== src/System/Deployed.antt =====
-- The whole system from a configuration without an explicit tree: the nodes that the overlay joins to
-- the leader start along the derived table, and a client gets the records of all their shards.
pub mod Nodes
pub mod Numbers
use mathlib.Core.List.{Perm}
use mathlib.Core.List.Perm
use mini2_anu_asim.Prelude.{
  ◌≢◌, Option, some, ℕ, zero, suc, ◌+◌, ◌*◌, ◌/◌, ◌≤◌, ◌<◌, ◌≡◌, refl, sym, ap, subst, ◌∙◌, String,
  str_eq, eq_iff, Bool, true, none, List, [], ◌∷◌, ◌++◌, map, arith, ok, Result, All-append, length,
  flatten, All, if◌then◌else◌, ◌↔◌, inl, inr, Bool-cases,
}
use mini2_anu_asim.Prelude.Dict.{get}
use mini2_anu_asim.Prelude.Int.{ℤ, pos, negsuc}
use mini2_anu_asim.Prelude.Text.{Unicode}
use mini2_anu_asim.Prelude.Floats.{Floats}
use mini2_anu_asim.Prelude.Items.{
  occurrences, occurrences-append, All-occurring, spread, spread-Perm,
}
use mini2_anu_asim.Struct.Layout.{Record, read_record}
use mini2_anu_asim.Shards.Fields.{Row}
use mini2_anu_asim.Shards.Deal.Steps.{name}
use mini2_anu_asim.Shards.Deal.Results.{records}
use mini2_anu_asim.Node.Payload.{Files, base_of}
use mini2_anu_asim.Node.Config.{Config, or_default}
use mini2_anu_asim.Node.Tree.{Graph, add_edges, derive_tree, build_children}
use mini2_anu_asim.Node.Tree.Reach.{Reach}
use mini2_anu_asim.Node.Cluster.{Tree, Forest, node, unreachable, nil, cons}
use mini2_anu_asim.Node.Cluster.Gathered.{is_up, are_up}
use mini2_anu_asim.Node.Deploy.{IsDeployed, AreDeployed, times, times_in}
use mini2_anu_asim.Node.Deploy.Derived.{derive_tree_starts}
use mini2_anu_asim.Team.Payload.{IsPlain}
use mini2_anu_asim.Leader.Pages.{chunk_bytes, max_chunk_bytes, int_bound}
use mini2_anu_asim.Client.{Round, Request, summary, download}
use mini2_anu_asim.Client.Pages.{page_count}
use mini2_anu_asim.Client.Complete.{Harmless}
use mini2_anu_asim.Cluster.{find_root, load_tree, get_children}
use mini2_anu_asim.Cluster.Agrees.{
  trees_agree, add_edges-two_ended, find_root-find_leader, derived_from,
}
use mini2_anu_asim.System.{members, members_of}
use mini2_anu_asim.System.Started.{Started, base_of-name}
use mini2_anu_asim.System.Paging.{starts_over, download_reads_shards}
use mini2_anu_asim.System.Complete.{Stored, shard}
use mini2_anu_asim.System.Deployed.Nodes.{
  names, occurrences-names, AreDeployed-are_up, members-AreDeployed, All-payloads,
}
use mini2_anu_asim.System.Deployed.Numbers.{
  number, named, map-named, All-numbers, map-number, equal_flags, map-map,
}

module _ (moves : ℕ → Bool) (first : Option String) (cfg : Config) (adj loaded : Graph)
    (leader : String) (js : List ℕ) where
  -- The overlay joins exactly these shards' nodes to the leader, and none is listed twice; and `load` of
  -- the C++ programs returns.
  pub record Joined : Type 0 where
    pub overlay : add_edges (or_default [] cfg.overlay) [] ≡ ok adj
    pub found : find_root (or_default [] cfg.roles) ≡ ok (some leader)
    pub named : leader ≢ ""
    pub loads : load_tree moves first cfg ≡ ok loaded
    pub derived : cfg.children ≡ none
    pub once : (v : String) → occurrences v (leader ∷ map name js) ≤ 1
    pub reached :
        (v : String) → (occurrences v (leader ∷ map name js) ≡ 1) ↔ ∥ Reach adj leader v ∥₁

  -- The C++ programs take the same children.
  loaded_alike :
      (table : Graph)
      → Joined
      → build_children cfg ≡ ok table
      → (p : String) → get_children p loaded ≡ get_children p table
  loaded_alike table joined h p =
      elim (trees_agree moves first cfg leader table joined.found joined.named
        (add_edges-two_ended (or_default [] cfg.overlay) [] adj joined.overlay)
        (rw joined.derived tt) h) [
          | inl (c, built, agree) ↦
              let same : c ≡ loaded = let e = joined.loads in cc in
              subst (λ c. get_children p c ≡ get_children p table) same (agree p)
          | inr (failed, _, _, _) ↦ let e = joined.loads in absurd (cc)
        ]

  -- The children's trees below the leader.
  joined_starts :
      (pay : String → List ℕ)
      → Joined
      → (table : Graph) × (below : Forest) × (build_children cfg ≡ ok table)
        × IsDeployed pay (λ q. or_default [] (get q table)) (node leader (pay leader) below)
        × ((v : String) → occurrences v (names below) ≡ occurrences v (map name js))
  unfolding times
  joined_starts pay joined =
      let (table, below, derived, deployed, once, reached) = derive_tree_starts pay adj leader in
      (
        table,
        below,
        derived_from cfg adj leader joined.derived joined.overlay
              (find_root-find_leader (or_default [] cfg.roles) leader joined.found)
            ∙ derived,
        deployed,
        λ v.
            let same =
              equal_flags (times v (node leader (pay leader) below))
                (occurrences v (leader ∷ map name js)) (once v) (joined.once v)
                (
                  λ e. (joined.reached v).1 ((reached v).0 e),
                  λ e. (reached v).1 ((joined.reached v).0 e),
                ) in
            omega (arith, same, occurrences-names v below),
      )

  module _ (u : Unicode) (fl : Floats) (limit : ℤ) (dir : String) (rows : List Row) (fs : Files)
      (cpp : String → Bool) (fallback : String → List ℕ) (pay : String → List ℕ) where
    abbrev pub gathered : List (List ℕ)
    gathered = flatten (map (shard u fl limit dir rows fs) js)

    abbrev serves : String → List (List ℕ)
    serves v = shard u fl limit dir rows fs (number v)

    -- What holds of the name of every shard among these holds of every node below the leader.
    All-joined {ℓ} :
        (P : String → Type ℓ) (below : Forest)
        → ((v : String) → occurrences v (names below) ≡ occurrences v (map name js))
        → ((v : String) → 0 < occurrences v (map name js) → P v)
        → All P (names below)
    All-joined P below same h = All-occurring P (names below) (λ v k. h v (rw (same v) at k))

    -- The shards of the nodes below the leader are these shards, in some order.
    gathered-Perm :
        (below : Forest)
        → All (λ j. j < 9) js
        → ((v : String) → occurrences v (names below) ≡ occurrences v (map name js))
        → Perm (flatten (map (shard u fl limit dir rows fs) (map number (names below)))) gathered
          × (length (flatten (map (shard u fl limit dir rows fs) (map number (names below))))
              ≡ length gathered)
    gathered-Perm below small same =
        let (moved, size) = spread-Perm serves (names below) (map name js) same in
        let back : map serves (map name js) ≡ map (shard u fl limit dir rows fs) js =
          sym (map-map (shard u fl limit dir rows fs) (map name js))
          ∙ ap (map (shard u fl limit dir rows fs)) (map-number js small) in
        rw (map-map (shard u fl limit dir rows fs) (names below), ← back) (moved, size)

    -- Let a configuration have no explicit tree, let the overlay join exactly these shards' nodes to
    -- the leader, and let none be listed twice. Let `load` of the C++ programs return, which reads no
    -- dangling reference then. Let `main` have written at least nine records into a
    -- directory whose path is not empty and does not end with a slash, and let each of these nodes
    -- start with `MINI2_SHARD_DIR` set to it, with the C++ program or the Python program; and let the
    -- shards be smaller by a megabyte than an `int` can count. Then the C++ programs take the
    -- children of the derived table, and the table starts a finite tree below the leader, every node with
    -- the children that the table lists. A client that
    -- downloads from the leader of this tree, which has just started, ends with its summary, whatever
    -- other clients ask in between at offsets in range, and whenever the reaper runs. It has read
    -- every record of these shards exactly once, in some order, in as many calls as pages are needed;
    -- so many rounds are enough.
    pub download_reads_cluster :
        (req : Request) (rounds : ℕ → Round) (fuel : ℕ)
        → Joined
        → All (λ j. j < 9) js
        → All (λ j. Started u fl limit dir rows fs cpp fallback (name j, pay (name j))) js
        → ((k : ℕ) → All Harmless (rounds k).events)
        → IsPlain dir
        → 9 ≤ length (records u fl limit dir rows)
        → Stored u fl limit dir rows fs
        → 20 * length gathered + max_chunk_bytes < int_bound
        → page_count (chunk_bytes req.chunk_size) (20 * length gathered) ≤ fuel
        → (table : Graph) × (below : Forest) × (read : List Record) × (build_children cfg
            ≡ ok table)
          × ((p : String) → get_children p loaded ≡ get_children p table)
          × IsDeployed pay (λ q. or_default [] (get q table)) (node leader (pay leader) below)
          × (download fuel req rounds (starts_over cpp below)
              ≡ summary (record {
                records = read;
                call_count = page_count (chunk_bytes req.chunk_size) (20 * length gathered);
              }))
          × Perm read (map read_record gathered)
    unfolding IsDeployed
    download_reads_cluster req rounds fuel joined small started harmless plain many stored fits
          enough =
        let (table, below, derived, deployed, same) = joined_starts pay joined in
        let found = λ (v : String) (k : 0 < occurrences v (map name js)).
          named (λ j. Started u fl limit dir rows fs cpp fallback (name j, pay (name j))) v js small
            started k in
        let js' = map number (names below) in
        let (moved, size) = gathered-Perm below small same in
        let children = λ (q : String). or_default [] (get q table) in
        let starting =
          All-payloads pay children (Started u fl limit dir rows fs cpp fallback) (members_of below)
            (members-AreDeployed pay children below deployed.2)
            (All-joined (λ v. Started u fl limit dir rows fs cpp fallback (v, pay v)) below same
              (λ v k.
                let (_, is, starts) = found v k in
                subst (λ i. Started u fl limit dir rows fs cpp fallback (i, pay i)) is starts)) in
        let named_so =
          map-named (names below)
            (All-joined (λ v. name (number v) ≡ v) below same (λ v k. (found v k).1)) in
        (
          table,
          below,
          map read_record (flatten (map (shard u fl limit dir rows fs) js')),
          derived,
          loaded_alike table joined derived,
          deployed,
          subst
              (λ n.
                download fuel req rounds (starts_over cpp below)
                ≡ summary (record {
                  records = map read_record (flatten (map (shard u fl limit dir rows fs) js'));
                  call_count = page_count (chunk_bytes req.chunk_size) (20 * n);
                }))
              size
              (download_reads_shards u fl limit dir rows fs cpp fallback below js' req rounds fuel
                harmless plain many stored
                (All-numbers (λ n. n < 9) (names below)
                  (All-joined (λ v. number v < 9) below same (λ v k. (found v k).0)))
                (sym named_so) starting (AreDeployed-are_up pay children below deployed.2)
                (omega (arith, size, fits)) (rw (size) enough)),
          Perm.map read_record moved,
        )
