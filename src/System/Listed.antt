-- ===== src/System/Listed.antt =====
-- The whole system from a configuration with an explicit tree, as in config/nodes.yaml.
use mini2_anu_asim.Prelude.{
  ℕ, zero, suc, ◌+◌, ◌*◌, ◌≤◌, ◌<◌, ◌≡◌, refl, sym, ap, subst, ◌∙◌, String, Bool, Option, some,
  List, [], ◌∷◌, map, ok, length, flatten, All, arith,
}
use mini2_anu_asim.Prelude.Dict.{Dict, get}
use mini2_anu_asim.Prelude.Int.{ℤ}
use mini2_anu_asim.Prelude.Text.{Unicode}
use mini2_anu_asim.Prelude.Floats.{Floats}
use mini2_anu_asim.Struct.Layout.{read_record}
use mini2_anu_asim.Shards.Fields.{Row}
use mini2_anu_asim.Shards.Deal.Steps.{name}
use mini2_anu_asim.Shards.Deal.Results.{records}
use mini2_anu_asim.Node.Payload.{Files}
use mini2_anu_asim.Node.Config.{Config, or_default}
use mini2_anu_asim.Node.Tree.{listed, build_children}
use mini2_anu_asim.Node.Cluster.{Tree, Forest, node}
use mini2_anu_asim.Node.Deploy.{IsDeployed}
use mini2_anu_asim.Node.Deploy.Explicit.{
  IsLevelled, forest_by, tree_of, IsDeployed-tree_of, IsDeployed-unique, tree_id-tree_of, listing,
  listing_below,
}
use mini2_anu_asim.Team.Payload.{IsPlain}
use mini2_anu_asim.Leader.Pages.{chunk_bytes, max_chunk_bytes, int_bound}
use mini2_anu_asim.Client.{Round, Request, summary, download}
use mini2_anu_asim.Client.Pages.{page_count}
use mini2_anu_asim.Client.Complete.{Harmless}
use mini2_anu_asim.System.{members, members_of}
use mini2_anu_asim.System.Started.{Started}
use mini2_anu_asim.System.Paging.{starts_over, download_reads_shards}
use mini2_anu_asim.System.Complete.{Stored, shard}
use mini2_anu_asim.System.Deployed.Nodes.{
  names, map-append-names, AreDeployed-are_up, members-AreDeployed, All-payloads,
}

module _ (pay : String → List ℕ) (children : String → List String) where
  names-forest_by :
      (f : String → Tree) (list : String → List String) (cs : List String)
      → ((c : String) → map (λ n. n.0) (members (f c)) ≡ list c)
      → names (forest_by pay children f cs) ≡ flatten (map list cs)
  unfolding members
  names-forest_by f list [] h = refl
  names-forest_by f list (c ∷ cs) h =
      map-append-names (members (f c)) (members_of (forest_by pay children f cs))
      ∙ rw (h c, names-forest_by f list cs h) refl

  names-tree_of :
      (n : ℕ) (id : String)
      → map (λ m. m.0) (members (tree_of pay children n id)) ≡ listing children n id
  unfolding members
  names-tree_of zero id = refl
  names-tree_of (suc n) id =
      ap (λ r. id ∷ r)
        (names-forest_by (tree_of pay children n) (listing children n) (children id)
          (names-tree_of n))

listing_cons :
    (children : String → List String) (n : ℕ) (id : String)
    → listing children n id ≡ id ∷ listing_below children n id
listing_cons children zero id = refl
listing_cons children (suc n) id = refl

All-map-name {ℓ} :
    (P : String → Type ℓ) (js : List ℕ) → All (λ j. P (name j)) js → All P (map name js)
All-map-name P [] h = tt
All-map-name P (j ∷ js) h = (h.0, All-map-name P js h.1)

build_children-listed :
    (cfg : Config) (explicit : Dict (Option (List String)))
    → cfg.children ≡ some explicit
    → build_children cfg ≡ ok (listed explicit)
unfolding build_children
build_children-listed cfg explicit e = rw e refl

-- The children of a node in an explicit tree.
abbrev pub children_in : Dict (Option (List String)) → String → List String
children_in explicit id = or_default [] (get id (listed explicit))

module _ (pay : String → List ℕ) (explicit : Dict (Option (List String))) (leader : String)
    (level : String → ℕ) (below : Forest) (levelled : IsLevelled (children_in explicit) level)
    (deployed : IsDeployed pay (children_in explicit) (node leader (pay leader) below)) where
  names-listing : names below ≡ listing_below (children_in explicit) (level leader) leader
  unfolding members
  names-listing =
      let whole = tree_of pay (children_in explicit) (level leader) leader in
      let same : node leader (pay leader) below ≡ whole =
        IsDeployed-unique pay (children_in explicit) (node leader (pay leader) below) whole deployed
          (IsDeployed-tree_of pay (children_in explicit) level (level leader) leader levelled
            (omega arith))
          (sym (tree_id-tree_of pay (children_in explicit) (level leader) leader)) in
      let all : leader ∷ names below
          ≡ leader ∷ listing_below (children_in explicit) (level leader) leader =
        ap (λ t. map (λ n. n.0) (members t)) same
        ∙ names-tree_of pay (children_in explicit) (level leader) leader
        ∙ listing_cons (children_in explicit) (level leader) leader in
      cc

module _ (u : Unicode) (fl : Floats) (limit : ℤ) (dir : String) (rows : List Row) (fs : Files)
    (cpp : String → Bool) (fallback : String → List ℕ) (pay : String → List ℕ) where
  abbrev gathered : List ℕ → List (List ℕ)
  gathered js = flatten (map (shard u fl limit dir rows fs) js)

  -- Let a configuration have an explicit tree without a cycle, in which the nodes below the leader,
  -- each before those below it, are named like these shards, and let the nodes run along it. Let
  -- `main` have written at least nine records into a directory whose path is not empty and does not
  -- end with a slash, and let each of the nodes start with `MINI2_SHARD_DIR` set to it, with the C++
  -- program or the Python program; and let the shards be smaller by a megabyte than an `int` can
  -- count. Then `_build_children` returns this tree, and a client that downloads from its leader,
  -- which has just started, ends with its summary, whatever other clients ask in between at offsets
  -- in range, and whenever the reaper runs. It has read the records of these shards in this order, in
  -- as many calls as pages are needed; so many rounds are enough.
  pub download_reads_listed :
      (cfg : Config) (explicit : Dict (Option (List String))) (leader : String) (level : String → ℕ)
      (below : Forest) (js : List ℕ) (req : Request) (rounds : ℕ → Round) (fuel : ℕ)
      → cfg.children ≡ some explicit
      → IsLevelled (children_in explicit) level
      → listing_below (children_in explicit) (level leader) leader ≡ map name js
      → IsDeployed pay (children_in explicit) (node leader (pay leader) below)
      → All (λ j. j < 9) js
      → All (λ j. Started u fl limit dir rows fs cpp fallback (name j, pay (name j))) js
      → ((k : ℕ) → All Harmless (rounds k).events)
      → IsPlain dir
      → 9 ≤ length (records u fl limit dir rows)
      → Stored u fl limit dir rows fs
      → 20 * length (gathered js) + max_chunk_bytes < int_bound
      → page_count (chunk_bytes req.chunk_size) (20 * length (gathered js)) ≤ fuel
      → (build_children cfg ≡ ok (listed explicit))
        × (download fuel req rounds (starts_over cpp below)
            ≡ summary (record {
              records = map read_record (gathered js);
              call_count = page_count (chunk_bytes req.chunk_size) (20 * length (gathered js));
            }))
  unfolding IsDeployed
  download_reads_listed cfg explicit leader level below js req rounds fuel own levelled order
        deployed small started harmless plain many stored fits enough =
      let ids = names-listing pay explicit leader level below levelled deployed ∙ order in
      let starting =
        All-payloads pay (children_in explicit) (Started u fl limit dir rows fs cpp fallback)
          (members_of below) (members-AreDeployed pay (children_in explicit) below deployed.2)
          (subst (All (λ v. Started u fl limit dir rows fs cpp fallback (v, pay v))) (sym ids) (
            All-map-name (λ v. Started u fl limit dir rows fs cpp fallback (v, pay v)) js
              started)) in
      (
        build_children-listed cfg explicit own,
        download_reads_shards u fl limit dir rows fs cpp fallback below js req rounds fuel harmless
            plain many stored small ids starting
            (AreDeployed-are_up pay (children_in explicit) below deployed.2) fits enough,
      )
