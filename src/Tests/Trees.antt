-- ===== src/Tests/Trees.antt =====
-- `_build_children` and `_node_endpoint` on a small configuration.
use mini2_anu_asim.Prelude.{
  ℕ, zero, suc, ◌^◌, ◌==◌, ◌||◌, Bool, str_eq, ◌⊎◌, err, dangling_reference, length, ◌≤◌, ◌≡◌, ◌≢◌,
  refl, String, eq_iff, some, none, false, [], ◌∷◌, ok, true,
}
use mini2_anu_asim.Prelude.Dict.{Dict, get, set, contains}
use mini2_anu_asim.Node.Config.{node_endpoint, Host, Endpoint, or_default}
use mini2_anu_asim.Node.Tree.{Graph, build_children}
use mini2_anu_asim.Node.Tree.Overlay.{two_ended, Derived, build_children_derives}
use mini2_anu_asim.Cluster.{find_root, load_tree, build_tree, get_children}
use mini2_anu_asim.Cluster.Dangling.{branching_root_dangles}
use mini2_anu_asim.Cluster.Agrees.{trees_agree}
use mini2_anu_asim.Cluster.Nodes.{
  int_port, add_procs, add_hosts, load_nodes, get_node, endpoints_agree,
}
use mini2_anu_asim.Node.Config.Laws.{runs}
use mini2_anu_asim.Tests.Samples.{overlay, cluster}

overlay_tree : build_children overlay ≡ ok (("A", "B" ∷ "C" ∷ []) ∷ ("B", []) ∷ ("C", []) ∷ [])
unfolding build_children get set contains
overlay_tree = refl

build_children_derives_example : Derived overlay
build_children_derives_example = build_children_derives overlay refl

-- The C++ nodes read the same configuration.
two_ends : two_ended (or_default [] overlay.overlay) ≡ true
unfolding two_ended
two_ends = refl

root_a : find_root (or_default [] overlay.roles) ≡ ok (some "A")
unfolding find_root
root_a = refl

abbrev pub leader_name : String
leader_name = "A"

pub not_empty : leader_name ≢ ""
not_empty h = let same = (eq_iff leader_name "").1 h in cc

-- A vector that doubles its room when it is full.
unfoldable pub is_power : ℕ → ℕ → Bool
is_power zero n = n == 1
is_power (suc k) n = n == 2 ^ suc k || is_power k n

abbrev pub doubling : ℕ → Bool
doubling n = n == 0 || is_power n n

abbrev derived : Graph
derived = ("A", "B" ∷ "C" ∷ []) ∷ ("B", []) ∷ ("C", []) ∷ []

trees_agree_example :
    ((c : Graph) × (load_tree doubling none overlay ≡ ok c)
      × ((p : String) → get_children p c ≡ get_children p derived))
    ⊎ ((load_tree doubling none overlay ≡ err dangling_reference)
        × (overlay.children ≡ none)
        × (p : String) × (2 ≤ length (get_children p derived)))
trees_agree_example =
    trees_agree doubling none overlay "A" derived root_a not_empty two_ends tt overlay_tree

-- It is the second: A has two children.
overlay_dangles : load_tree doubling none overlay ≡ err dangling_reference
unfolding load_tree set get is_power
overlay_dangles = refl

-- So would config/nodes.yaml without its explicit tree.
cluster_dangles :
    load_tree doubling none (record cluster { children = none }) ≡ err dangling_reference
unfolding load_tree set get is_power
cluster_dangles = refl

abbrev both_ways : Graph
both_ways = ("A", "B" ∷ "C" ∷ []) ∷ ("B", "A" ∷ "C" ∷ []) ∷ ("C", "A" ∷ "B" ∷ []) ∷ []

other_names : (a b : String) → str_eq a b ≡ false → a ≢ b
other_names a b h same = let e = (eq_iff a b).1 same in cc

branching_root_dangles_example : build_tree doubling both_ways "A" ≡ err dangling_reference
unfolding is_power get
branching_root_dangles_example =
    branching_root_dangles doubling both_ways "A" "B" "C" [] refl not_empty refl
      (other_names "A" "B" refl) (other_names "A" "C" refl) (other_names "B" "C" refl)

-- The tree of config/nodes.yaml.
cluster_tree :
    load_tree doubling none cluster
    ≡ ok (("A", "B" ∷ "H" ∷ "G" ∷ "I" ∷ []) ∷ ("B", "C" ∷ "D" ∷ "E" ∷ []) ∷ ("E", "F" ∷ []) ∷ [])
unfolding load_tree set get
cluster_tree = refl

-- Host 1 of config/nodes.yaml, and what `load` leaves for its nodes.
abbrev first_host : Host
first_host = record {
  addr = some "192.168.1.139";
  procs = some ("A" ∷ "B" ∷ "C" ∷ "D" ∷ "E" ∷ "F" ∷ []);
}

abbrev second_host : Host
second_host = record { addr = some "192.168.1.118"; procs = some ("G" ∷ "H" ∷ "I" ∷ []) }

loaded_nodes : (nodes : Dict Endpoint) × (load_nodes cluster ≡ ok nodes)
unfolding add_hosts add_procs int_port get set
loaded_nodes = (_, refl)

runs_e : runs "E" first_host ≡ true
unfolding contains
runs_e = refl

apart_e : runs "E" second_host ≡ false
unfolding contains
apart_e = refl

endpoints_agree_example : get_node "E" loaded_nodes.0 ≡ node_endpoint "E" cluster
endpoints_agree_example =
    endpoints_agree "E" cluster [] (("host2", second_host) ∷ []) "host1" first_host loaded_nodes.0
      refl tt (apart_e, tt) runs_e loaded_nodes.1
