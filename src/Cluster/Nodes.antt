-- ===== src/Cluster/Nodes.antt =====
-- `nodes_` of `ClusterConfig` and `getNode`, and `_node_endpoint` of the Python node on the same
-- configuration.
use mini2_anu_asim.Prelude.{
  ℕ, ◌^◌, ◌≡◌, refl, sym, ap, ◌∙◌, String, str_eq, eq_iff, true, false, Option, none, some, List,
  [], ◌∷◌, ◌++◌, ltb, arith, if◌then◌else◌, Exc, Result, ok, err, value_error, key_error, or_raise,
  ◌>>=◌, >>=-eq-ok, All, Bool-cases, inl, inr,
}
use mini2_anu_asim.Prelude.Dict.{Dict, get, set, get-set, contains}
use mini2_anu_asim.Node.Config.{Config, Host, Endpoint, or_default, port_of, node_endpoint}
use mini2_anu_asim.Node.Config.Laws.{runs, Elsewhere, node_endpoint_first}

-- `ports[nid].as<int>()`.
unfoldable pub int_port : String → Option (Dict ℕ) → Result ℕ
int_port nid ports = do
  table ← or_raise value_error ports
  port ← or_raise value_error (get nid table)
  if ltb port (2 ^ 31) then ok port else err value_error

-- The loop over the processes of a host.
unfoldable pub add_procs :
    String → Option (Dict ℕ) → List String → Dict Endpoint → Result (Dict Endpoint)
unfolding int_port
add_procs addr ports [] nodes = ok nodes
add_procs addr ports (nid ∷ procs) nodes = do
  port ← int_port nid ports
  add_procs addr ports procs (set nid (record { addr = addr; port = port }) nodes)

-- The loop over the hosts.
unfoldable pub add_hosts : Option (Dict ℕ) → Dict Host → Dict Endpoint → Result (Dict Endpoint)
unfolding add_procs
add_hosts ports [] nodes = ok nodes
add_hosts ports ((_, host) ∷ hosts) nodes = do
  addr ← or_raise value_error host.addr
  more ← add_procs addr ports (or_default [] host.procs) nodes
  add_hosts ports hosts more

-- What `load` leaves in `nodes_`.
abbrev pub load_nodes : Config → Result (Dict Endpoint)
load_nodes cfg = add_hosts cfg.ports (or_default [] cfg.hosts) []

-- `getNode(id)`; for its `std::runtime_error` stands `key_error`.
abbrev pub get_node : String → Dict Endpoint → Result Endpoint
get_node id nodes = or_raise key_error (get id nodes)

or_raise-ok {ℓ} :
    {R : Type ℓ} (exc : Exc) (found : Option R) (r : R) → or_raise exc found ≡ ok r → found ≡ some r
or_raise-ok exc none r e = absurd cc
or_raise-ok exc (some s) r e = let same : s ≡ r = cc in ap some same

module _ (p : String) (ports : Option (Dict ℕ)) where
  add_procs-other :
      (addr : String) (procs : List String) (nodes more : Dict Endpoint)
      → contains p procs ≡ false
      → add_procs addr ports procs nodes ≡ ok more
      → get p more ≡ get p nodes
  unfolding add_procs contains
  add_procs-other addr [] nodes more h e = let same : nodes ≡ more = cc in ap (get p) (sym same)
  add_procs-other addr (nid ∷ procs) nodes more h e =
      let (port, _, rest) = >>=-eq-ok (int_port nid ports) _ e in
      add_procs-other addr procs (set nid (record { addr = addr; port = port }) nodes) more
        (ground arith) rest
      ∙ get-set nid p (record { addr = addr; port = port }) nodes
      ∙ let apart : str_eq nid p ≡ false = ground arith in rw apart refl

  -- A node among these processes gets the address of their host and its own port.
  add_procs-own :
      (addr : String) (procs : List String) (nodes more : Dict Endpoint)
      → contains p procs ≡ true
      → add_procs addr ports procs nodes ≡ ok more
      → (port : ℕ) × (int_port p ports ≡ ok port)
        × (get p more ≡ some (record { addr = addr; port = port }))
  unfolding add_procs contains
  add_procs-own addr [] nodes more h e = absurd cc
  add_procs-own addr (nid ∷ procs) nodes more h e =
      let (port, found, rest) = >>=-eq-ok (int_port nid ports) _ e in
      let put = set nid (record { addr = addr; port = port }) nodes in
      elim (Bool-cases (contains p procs)) [
        | inl again ↦ add_procs-own addr procs put more again rest
        | inr last ↦
            let found_it : str_eq nid p ≡ true = ground arith in
            (
              port,
              rw (← (eq_iff nid p).0 found_it) found,
              add_procs-other addr procs put more last rest
                  ∙ get-set nid p (record { addr = addr; port = port }) nodes
                  ∙ rw found_it refl,
            )
      ]

  add_hosts-other :
      (hosts : Dict Host) (nodes more : Dict Endpoint)
      → All (Elsewhere p) hosts
      → add_hosts ports hosts nodes ≡ ok more
      → get p more ≡ get p nodes
  unfolding add_hosts
  add_hosts-other [] nodes more h e = let same : nodes ≡ more = cc in ap (get p) (sym same)
  add_hosts-other ((_, host) ∷ hosts) nodes more h e =
      let (addr, _, filled) = >>=-eq-ok (or_raise value_error host.addr) _ e in
      let (next, added, rest) =
        >>=-eq-ok (add_procs addr ports (or_default [] host.procs) nodes) _ filled in
      add_hosts-other hosts next more h.1 rest
      ∙ add_procs-other addr (or_default [] host.procs) nodes next h.0 added

  -- Only one of the hosts runs the node.
  add_hosts-own :
      (pre post : Dict Host) (name : String) (host : Host) (nodes more : Dict Endpoint)
      → All (Elsewhere p) pre
      → All (Elsewhere p) post
      → runs p host ≡ true
      → add_hosts ports (pre ++ (name, host) ∷ post) nodes ≡ ok more
      → (addr : String) × (port : ℕ) × (host.addr ≡ some addr)
        × (int_port p ports ≡ ok port)
        × (get p more ≡ some (record { addr = addr; port = port }))
  unfolding add_hosts
  add_hosts-own [] post name host nodes more before after h e =
      let (addr, at, filled) = >>=-eq-ok (or_raise value_error host.addr) _ e in
      let (next, added, rest) =
        >>=-eq-ok (add_procs addr ports (or_default [] host.procs) nodes) _ filled in
      let (port, found, own) = add_procs-own addr (or_default [] host.procs) nodes next h added in
      (
        addr,
        port,
        or_raise-ok value_error host.addr addr at,
        found,
        add_hosts-other post next more after rest ∙ own,
      )
  add_hosts-own ((_, other) ∷ pre) post name host nodes more before after h e =
      let (addr, _, filled) = >>=-eq-ok (or_raise value_error other.addr) _ e in
      let (next, _, rest) =
        >>=-eq-ok (add_procs addr ports (or_default [] other.procs) nodes) _ filled in
      add_hosts-own pre post name host next more before.1 after h rest

port_of-int_port :
    (p : String) (cfg : Config) (port : ℕ)
    → int_port p cfg.ports ≡ ok port
    → port_of p cfg ≡ ok port
unfolding int_port port_of
port_of-int_port p cfg port e =
    let (table, given, rest) = >>=-eq-ok (or_raise value_error cfg.ports) _ e in
    let (n, found, small) = >>=-eq-ok (or_raise value_error (get p table)) _ rest in
    rw
      (or_raise-ok value_error cfg.ports table given, or_raise-ok value_error (get p table) n found)
      (ground arith)

-- Where `load` of the C++ program succeeds and just one host runs a node, `getNode` and
-- `_node_endpoint` of the Python program lead to the same address and port.
pub endpoints_agree :
    (p : String) (cfg : Config) (pre post : Dict Host) (name : String) (host : Host)
    (nodes : Dict Endpoint)
    → cfg.hosts ≡ some (pre ++ (name, host) ∷ post)
    → All (Elsewhere p) pre
    → All (Elsewhere p) post
    → runs p host ≡ true
    → load_nodes cfg ≡ ok nodes
    → get_node p nodes ≡ node_endpoint p cfg
endpoints_agree p cfg pre post name host nodes hosts before after h e =
    let loaded : add_hosts cfg.ports (pre ++ (name, host) ∷ post) [] ≡ ok nodes = rw hosts at e in
    let (addr, port, at, found, own) =
      add_hosts-own p cfg.ports pre post name host [] nodes before after h loaded in
    ap (or_raise key_error) own
    ∙ sym (
        node_endpoint_first p cfg pre post name addr host port hosts before h at
          (port_of-int_port p cfg port found))
