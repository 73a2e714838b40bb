-- ===== src/Node/Config/Laws.antt =====
-- `_node_endpoint` on every branch.
use mini2_anu_asim.Prelude.{
  ℕ, ◌≡◌, refl, ◌∙◌, String, Bool, true, false, some, [], ◌∷◌, ◌++◌, ok, All,
}
use mini2_anu_asim.Prelude.Dict.{Dict, contains}
use mini2_anu_asim.Node.Config.{
  Config, Host, or_default, port_of, host_endpoint, endpoint_in, node_endpoint,
}

module _ (node : String) where
  -- Whether a host runs the node.
  abbrev pub runs : Host → Bool
  runs host = contains node (or_default [] host.procs)

  abbrev pub Elsewhere : String × Host → Type 0
  Elsewhere entry = runs entry.1 ≡ false

  endpoint_in_first :
      (cfg : Config) (pre post : Dict Host) (name : String) (host : Host)
      → All Elsewhere pre
      → runs host ≡ true
      → endpoint_in node cfg (pre ++ (name, host) ∷ post) ≡ host_endpoint node cfg host
  unfolding endpoint_in
  endpoint_in_first cfg [] post name host h e = rw (e, endpoint_in) refl
  endpoint_in_first cfg ((k, other) ∷ pre) post name host h e =
      rw (h.0, endpoint_in) (endpoint_in_first cfg pre post name host h.1 e)

  endpoint_in_local :
      (cfg : Config) (hosts : Dict Host) (port : ℕ)
      → All Elsewhere hosts
      → port_of node cfg ≡ ok port
      → endpoint_in node cfg hosts ≡ ok (record { addr = "127.0.0.1"; port = port })
  unfolding endpoint_in
  endpoint_in_local cfg [] port h e = rw (e, endpoint_in) refl
  endpoint_in_local cfg ((k, other) ∷ hosts) port h e =
      rw (h.0, endpoint_in) (endpoint_in_local cfg hosts port h.1 e)

  -- Of the hosts in their order, the first that runs the node gives the address, whatever later hosts
  -- run it too; and the port is the node's own.
  pub node_endpoint_first :
      (cfg : Config) (pre post : Dict Host) (name addr : String) (host : Host) (port : ℕ)
      → cfg.hosts ≡ some (pre ++ (name, host) ∷ post)
      → All Elsewhere pre
      → runs host ≡ true
      → host.addr ≡ some addr
      → port_of node cfg ≡ ok port
      → node_endpoint node cfg ≡ ok (record { addr = addr; port = port })
  unfolding node_endpoint host_endpoint
  node_endpoint_first cfg pre post name addr host port hosts h e ea ep =
      rw (hosts, node_endpoint)
        (endpoint_in_first cfg pre post name host h e ∙ rw (ea, ep, host_endpoint) refl)

  -- A node that no host runs is looked for on the local machine, at its own port.
  pub node_endpoint_local :
      (cfg : Config) (port : ℕ)
      → All Elsewhere (or_default [] cfg.hosts)
      → port_of node cfg ≡ ok port
      → node_endpoint node cfg ≡ ok (record { addr = "127.0.0.1"; port = port })
  unfolding node_endpoint
  node_endpoint_local cfg port h e = endpoint_in_local cfg (or_default [] cfg.hosts) port h e
