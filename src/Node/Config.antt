-- ===== src/Node/Config.antt =====
-- The configuration that `yaml.safe_load` gives, in the shapes of config/nodes.yaml, and
-- `_node_endpoint`. A key that the file may leave out is an `Option`.
pub mod Laws
use mini2_anu_asim.Prelude.{
  ℕ, String, ◌<>◌, Bool, true, false, Option, none, some, List, [], ◌∷◌, if◌then◌else◌, Result, ok,
  err, key_error, or_raise, ◌>>=◌,
}
use mini2_anu_asim.Prelude.Dict.{Dict, get, contains}

-- An entry of `roles`: a mapping with its `role`, or some other value.
pub data Role : Type 0 where
  mapping : Option String → Role
  other : Role

pub record Host : Type 0 where
  pub addr : Option String
  pub procs : Option (List String)

-- The children of a node may be null.
pub record Config : Type 0 where
  pub children : Option (Dict (Option (List String)))
  pub overlay : Option (List (List String))
  pub roles : Option (Dict Role)
  pub hosts : Option (Dict Host)
  pub ports : Option (Dict ℕ)

-- `d.get(k, default)`.
abbrev pub or_default {ℓ} : {A : Type ℓ} → A → Option A → A
or_default a none = a
or_default _ (some a) = a

-- f"{addr}:{port}" by its parts.
pub record Endpoint : Type 0 where
  pub addr : String
  pub port : ℕ

-- `cfg["ports"][node_id]`.
unfoldable pub port_of : String → Config → Result ℕ
port_of node cfg = do ports ← or_raise key_error cfg.ports; or_raise key_error (get node ports)

-- The endpoint of a node on a host that runs it.
unfoldable pub host_endpoint : String → Config → Host → Result Endpoint
host_endpoint node cfg host = do
  addr ← or_raise key_error host.addr
  port ← port_of node cfg
  ok (record { addr = addr; port = port })

-- The loop over the hosts: the first that runs the node gives its address.
unfoldable pub endpoint_in : String → Config → Dict Host → Result Endpoint
unfolding host_endpoint
endpoint_in node cfg [] = do
  port ← port_of node cfg
  ok (record { addr = "127.0.0.1"; port = port })
endpoint_in node cfg ((_, host) ∷ hosts) =
    let rest = endpoint_in node cfg hosts in
    if contains node (or_default [] host.procs) then host_endpoint node cfg host else rest

-- `_node_endpoint(node_id, cfg)`.
unfoldable pub node_endpoint : String → Config → Result Endpoint
unfolding endpoint_in port_of
node_endpoint node cfg = endpoint_in node cfg (or_default [] cfg.hosts)
