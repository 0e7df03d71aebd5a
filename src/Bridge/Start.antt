-- ===== src/Bridge/Start.antt =====
-- `Start` of pkg/connector/connector.go, once the tables are upgraded: the client of the mesh is made,
-- given its handlers and connected.
pub mod Ready
use matrix_meshtastic.Prelude.{
  ℕ, Bool, true, List, [], ◌∷◌, ◌++◌, Option, none, some, Bytes, if◌then◌else◌,
}
use matrix_meshtastic.MeshId.Ids.{NodeId}
use matrix_meshtastic.Mesh.World.{MeshConnector, MeshtasticClient, World}
use matrix_meshtastic.Mesh.Connection.{
  new_meshtastic_client, set_hop_limit, set_primary_channel, connect,
}
use matrix_meshtastic.Bridge.Hub.{
  Config, Outside, Hub, Task, ◌>>=◌, ◌>>◌, skip, panic, mesh, the_config,
}
use matrix_meshtastic.Bridge.Managed.{get_base_node_id}

-- The functions that the client is given and the connectors that it makes.
-- The functions read the connector's state when they are called.
pub record Handlers : Type 0 where
  pub managed : NodeId → Bool
  pub public_key : NodeId → Option Bytes
  pub private_key : NodeId → Option Bytes
  pub neighbors : NodeId → List NodeId
  pub udp_handler : MeshConnector
  pub mqtt_handler : MeshConnector

-- `rateNeighborInfo` in seconds: 12 hours and 31 seconds.
abbrev rate_neighbor_info : ℕ
rate_neighbor_info = 43231

abbrev pub handlers_of : Config → Handlers → List MeshConnector
handlers_of c k =
    (if c.udp then k.udp_handler ∷ [] else [])
    ++ (if c.mqtt_enabled then k.mqtt_handler ∷ [] else [])

abbrev pub change_client : (MeshtasticClient → MeshtasticClient) → Task (Unit {0})
change_client f = mesh λ w. (tt, record w { client = f w.client })

abbrev pub with_handlers : Config → Handlers → MeshtasticClient → MeshtasticClient
with_handlers c k client = record client {
  mesh_connectors = handlers_of c k;
  managed_node_func = k.managed;
  has_connect_handler = true;
  has_disconnect_handler = true;
}

abbrev pub with_providers : Handlers → MeshtasticClient → MeshtasticClient
with_providers k client = record client {
  priv_key_request_handler = some k.private_key;
  pub_key_request_handler = some k.public_key;
  neighbor_provider = some k.neighbors;
  neighbor_broadcast_interval = some rate_neighbor_info;
}

-- A key that cannot be read is a panic.
abbrev pub in_world : Option World → Task (Unit {0})
in_world none h = (none, h)
in_world (some w) h = (some tt, record h { world = w })

module _ (o : Outside) where
  abbrev pub make_client : NodeId → Config → Handlers → Task (Unit {0})
  make_client base c k = do
    mesh λ w. (tt, record w { client = new_meshtastic_client base w.now k.managed })
    mesh (set_hop_limit c.hop_limit)
    change_client (with_handlers c k)

  -- `address`: that of the primary channel's definition.
  abbrev pub join_primary : ℕ → Config → Task (Unit {0})
  join_primary address c h =
      in_world (set_primary_channel o.lib address c.primary_name c.primary_key h.world) h

  -- The errors of the hop limit and of connecting are dropped.
  abbrev pub set_up : ℕ → Handlers → NodeId → Config → Task (Unit {0})
  set_up address k base c = do
    make_client base c k
    join_primary address c
    change_client (with_providers k)
    mesh connect
    skip

  unfoldable pub start : ℕ → Handlers → Task (Unit {0})
  unfolding get_base_node_id
  start address k = do base ← get_base_node_id o; c ← the_config; set_up address k base c
