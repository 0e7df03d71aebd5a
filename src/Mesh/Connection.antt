-- ===== src/Mesh/Connection.antt =====
-- The client's connectors, channels and settings (pkg/mesh/mesh_client.go).
pub mod Laws
pub mod Joining
pub mod Fresh
use matrix_meshtastic.Prelude.{
  ℕ, suc, ◌*◌, Bool, true, false, not, ◌&&◌, List, [], ◌∷◌, ◌++◌, map, Option, none, some, Bytes,
  Error, no_primary_channel, hop_limit_too_large, Result, ok, err, length, leb, nat_beq, bytes_beq,
  if◌then◌else◌,
}
use matrix_meshtastic.External.{Libraries}
use matrix_meshtastic.MeshId.Ids.{NodeId, max_hops}
use matrix_meshtastic.MeshId.Channel.{ChannelDef, get_key_string, new_channel_def}
use matrix_meshtastic.Mesh.Events.{
  ListenerEvent, event_started, event_restarted, event_connection_lost, MeshChannelJoined,
  channel_joined,
}
use matrix_meshtastic.Mesh.World.{
  minute, MeshConnector, ChannelRef, MeshtasticClient, Effect, listens, started, stopped, notified,
  on_connect, on_disconnect, World, Action, ◌>>=◌, ◌>>◌, return, skip, emit, emit_all, the_client,
  put_client,
}
use matrix_meshtastic.Mesh.Send.{join_errors}
use matrix_meshtastic.Mesh.Requests.{new_request_throttle}

abbrev pub default_hop_limit : ℕ
default_hop_limit = 3

-- A client before its handlers are set, but for the test of managed nodes, which has no default.
abbrev pub new_meshtastic_client : NodeId → ℕ → (NodeId → Bool) → MeshtasticClient
new_meshtastic_client node_id now managed = record {
  start_time = now;
  node_id = node_id;
  channels = [];
  current_packet_id = 0;
  primary_channel = none;
  hop_limit = default_hop_limit;
  previously_connected = false;
  managed_node_func = managed;
  has_connect_handler = false;
  has_disconnect_handler = false;
  pub_key_request_handler = none;
  priv_key_request_handler = none;
  packet_cache = λ key at. false;
  node_info_send_cache = [];
  mesh_connectors = [];
  request_throttle = new_request_throttle (3 * minute);
  neighbor_provider = none;
  neighbor_broadcast_interval = none;
}

pub start_errors : List MeshConnector → List Error
start_errors [] = []
start_errors (h ∷ hs) =
    let rest = start_errors hs in elim h.start [ none ↦ rest | some e ↦ e ∷ rest ]

-- It fails only if every connector fails to start.
start_all : List MeshConnector → Action (Option Error)
unfolding start_errors
start_all hs = do
  emit_all (map (λ (h : MeshConnector). started h.ident) hs)
  let errs = start_errors hs
  return (if nat_beq (length errs) (length hs) then join_errors errs else none)

connect_with : Option ChannelDef → List MeshConnector → Action (Option Error)
unfolding start_all
connect_with none hs = return (some no_primary_channel)
connect_with (some channel) hs = start_all hs

pub connect : Action (Option Error)
unfolding connect_with
connect = do c ← the_client; connect_with c.primary_channel c.mesh_connectors

unfoldable pub disconnect : Action (Unit {0})
disconnect = do
  c ← the_client
  emit_all (map (λ (h : MeshConnector). stopped h.ident) c.mesh_connectors)

pub any_connected : List MeshConnector → Bool
any_connected [] = false
any_connected (h ∷ hs) = let rest = any_connected hs in if h.connected then true else rest

unfoldable pub is_connected : MeshtasticClient → Bool
unfolding any_connected
is_connected c = any_connected c.mesh_connectors

-- How many connectors other than this one are connected.
unfoldable pub connected_count : ℕ → List MeshConnector → ℕ
connected_count mh [] = 0
connected_count mh (h ∷ hs) =
    let rest = connected_count mh hs in
    if not (nat_beq h.ident mh) && h.connected then suc rest else rest

tell_connect : Bool → Action (Unit {0})
tell_connect again = do
  c ← the_client
  if c.has_connect_handler then emit (on_connect again) else skip

tell_disconnect : Action (Unit {0})
tell_disconnect = do c ← the_client; if c.has_disconnect_handler then emit on_disconnect else skip

first_connection : Action (Unit {0})
unfolding tell_connect
first_connection = do
  c ← the_client
  put_client (record c { previously_connected = true })
  tell_connect false

tell_change : ListenerEvent → Action (Unit {0})
unfolding tell_connect tell_disconnect
tell_change event_connection_lost = tell_disconnect
tell_change event_restarted = tell_connect true
tell_change event_started = tell_connect false

pub handle_connector_state_change : MeshConnector → ListenerEvent → Action (Unit {0})
unfolding first_connection connected_count tell_change
handle_connector_state_change mh le = do
  c ← the_client
  if c.previously_connected then skip else first_connection
  if leb (connected_count mh.ident c.mesh_connectors) 0 then tell_change le else skip

-- The first channel of the name is the one that is compared.
unfoldable pub same_name : Bytes → List ChannelRef → Option ChannelRef
same_name name [] = none
same_name name (v ∷ vs) =
    let rest = same_name name vs in if bytes_beq v.channel.name name then some v else rest

append_channel : ChannelRef → Action (Unit {0})
append_channel def = do c ← the_client; put_client (record c { channels = c.channels ++ def ∷ [] })

join_channel : ChannelRef → Option ChannelRef → Action (Unit {0})
unfolding append_channel
join_channel def none = do
  c ← the_client
  emit_all (map (λ (h : MeshConnector). listens h.ident def.channel.name) c.mesh_connectors)
  append_channel def
join_channel def (some v) = if nat_beq v.address def.address then skip else append_channel def

-- It never fails.
pub add_channel_def : ChannelRef → Action (Unit {0})
unfolding same_name join_channel
add_channel_def def = do
  emit (
      notified (
        channel_joined
          (record { channel_id = def.channel.name; channel_key = get_key_string def.channel })))
  c ← the_client
  join_channel def (same_name def.channel.name c.channels)

-- `address` is that of the definition that is made.
add_made : ℕ → Result ChannelDef → Action (Option Error)
unfolding add_channel_def
add_made address (err e) = return (some e)
add_made address (ok channel) = do
  add_channel_def (record { address = address; channel = channel })
  return none

unfoldable pub add_channel : Libraries → ℕ → Bytes → Bytes → Action (Option Error)
unfolding add_made
add_channel lib address name key = add_made address (new_channel_def lib.radio name (some key))

unfoldable pub set_hop_limit : ℕ → Action (Option Error)
set_hop_limit hop_limit = do
  c ← the_client
  if leb max_hops hop_limit
      then return (some hop_limit_too_large)
      else (λ w. (none, record w { client = record c { hop_limit = hop_limit } }))

-- The error of a key that cannot be read is dropped, and the nil definition is dereferenced: none.
set_primary : ℕ → Result ChannelDef → World → Option World
unfolding add_channel_def
set_primary address (err e) w = none
set_primary address (ok channel) w =
    let joined = (add_channel_def (record { address = address; channel = channel }) w).1 in
    some (record joined { client = record joined.client { primary_channel = some channel } })

unfoldable pub set_primary_channel : Libraries → ℕ → Bytes → Bytes → World → Option World
unfolding set_primary
set_primary_channel lib address name key w =
    set_primary address (new_channel_def lib.radio name (some key)) w
