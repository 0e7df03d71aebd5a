-- ===== src/Mesh/Reports.antt =====
-- Neighbour lists, positions, map reports, acknowledgements and traceroute requests
-- (pkg/mesh/outgoing_messages.go).
pub mod Frame
pub mod Laws
use matrix_meshtastic.Prelude.{
  ℕ, ◌+◌, ◌/◌, ◌%◌, ◌^◌, Bool, true, false, not, ◌&&◌, ◌||◌, List, [], ◌∷◌, Option, none, some,
  Bytes, Error, no_location, nil_channel, length, take, ltb, nat_beq, is_some, if◌then◌else◌,
}
use matrix_meshtastic.Prelude.Int.{ℤ, pos, int_beq}
use matrix_meshtastic.External.{
  PortNum, position_app, map_report_app, traceroute_app, neighborinfo_app, routing_app, client_mute,
  client_base, Neighbor, NeighborInfo, routing_none, got_nak, RoutingError, Message,
  position_message, map_report_message, neighbor_info_message, route_discovery_message,
  routing_message, Libraries,
}
use matrix_meshtastic.MeshId.Ids.{NodeId, broadcast_id, broadcast_id_no_lora}
use matrix_meshtastic.MeshId.Channel.{ChannelDef}
use matrix_meshtastic.Mesh.Events.{Location}
use matrix_meshtastic.Mesh.World.{second, Action, ◌>>=◌, return, the_client, read_clock}
use matrix_meshtastic.Mesh.Send.{
  EncryptionType, no_encryption, psk_encryption, PacketInfo, send_proto_message,
}
use matrix_meshtastic.Mesh.Precision.{get_precision_bits}

abbrev max_neighbor_len : ℕ
max_neighbor_len = 10

-- The neighbours that may be told to others: not the sender, and no unset or broadcast ID.
pub kept_neighbors : NodeId → List NodeId → List Neighbor
kept_neighbors from [] = []
kept_neighbors from (id ∷ ids) =
    let rest = kept_neighbors from ids in
    if not (nat_beq id from) && ltb 1 id then record { node_id = id; snr = pos 0 } ∷ rest else rest

pub build_neighbor_info : NodeId → List NodeId → ℕ → NeighborInfo
unfolding kept_neighbors
build_neighbor_info from neighbor_ids broadcast_interval =
    let neighbors = kept_neighbors from neighbor_ids in
    record {
      node_id = from;
      neighbors =
          if ltb max_neighbor_len (length neighbors)
          then take max_neighbor_len neighbors
          else neighbors;
      last_sent_by_id = from;
      node_broadcast_interval_secs = broadcast_interval;
    }

-- A packet without the fields that most messages leave unset.
plain_info : PortNum → EncryptionType → NodeId → NodeId → ℕ → PacketInfo
plain_info port encryption from to request_id = record {
  port_num = port;
  encryption = encryption;
  from = from;
  to = to;
  request_id = request_id;
  reply_id = 0;
  want_response = false;
  emoji = false;
}

module _ (lib : Libraries) where
  pub send_neighbor_info_response :
      NodeId
      → NodeId
      → List NodeId
      → ℕ
      → Option ChannelDef
      → EncryptionType
      → ℕ
      → Action (Option Error)
  unfolding build_neighbor_info plain_info
  send_neighbor_info_response from to ids interval channel encryption request_id = do
    r ←
        send_proto_message lib channel
          (neighbor_info_message (build_neighbor_info from ids interval))
          (plain_info neighborinfo_app encryption from to request_id)
    return r.1

  unfoldable pub send_neighbor_info : NodeId → List NodeId → ℕ → Action (Option Error)
  unfolding send_neighbor_info_response
  send_neighbor_info from ids interval = do
    c ← the_client
    send_neighbor_info_response from broadcast_id_no_lora ids interval c.primary_channel
        psk_encryption 0

  -- `timestamp` is in nanoseconds.
  unfoldable pub send_position : NodeId → NodeId → Location → ℕ → Action (ℕ × Option Error)
  unfolding plain_info
  send_position from to location timestamp = do
    c ← the_client
    now ← read_clock
    send_proto_message lib c.primary_channel
        (position_message (record {
          latitude_i = some location.latitude;
          longitude_i = some location.longitude;
          altitude = none;
          precision_bits = get_precision_bits location.uncertainty;
          time = now / second % 2 ^ 32;
          timestamp = timestamp / second % 2 ^ 32;
          ground_speed = none;
          ground_track = none;
        }))
        (plain_info position_app psk_encryption from to 0)

  map_report_of : NodeId → Bytes → Bytes → Bytes → Location → ℕ → NodeId → Message
  map_report_of bridge channel_name long_name short_name location num_nodes from =
      map_report_message (record {
        long_name = long_name;
        short_name = short_name;
        role = if nat_beq from bridge then client_base else client_mute;
        firmware_version = [];
        has_default_channel = is_some (lib.modem_preset channel_name);
        modem_preset = lib.modem_preset channel_name;
        latitude_i = location.latitude;
        longitude_i = location.longitude;
        altitude = elim location.altitude [ none ↦ pos 0 | some a ↦ a ];
        position_precision = get_precision_bits location.uncertainty;
        num_online_local_nodes = num_nodes;
      })

  report_on :
      Option ChannelDef → NodeId → Bytes → Bytes → Location → ℕ → NodeId → Action (ℕ × Option Error)
  unfolding map_report_of plain_info
  report_on none bridge long_name short_name location num_nodes from = return (0, some nil_channel)
  report_on (some channel) bridge long_name short_name location num_nodes from =
      send_proto_message lib (some channel)
        (map_report_of bridge channel.name long_name short_name location num_nodes from)
        (plain_info map_report_app no_encryption from broadcast_id 0)

  unfoldable pub send_map_report : NodeId → Bytes → Bytes → Location → ℕ → Action (ℕ × Option Error)
  unfolding report_on
  send_map_report from long_name short_name location num_nodes = do
    c ← the_client
    if int_beq location.latitude (pos 0) || int_beq location.longitude (pos 0)
        then return (0, some no_location)
        else report_on c.primary_channel c.node_id long_name short_name location num_nodes from

  send_routing : RoutingError → NodeId → NodeId → ℕ → Action (ℕ × Option Error)
  unfolding plain_info
  send_routing reason from to packet_id = do
    c ← the_client
    send_proto_message lib c.primary_channel (routing_message reason)
        (plain_info routing_app psk_encryption from to packet_id)

  pub send_ack : NodeId → NodeId → ℕ → Action (ℕ × Option Error)
  unfolding send_routing
  send_ack from to packet_id = send_routing routing_none from to packet_id

  -- A refusal always comes from the bridge's own node.
  unfoldable pub send_nack : NodeId → NodeId → ℕ → Action (ℕ × Option Error)
  unfolding send_routing
  send_nack from to packet_id = do c ← the_client; send_routing got_nak c.node_id to packet_id

  -- On behalf of another node the bridge is the first hop of the route.
  unfoldable pub send_traceroute : NodeId → NodeId → Option ChannelDef → Action (ℕ × Option Error)
  send_traceroute from to channel = do
    c ← the_client
    let on_behalf = not (nat_beq from c.node_id)
    send_proto_message lib channel
        (route_discovery_message (record {
          route = if on_behalf then c.node_id ∷ [] else [];
          snr_towards = if on_behalf then pos 0 ∷ [] else [];
          route_back = [];
          snr_back = [];
        }))
        (record {
          port_num = traceroute_app;
          encryption = psk_encryption;
          from = from;
          to = to;
          request_id = 0;
          reply_id = 0;
          want_response = true;
          emoji = false;
        })
