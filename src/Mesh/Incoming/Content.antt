-- ===== src/Mesh/Incoming/Content.antt =====
-- The events that `processMessage` makes (pkg/mesh/incoming_messages.go). Coordinates are in units of
-- 1e-7 degrees, where the program multiplies floats.
use matrix_meshtastic.Prelude.{
  ℕ, ◌*◌, ◌/◌, ◌%◌, ◌^◌, Bool, true, false, not, ◌&&◌, ◌||◌, Option, none, some, ltb, nat_beq,
  if◌then◌else◌,
}
use matrix_meshtastic.Prelude.Int.{ℤ, pos, int_beq}
use matrix_meshtastic.External.{
  Data, RouteDiscovery, Role, client, client_mute, client_base, router, router_late, router_client,
  repeater, tracker, sensor, tak, tak_tracker, client_hidden, lost_and_found, User, Position,
  MapReport, Waypoint,
}
use matrix_meshtastic.MeshId.Ids.{broadcast_id, broadcast_id_no_lora}
use matrix_meshtastic.Mesh.Events.{
  PacketSource, mqtt_source, udp_source, radio_source, NetworkMeshPacket, MeshEvent, Event, plain,
  message, reaction, location, waypoint, node_info, map_report, traceroute,
}
use matrix_meshtastic.Mesh.World.{second}
use matrix_meshtastic.Mesh.Precision.{get_position_precision_in_meters}

abbrev pub is_unmessagable_role : Role → Bool
is_unmessagable_role repeater = true
is_unmessagable_role router = true
is_unmessagable_role router_late = true
is_unmessagable_role sensor = true
is_unmessagable_role tracker = true
is_unmessagable_role tak = true
is_unmessagable_role tak_tracker = true
is_unmessagable_role client = false
is_unmessagable_role client_mute = false
is_unmessagable_role client_base = false
is_unmessagable_role router_client = false
is_unmessagable_role client_hidden = false
is_unmessagable_role lost_and_found = false

pub is_unmessagable : User → Bool
is_unmessagable user = elim user.is_unmessagable [
  | none ↦ is_unmessagable_role user.role
  | some flag ↦ flag
]

abbrev pub is_mqtt : PacketSource → Bool
is_mqtt mqtt_source = true
is_mqtt udp_source = false
is_mqtt radio_source = false

unfoldable pub mesh_event : NetworkMeshPacket → Data → ℕ → MeshEvent
mesh_event packet d now = record {
  channel_name = packet.channel_name;
  channel_key = packet.channel_key;
  from = packet.from;
  to = packet.to;
  via = packet.gateway_node;
  timestamp = if nat_beq packet.rx_time 0 then now / second % 2 ^ 32 else packet.rx_time;
  packet_id = packet.id;
  want_ack = packet.want_ack;
  want_response = d.want_response;
  is_neighbor =
      not (is_mqtt packet.source)
      && nat_beq packet.hop_start packet.hop_limit
      && not packet.via_mqtt;
}

unfoldable pub text_event : MeshEvent → NetworkMeshPacket → Data → Event
text_event env packet d =
    if not (nat_beq d.emoji 0)
    then reaction (record {
      event = env;
      emoji = d.payload;
      is_dm = not (nat_beq packet.to broadcast_id);
      reply_id = d.reply_id;
    })
    else message (record {
      event = env;
      message = d.payload;
      is_dm = not (nat_beq packet.to broadcast_id);
      reply_id = d.reply_id;
    })

unfoldable pub user_event : MeshEvent → User → Event
unfolding is_unmessagable
user_event env user = node_info (record {
  event = env;
  user_id = user.id;
  short_name = user.short_name;
  long_name = user.long_name;
  role = user.role;
  public_key = user.public_key;
  is_licensed = user.is_licensed;
  is_unmessagable = is_unmessagable user;
})

-- Without a latitude and a longitude the event stays plain.
unfoldable pub position_event : MeshEvent → Position → Option ℤ → Option ℤ → Event
position_event env p (some latitude) (some longitude) = location (record {
  event = env;
  location = record {
    latitude = latitude;
    longitude = longitude;
    altitude = p.altitude;
    uncertainty = some (get_position_precision_in_meters p.precision_bits);
  };
  ground_speed = p.ground_speed;
  ground_track = p.ground_track;
})
position_event env p (some latitude) none = plain env
position_event env p none longitude = plain env

unfoldable pub report_event : MeshEvent → MapReport → Event
report_event env r = map_report (record {
  event = env;
  location = record {
    latitude = r.latitude_i;
    longitude = r.longitude_i;
    altitude = if int_beq r.altitude (pos 0) then none else some r.altitude;
    uncertainty = some (get_position_precision_in_meters r.position_precision);
  };
  short_name = r.short_name;
  long_name = r.long_name;
  role = r.role;
  is_unmessagable_role = is_unmessagable_role r.role;
  firmware_version = r.firmware_version;
  online_local_nodes = r.num_online_local_nodes;
})

unfoldable pub route_event : MeshEvent → RouteDiscovery → ℕ → Event
route_event env r request_id = traceroute (record {
  event = env;
  route = r.route;
  snr_towards = r.snr_towards;
  route_back = r.route_back;
  snr_back = r.snr_back;
  request_id = request_id;
})

-- The waypoint's own ID is not passed on.
unfoldable pub waypoint_event : MeshEvent → Waypoint → ℕ → Option ℤ → Option ℤ → Event
waypoint_event env w now (some latitude) (some longitude) = waypoint (record {
  event = env;
  waypoint_id = 0;
  is_delete = ltb (w.expire * second) now;
  name = w.name;
  description = w.description;
  latitude = latitude;
  longitude = longitude;
  icon = w.icon;
  locked_to =
      if nat_beq w.locked_to 0
        || nat_beq w.locked_to broadcast_id
        || nat_beq w.locked_to broadcast_id_no_lora
      then none
      else some w.locked_to;
  expires = some w.expire;
})
waypoint_event env w now (some latitude) none = plain env
waypoint_event env w now none longitude = plain env
