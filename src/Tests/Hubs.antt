-- ===== src/Tests/Hubs.antt =====
-- A connector with two known nodes and a simple bridge framework.
use matrix_meshtastic.Prelude.{
  ℕ, true, false, [], ◌∷◌, none, some, Bytes, codes, from_library, ok, err, bytes_beq,
  if◌then◌else◌,
}
use matrix_meshtastic.Prelude.Int.{pos}
use matrix_meshtastic.External.{client}
use matrix_meshtastic.Mesh.Events.{
  MeshEvent, MeshMessageEvent, MeshNodeInfoEvent, MeshWaypointEvent,
}
use matrix_meshtastic.Bridge.Tracker.{new_traceroute_tracker}
use matrix_meshtastic.Bridge.Database.{MeshNodeInfo, Waypoint, new_mesh_node_info}
use matrix_meshtastic.Bridge.Hub.{Ghost, Portal, default_room, Outside, Hub}
use matrix_meshtastic.Tests.Fixture.{bridge_node, the_libraries, the_client_state, the_world}

abbrev pub remote_node : ℕ
remote_node = 0x2000

abbrev pub remote_id : Bytes
remote_id = codes "00002000"

abbrev pub remote_ghost : Ghost
remote_ghost = record { id = remote_id; name = codes "Remote"; name_set = true; user_mxid = none }

abbrev pub the_outside : Outside
the_outside = record {
  lib = the_libraries;
  generate_key_pair = λ n. ok (1 ∷ n ∷ [], 2 ∷ n ∷ []);
  bot_mxid = codes "@bot:h";
  split_portals = false;
  get_existing_ghost_by_id =
      λ calls id. ok (if bytes_beq id remote_id then some remote_ghost else none);
  get_ghost_by_id =
      λ calls id. ok (record { id = id; name = []; name_set = false; user_mxid = none });
  updated_ghost = λ ghost name. record ghost { name = name };
  get_user_logins_in_portal = λ calls key. ok (codes "login" ∷ []);
  get_dm_portals_with = λ calls id. [];
  get_all_portals_with_mxid = λ calls. ok [];
  joined_members = λ calls room. ok (codes "@g:h" ∷ codes "@u:h" ∷ []);
  parse_ghost_mxid = λ mxid. if bytes_beq mxid (codes "@g:h") then some remote_id else none;
  leave_room = λ calls member room. none;
  last_message = λ calls key sender. err (from_library 5);
  last_reaction = λ calls key sender. ok none;
}

abbrev pub remote_row : MeshNodeInfo
remote_row = record new_mesh_node_info {
  node_id = 0x2000;
  user_id = codes "!00002000";
  long_name = codes "Remote";
  short_name = codes "RMT";
  last_seen = some 100;
}

abbrev pub own_row : MeshNodeInfo
own_row = record new_mesh_node_info {
  node_id = 0x3000;
  user_id = codes "!00003000";
  is_managed = true;
}

abbrev pub locked_waypoint : Waypoint
locked_waypoint = record {
  waypoint_id = 9;
  name = codes "Camp";
  icon = 65;
  description = [];
  latitude = pos 1;
  longitude = pos 2;
  locked_to = some 0x3000;
  expires = none;
  updated_by = 0x3000;
  updated_date = some 90;
}

abbrev pub the_hub : Hub
the_hub = record {
  config = record {
    long_name = codes "Bridge";
    short_name = codes "BRDG";
    hop_limit = 3;
    udp = true;
    mqtt_enabled = false;
    primary_name = codes "LongFast";
    primary_key = codes "AQ==";
    inactivity_threshold = 30;
  };
  world = record the_world {
    client = record the_client_state { managed_node_func = λ node. true };
  };
  tables = record {
    nodes = remote_row ∷ own_row ∷ [];
    waypoints = locked_waypoint ∷ [];
    faults = [];
  };
  base_node_id = bridge_node;
  managed_node_cache = [];
  tracker = new_traceroute_tracker;
  calls = [];
  key_draws = 0;
  requested = [];
}

abbrev pub direct_event : MeshEvent
direct_event = record {
  channel_name = codes "LongFast";
  channel_key = none;
  from = 0x2000;
  to = 0x3000;
  via = 0x4000;
  timestamp = 2900;
  packet_id = 5;
  want_ack = false;
  want_response = false;
  is_neighbor = true;
}

abbrev pub direct_message : MeshMessageEvent
direct_message = record {
  event = direct_event;
  message = codes "hello";
  is_dm = true;
  reply_id = 0;
}

abbrev pub node_info : MeshNodeInfoEvent
node_info = record {
  event = direct_event;
  user_id = codes "!00002000";
  short_name = codes "NEW";
  long_name = codes "New name";
  role = client;
  public_key = 4 ∷ [];
  is_licensed = false;
  is_unmessagable = false;
}

abbrev pub moved_waypoint : MeshWaypointEvent
moved_waypoint = record {
  event = direct_event;
  waypoint_id = 9;
  is_delete = false;
  name = codes "Moved";
  description = [];
  latitude = pos 5;
  longitude = pos 6;
  icon = 66;
  locked_to = none;
  expires = none;
}

abbrev pub channel_portal : Portal
channel_portal = record {
  key = record { id = codes "LongFast|||"; receiver = [] };
  mxid = codes "!r:h";
  room_type = default_room;
}
