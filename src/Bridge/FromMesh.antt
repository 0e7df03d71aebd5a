-- ===== src/Bridge/FromMesh.antt =====
-- The connector's handlers of mesh events (pkg/connector/handle_meshtastic.go).
pub mod Waypoints
pub mod Secrets
pub mod Discreet
use matrix_meshtastic.Prelude.{
  ℕ, Bool, true, false, not, ◌&&◌, ◌||◌, [], ◌∷◌, Option, none, some, Bytes, Error, Result, ok, err,
  bytes_beq, nat_beq, if◌then◌else◌,
}
use matrix_meshtastic.External
use matrix_meshtastic.External.{Role}
use matrix_meshtastic.MeshId.Ids.{NodeId, broadcast_id, node_string, make_user_id}
use matrix_meshtastic.Mesh.Events.{
  MeshEvent, MeshLocationEvent, MeshWaypointEvent, MeshNodeInfoEvent, MeshMapReportEvent, Event,
}
use matrix_meshtastic.Bridge.Database.{
  MeshNodeInfo, Waypoint, new_mesh_node_info, new_waypoint, get_by_node_id, set_all, set_last_seen,
  get_by_waypoint_id, set_waypoint, delete_by_id,
}
use matrix_meshtastic.Bridge.Hub.{
  Outside, Ghost, updated_info, Hub, Task, ◌>>=◌, ◌>>◌, return, skip, query, tell, now_seconds,
}
use matrix_meshtastic.Bridge.Managed.{get_base_node_id}
use matrix_meshtastic.Bridge.Answer.{handle_mesh_traceroute}
use matrix_meshtastic.Bridge.Ghosts.{
  get_remote_ghost, send_managed_node_info, update_dm_portal_info,
}

-- A row that is not found, or not read, is a new one.
abbrev pub row_or_new : NodeId → Result (Option MeshNodeInfo) → MeshNodeInfo
row_or_new from (ok (some row)) = row
row_or_new from _ = record new_mesh_node_info { node_id = from }

-- Whether the names, the user or the key of a node are news.
pub tells_news : MeshNodeInfoEvent → MeshNodeInfo → Bool
tells_news evt row =
    not (bytes_beq row.user_id evt.user_id)
    || not (bytes_beq row.long_name evt.long_name)
    || not (bytes_beq row.short_name evt.short_name)
    || not (bytes_beq row.public_key evt.public_key)

-- The row that a node info leaves. Writing what is there already changes nothing, so the test for
-- news is not repeated.
abbrev pub node_info_row : MeshNodeInfoEvent → MeshNodeInfo → MeshNodeInfo
node_info_row evt row = record row {
  user_id = evt.user_id;
  long_name = evt.long_name;
  short_name = evt.short_name;
  public_key = evt.public_key;
  role = some evt.role;
  is_direct = evt.event.is_neighbor;
  is_licensed = evt.is_licensed;
  is_unmessagable = evt.is_unmessagable;
  last_seen = some evt.event.timestamp;
}

pub renames : MeshMapReportEvent → MeshNodeInfo → Bool
renames evt row =
    not (bytes_beq row.long_name evt.long_name) || not (bytes_beq row.short_name evt.short_name)

abbrev role_number : Role → ℕ
role_number External.client = 0
role_number External.client_mute = 1
role_number External.router = 2
role_number External.router_client = 3
role_number External.repeater = 4
role_number External.tracker = 5
role_number External.sensor = 6
role_number External.tak = 7
role_number External.client_hidden = 8
role_number External.lost_and_found = 9
role_number External.tak_tracker = 10
role_number External.router_late = 11
role_number External.client_base = 12

abbrev is_role : Role → Option Role → Bool
is_role role none = false
is_role role (some old) = nat_beq (role_number old) (role_number role)

-- A change of role sets the flag that a map report does not have.
pub map_report_row : MeshMapReportEvent → MeshNodeInfo → MeshNodeInfo
map_report_row evt row = record row {
  user_id = if bytes_beq row.user_id [] then node_string evt.event.from else row.user_id;
  long_name = evt.long_name;
  short_name = evt.short_name;
  is_unmessagable =
      if is_role evt.role row.role then row.is_unmessagable else evt.is_unmessagable_role;
  role = some evt.role;
  is_direct = evt.event.is_neighbor;
  last_seen = some evt.event.timestamp;
}

abbrev pub waypoint_or_new : ℕ → Option Waypoint → Waypoint
waypoint_or_new id none = record new_waypoint { waypoint_id = id }
waypoint_or_new id (some row) = row

abbrev pub waypoint_row : MeshWaypointEvent → Option Waypoint → Waypoint
waypoint_row evt found = record (waypoint_or_new evt.waypoint_id found) {
  name = evt.name;
  description = evt.description;
  icon = evt.icon;
  expires = evt.expires;
  latitude = evt.latitude;
  longitude = evt.longitude;
  updated_by = evt.event.from;
  updated_date = some evt.event.timestamp;
  locked_to = evt.locked_to;
}

-- Whether a waypoint is locked to another node.
abbrev pub locks_out : NodeId → Option Waypoint → Bool
locks_out from none = false
locks_out from (some row) = elim row.locked_to [
  | none ↦ false
  | some owner ↦ not (nat_beq owner from)
]

module _ (o : Outside) where
  -- The ghost is asked for and the time is noted.
  unfoldable pub notice_node : MeshEvent → Task (Unit {0})
  unfolding get_remote_ghost set_last_seen
  notice_node evt = do
    get_remote_ghost o (make_user_id evt.from) true
    now ← now_seconds
    query (set_last_seen evt.from evt.is_neighbor now)
    skip

  unfoldable pub handle_unknown_packet : MeshEvent → Task (Unit {0})
  unfolding notice_node
  handle_unknown_packet evt = notice_node evt

  unfoldable pub handle_mesh_location : MeshLocationEvent → Task (Unit {0})
  unfolding notice_node
  handle_mesh_location evt = notice_node evt.event

  -- A request to one of the nodes is answered with the node's own info.
  pub answer_request : MeshEvent → Task (Unit {0})
  unfolding send_managed_node_info
  answer_request evt =
      if not (nat_beq evt.to broadcast_id) && evt.want_response
      then send_managed_node_info o evt.to evt.from false
      else skip

  -- A node without a long name is stored and not shown.
  pub show_names : Ghost → Bytes → Bool → Task (Unit {0})
  unfolding update_dm_portal_info
  show_names ghost long_name news = if bytes_beq long_name [] then skip else (do
    tell (updated_info ghost.id long_name none)
    if news then update_dm_portal_info o (o.updated_ghost ghost long_name) else skip)

  abbrev pub store_node_info : MeshNodeInfoEvent → Result Ghost → Task (Unit {0})
  store_node_info evt (err e) = skip
  store_node_info evt (ok ghost) = do
    answer_request evt.event
    found ← query (get_by_node_id evt.event.from)
    let row = row_or_new evt.event.from found
    query (set_all (node_info_row evt row))
    show_names ghost evt.long_name (tells_news evt row)

  unfoldable pub handle_mesh_node_info : MeshNodeInfoEvent → Task (Unit {0})
  unfolding get_base_node_id get_remote_ghost answer_request show_names tells_news
  handle_mesh_node_info evt = do
    base ← get_base_node_id o
    ghost ← get_remote_ghost o (make_user_id evt.event.from) (not (nat_beq evt.event.to base))
    store_node_info evt ghost

  abbrev pub store_map_report : MeshMapReportEvent → Result Ghost → Task (Unit {0})
  store_map_report evt (err e) = skip
  store_map_report evt (ok ghost) = do
    answer_request evt.event
    found ← query (get_by_node_id evt.event.from)
    let row = row_or_new evt.event.from found
    query (set_all (map_report_row evt row))
    show_names ghost evt.long_name (renames evt row)

  unfoldable pub handle_map_report : MeshMapReportEvent → Task (Unit {0})
  unfolding get_base_node_id get_remote_ghost answer_request show_names renames map_report_row
  handle_map_report evt = do
    base ← get_base_node_id o
    ghost ← get_remote_ghost o (make_user_id evt.event.from) (not (nat_beq evt.event.to base))
    store_map_report evt ghost

  abbrev pub store_waypoint : MeshWaypointEvent → Result (Option Waypoint) → Task (Unit {0})
  store_waypoint evt (err e) = skip
  store_waypoint evt (ok found) =
      if locks_out evt.event.from found
      then skip
      else (do query (set_waypoint (waypoint_row evt found)); skip)

  unfoldable pub handle_mesh_waypoint : MeshWaypointEvent → Task (Unit {0})
  handle_mesh_waypoint evt = do
    now ← now_seconds
    query (set_last_seen evt.event.from evt.event.is_neighbor now)
    if evt.is_delete
        then (do query (delete_by_id evt.waypoint_id); skip)
        else (do found ← query (get_by_waypoint_id evt.waypoint_id); store_waypoint evt found)

  -- A plain event is no pointer to one, and is in no case.
  unfoldable pub handle_global_mesh_event : Event → Task (Unit {0})
  unfolding handle_unknown_packet handle_mesh_location handle_mesh_node_info handle_map_report
      handle_mesh_waypoint
  handle_global_mesh_event (Event.node_info evt) = handle_mesh_node_info evt
  handle_global_mesh_event (Event.map_report evt) = handle_map_report evt
  handle_global_mesh_event (Event.location evt) = handle_mesh_location evt
  handle_global_mesh_event (Event.waypoint evt) = handle_mesh_waypoint evt
  handle_global_mesh_event (Event.traceroute evt) = handle_mesh_traceroute evt
  handle_global_mesh_event (Event.plain_pointer evt) = handle_unknown_packet evt
  handle_global_mesh_event (Event.plain evt) = skip
  handle_global_mesh_event (Event.message evt) = skip
  handle_global_mesh_event (Event.reaction evt) = skip
  handle_global_mesh_event (Event.channel_joined evt) = skip
