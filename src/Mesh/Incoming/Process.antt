-- ===== src/Mesh/Incoming/Process.antt =====
-- `processMessage` (pkg/mesh/incoming_messages.go): what a packet makes the client do.
pub mod Frame
pub mod Events
use matrix_meshtastic.Prelude.{
  ℕ, ◌*◌, ◌/◌, ◌%◌, ◌^◌, Bool, true, false, not, ◌&&◌, ◌||◌, Option, none, some, Bytes, Error,
  nil_message, zero_sender, ltb, nat_beq, if◌then◌else◌,
}
use matrix_meshtastic.Prelude.Int.{ℤ, pos, int_beq}
use matrix_meshtastic.External.{
  PortNum, text_message_app, nodeinfo_app, position_app, map_report_app, traceroute_app,
  telemetry_app, neighborinfo_app, store_forward_app, store_forward_plusplus_app, routing_app,
  waypoint_app, admin_app, other_app, Data, RouteDiscovery, Role, client, client_mute, client_base,
  router, router_late, router_client, repeater, tracker, sensor, tak, tak_tracker, client_hidden,
  lost_and_found, User, Position, MapReport, Waypoint, Libraries,
}
use matrix_meshtastic.MeshId.Ids.{NodeId, broadcast_id, broadcast_id_no_lora}
use matrix_meshtastic.Mesh.Events.{
  PacketSource, mqtt_source, udp_source, radio_source, NetworkMeshPacket, MeshEvent, Event, plain,
  message, reaction, location, waypoint, node_info, map_report, traceroute,
}
use matrix_meshtastic.Mesh.World.{
  second, MeshtasticClient, Action, ◌>>=◌, ◌>>◌, return, skip, emit, notified, the_client,
  read_clock,
}
use matrix_meshtastic.Mesh.Precision.{get_position_precision_in_meters}
use matrix_meshtastic.Mesh.Traceroute.{handle_traceroute_request, handle_traceroute_response}
use matrix_meshtastic.Mesh.Requests.{handle_telemetry_request, handle_neighbor_info_request}
use matrix_meshtastic.Mesh.Incoming.Content.{
  mesh_event, text_event, user_event, position_event, report_event, route_event, waypoint_event,
}

-- A request is for one node and wants a response.
pub is_request : NetworkMeshPacket → Data → Bool
is_request packet d = d.want_response && not (nat_beq packet.to broadcast_id)

abbrev and_then : Action (Unit {0}) → Event → Option Error → Action (Event × Option Error)
and_then act event e w = ((event, e), (act w).1)

module _ (lib : Libraries) where
  process_traceroute :
      NetworkMeshPacket
      → Data
      → MeshEvent
      → RouteDiscovery × Option Error
      → Action (Event × Option Error)
  unfolding route_event
  process_traceroute packet d env (r, e) = do
    c ← the_client
    if not (nat_beq d.request_id 0)
        then return (route_event env (handle_traceroute_response c packet r) d.request_id, e)
        else and_then (handle_traceroute_request lib packet r) (plain env) e

  -- The switch on the port: what the client does, the event, and the error of reading the payload.
  pub process_port :
      NetworkMeshPacket → Data → MeshEvent → ℕ → PortNum → Action (Event × Option Error)
  unfolding text_event user_event position_event report_event process_traceroute waypoint_event
  process_port packet d env now text_message_app = return (text_event env packet d, none)
  process_port packet d env now nodeinfo_app =
      return (user_event env (lib.proto.unmarshal_user d.payload).0, none)
  process_port packet d env now position_app =
      let p = (lib.proto.unmarshal_position d.payload).0 in
      return (position_event env p p.latitude_i p.longitude_i, none)
  process_port packet d env now map_report_app =
      return (report_event env (lib.proto.unmarshal_map_report d.payload).0, none)
  process_port packet d env now traceroute_app =
      process_traceroute packet d env (lib.proto.unmarshal_route_discovery d.payload)
  process_port packet d env now telemetry_app =
      let (t, e) = lib.proto.unmarshal_telemetry d.payload in
      if is_request packet d
      then and_then (handle_telemetry_request lib packet t) (plain env) e
      else return (plain env, e)
  process_port packet d env now neighborinfo_app =
      let (n, e) = lib.proto.unmarshal_neighbor_info d.payload in
      if is_request packet d
      then and_then (handle_neighbor_info_request lib packet n) (plain env) e
      else return (plain env, e)
  process_port packet d env now store_forward_app =
      return (plain env, lib.proto.unmarshal_other d.payload)
  process_port packet d env now store_forward_plusplus_app =
      return (plain env, lib.proto.unmarshal_other d.payload)
  process_port packet d env now routing_app =
      return (plain env, lib.proto.unmarshal_other d.payload)
  process_port packet d env now waypoint_app =
      let (w, e) = lib.proto.unmarshal_waypoint d.payload in
      return (waypoint_event env w now w.latitude_i w.longitude_i, e)
  process_port packet d env now admin_app = return (plain env, none)
  process_port packet d env now (other_app n) = return (plain env, none)

  process_data : NetworkMeshPacket → Data → Action (Option Error)
  unfolding mesh_event process_port
  process_data packet d = do
    now ← read_clock
    r ← process_port packet d (mesh_event packet d now) now d.portnum
    emit (notified r.0)
    return r.1

  pub process_message : NetworkMeshPacket → Option Data → Action (Option Error)
  unfolding process_data
  process_message packet none = return (some nil_message)
  process_message packet (some d) = do
    c ← the_client
    if nat_beq packet.from 0
        then return (some zero_sender)
        else if c.managed_node_func packet.from
        then return none
        else process_data packet d
