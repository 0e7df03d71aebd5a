-- ===== src/Mesh/Incoming/Process/Frame.antt =====
-- What the switch of `processMessage` does to the client and the world.
use matrix_meshtastic.Prelude.{
  ℕ, ◌≡◌, refl, Bool-cases, inl, inr, Option, none, some, Error, nat_beq,
}
use matrix_meshtastic.External.{
  PortNum, text_message_app, nodeinfo_app, position_app, map_report_app, traceroute_app,
  telemetry_app, neighborinfo_app, store_forward_app, store_forward_plusplus_app, routing_app,
  waypoint_app, admin_app, other_app, Data, RouteDiscovery, Libraries,
}
use matrix_meshtastic.Mesh.Events.{NetworkMeshPacket, MeshEvent}
use matrix_meshtastic.Mesh.World.{World, settings, OnlySends, nothing_sent}
use matrix_meshtastic.Mesh.Traceroute.Frame.{handle_traceroute_request-OnlySends}
use matrix_meshtastic.Mesh.Requests.Frame.{
  handle_telemetry_request-OnlySends, handle_neighbor_info_request-OnlySends,
}
use matrix_meshtastic.Mesh.Incoming.Process.{
  is_request, process_traceroute, process_port, process_data, process_message,
}

module _ (lib : Libraries) where
  process_traceroute-OnlySends :
      (packet : NetworkMeshPacket) (d : Data) (env : MeshEvent) (r : RouteDiscovery × Option Error)
      → OnlySends (process_traceroute lib packet d env r)
  unfolding process_traceroute
  process_traceroute-OnlySends packet d env (r, e) w = elim (Bool-cases (nat_beq d.request_id 0)) [
    | inl request ↦ rw request (handle_traceroute_request-OnlySends lib packet r w)
    | inr answer ↦ rw answer (nothing_sent w)
  ]

  pub process_port-OnlySends :
      (packet : NetworkMeshPacket) (d : Data) (env : MeshEvent) (now : ℕ) (port : PortNum)
      → OnlySends (process_port lib packet d env now port)
  unfolding process_port
  process_port-OnlySends packet d env now text_message_app w = nothing_sent w
  process_port-OnlySends packet d env now nodeinfo_app w = nothing_sent w
  process_port-OnlySends packet d env now position_app w = nothing_sent w
  process_port-OnlySends packet d env now map_report_app w = nothing_sent w
  process_port-OnlySends packet d env now traceroute_app w =
      process_traceroute-OnlySends packet d env _ w
  process_port-OnlySends packet d env now telemetry_app w =
      elim (Bool-cases (is_request packet d)) [
        | inl request ↦ rw request (handle_telemetry_request-OnlySends lib packet _ w)
        | inr other ↦ rw other (nothing_sent w)
      ]
  process_port-OnlySends packet d env now neighborinfo_app w =
      elim (Bool-cases (is_request packet d)) [
        | inl request ↦ rw request (handle_neighbor_info_request-OnlySends lib packet _ w)
        | inr other ↦ rw other (nothing_sent w)
      ]
  process_port-OnlySends packet d env now store_forward_app w = nothing_sent w
  process_port-OnlySends packet d env now store_forward_plusplus_app w = nothing_sent w
  process_port-OnlySends packet d env now routing_app w = nothing_sent w
  process_port-OnlySends packet d env now waypoint_app w = nothing_sent w
  process_port-OnlySends packet d env now admin_app w = nothing_sent w
  process_port-OnlySends packet d env now (other_app n) w = nothing_sent w

  pub settings-process_message :
      (packet : NetworkMeshPacket) (d : Option Data) (w : World)
      → settings (process_message lib packet d w).1.client ≡ settings w.client
  unfolding process_message process_data
  settings-process_message packet none w = refl
  settings-process_message packet (some d) w = elim (Bool-cases (nat_beq packet.from 0)) [
    | inl zero_id ↦ rw zero_id
    | inr real ↦ elim (Bool-cases (w.client.managed_node_func packet.from)) [
      | inl managed ↦ rw (real, managed)
      | inr other ↦
          rw (real, other) (process_port-OnlySends packet d _ w.now d.portnum w).same_settings
    ]
  ]
