-- ===== src/Mesh/Requests/Frame.antt =====
-- Answering requests leaves the settings of the client as they are.
use matrix_meshtastic.Prelude.{ℕ, refl, Bool, Bool-cases, inl, inr}
use matrix_meshtastic.External.{
  Telemetry, TelemetryVariant, device_metrics, host_metrics, other_metrics, no_metrics,
  NeighborInfo, Libraries,
}
use matrix_meshtastic.MeshId.Ids.{NodeId}
use matrix_meshtastic.Mesh.Events.{NetworkMeshPacket}
use matrix_meshtastic.Mesh.World.{
  RequestThrottle, OnlySends, client_changed, nothing_sent, then_sent,
}
use matrix_meshtastic.Mesh.Outgoing.Frame.{
  send_telemetry_response-OnlySends, send_host_metrics_response-OnlySends,
}
use matrix_meshtastic.Mesh.Reports.Frame.{send_neighbor_info_response-OnlySends}
use matrix_meshtastic.Mesh.Requests.{
  ask_throttle, answer_telemetry, telemetry_unless_throttled, handle_telemetry_request,
  answer_neighbors, neighbors_unless_throttled, handle_neighbor_info_request, is_dummy,
  can_respond_telemetry, can_respond_neighbor,
}

ask_throttle-OnlySends :
    (can : NodeId → ℕ → RequestThrottle → Bool × RequestThrottle) (node : NodeId)
    → OnlySends (ask_throttle can node)
unfolding ask_throttle
ask_throttle-OnlySends can node w = client_changed w _ refl _

module _ (lib : Libraries) where
  answer_telemetry-OnlySends :
      (packet : NetworkMeshPacket) (v : TelemetryVariant)
      → OnlySends (answer_telemetry lib packet v)
  unfolding answer_telemetry
  answer_telemetry-OnlySends packet (device_metrics level uptime) w =
      send_telemetry_response-OnlySends lib _ _ _ _ _ w
  answer_telemetry-OnlySends packet (host_metrics metrics) w =
      send_host_metrics_response-OnlySends lib _ _ _ _ _ w
  answer_telemetry-OnlySends packet other_metrics w = nothing_sent w
  answer_telemetry-OnlySends packet no_metrics w = send_telemetry_response-OnlySends lib _ _ _ _ _ w

  telemetry_unless_throttled-OnlySends :
      (packet : NetworkMeshPacket) (t : Telemetry)
      → OnlySends (telemetry_unless_throttled lib packet t)
  unfolding telemetry_unless_throttled
  telemetry_unless_throttled-OnlySends packet t w =
      let asked = ask_throttle can_respond_telemetry packet.to w in
      elim (Bool-cases asked.0) [
        | inl granted ↦ rw granted (
            then_sent (ask_throttle-OnlySends can_respond_telemetry packet.to w)
              (answer_telemetry-OnlySends packet t.variant asked.1))
        | inr refused ↦ rw refused (ask_throttle-OnlySends can_respond_telemetry packet.to w)
      ]

  pub handle_telemetry_request-OnlySends :
      (packet : NetworkMeshPacket) (t : Telemetry)
      → OnlySends (handle_telemetry_request lib packet t)
  unfolding handle_telemetry_request
  handle_telemetry_request-OnlySends packet t w =
      elim (Bool-cases (w.client.managed_node_func packet.to)) [
        | inl managed ↦ rw managed (telemetry_unless_throttled-OnlySends packet t w)
        | inr other ↦ rw other (nothing_sent w)
      ]

  neighbors_unless_throttled-OnlySends :
      (packet : NetworkMeshPacket) → OnlySends (neighbors_unless_throttled lib packet)
  unfolding neighbors_unless_throttled answer_neighbors
  neighbors_unless_throttled-OnlySends packet w =
      let asked = ask_throttle can_respond_neighbor packet.to w in
      elim (Bool-cases asked.0) [
        | inl granted ↦ rw granted (
            then_sent (ask_throttle-OnlySends can_respond_neighbor packet.to w)
              (send_neighbor_info_response-OnlySends lib _ _ _ _ _ _ _ asked.1))
        | inr refused ↦ rw refused (ask_throttle-OnlySends can_respond_neighbor packet.to w)
      ]

  pub handle_neighbor_info_request-OnlySends :
      (packet : NetworkMeshPacket) (n : NeighborInfo)
      → OnlySends (handle_neighbor_info_request lib packet n)
  unfolding handle_neighbor_info_request
  handle_neighbor_info_request-OnlySends packet n w =
      elim (Bool-cases (w.client.managed_node_func packet.to)) [
        | inl managed ↦ elim (Bool-cases (is_dummy n.neighbors)) [
          | inl dummy ↦ rw (managed, dummy) (nothing_sent w)
          | inr proper ↦ rw (managed, proper) (neighbors_unless_throttled-OnlySends packet w)
        ]
        | inr other ↦ rw other (nothing_sent w)
      ]
