-- ===== src/Mesh/Traceroute/Frame.antt =====
-- Answering a traceroute leaves the settings of the client as they are.
use matrix_meshtastic.Prelude.{Bool-cases, inl, inr}
use matrix_meshtastic.External.{RouteDiscovery, Libraries}
use matrix_meshtastic.Mesh.Events.{NetworkMeshPacket}
use matrix_meshtastic.Mesh.World.{OnlySends, nothing_sent, then_sent}
use matrix_meshtastic.Mesh.Send.Frame.{send_proto_message-OnlySends}
use matrix_meshtastic.Mesh.Reports.Frame.{send_ack-OnlySends}
use matrix_meshtastic.Mesh.Traceroute.{acknowledge, answer_traceroute, handle_traceroute_request}

module _ (lib : Libraries) where
  acknowledge-OnlySends : (packet : NetworkMeshPacket) → OnlySends (acknowledge lib packet)
  unfolding acknowledge
  acknowledge-OnlySends packet w = elim (Bool-cases packet.want_ack) [
    | inl wanted ↦ rw wanted (send_ack-OnlySends lib packet.to packet.from packet.id w)
    | inr unwanted ↦ rw unwanted (nothing_sent w)
  ]

  answer_traceroute-OnlySends :
      (packet : NetworkMeshPacket) (disco : RouteDiscovery)
      → OnlySends (answer_traceroute lib packet disco)
  unfolding answer_traceroute
  answer_traceroute-OnlySends packet disco w =
      then_sent (acknowledge-OnlySends packet w)
        (send_proto_message-OnlySends lib _ _ _ (acknowledge lib packet w).1)

  pub handle_traceroute_request-OnlySends :
      (packet : NetworkMeshPacket) (disco : RouteDiscovery)
      → OnlySends (handle_traceroute_request lib packet disco)
  unfolding handle_traceroute_request
  handle_traceroute_request-OnlySends packet disco w =
      elim (Bool-cases (w.client.managed_node_func packet.to)) [
        | inl managed ↦ rw managed (answer_traceroute-OnlySends packet disco w)
        | inr other ↦ rw other (nothing_sent w)
      ]
