-- ===== src/Mesh/Reports/Frame.antt =====
-- Telling neighbours and acknowledging leave the settings of the client as they are.
use matrix_meshtastic.Prelude.{ℕ, List, Option}
use matrix_meshtastic.External.{Libraries}
use matrix_meshtastic.MeshId.Ids.{NodeId}
use matrix_meshtastic.MeshId.Channel.{ChannelDef}
use matrix_meshtastic.Mesh.World.{OnlySends}
use matrix_meshtastic.Mesh.Send.{EncryptionType}
use matrix_meshtastic.Mesh.Send.Frame.{send_proto_message-OnlySends}
use matrix_meshtastic.Mesh.Reports.{send_routing, send_ack, send_neighbor_info_response}

module _ (lib : Libraries) where
  pub send_ack-OnlySends : (from to : NodeId) (id : ℕ) → OnlySends (send_ack lib from to id)
  unfolding send_ack send_routing
  send_ack-OnlySends from to id w = send_proto_message-OnlySends lib _ _ _ w

  pub send_neighbor_info_response-OnlySends :
      (from to : NodeId) (ids : List NodeId) (interval : ℕ) (channel : Option ChannelDef)
      (how : EncryptionType) (id : ℕ)
      → OnlySends (send_neighbor_info_response lib from to ids interval channel how id)
  unfolding send_neighbor_info_response
  send_neighbor_info_response-OnlySends from to ids interval channel how id w =
      send_proto_message-OnlySends lib channel _ _ w
