-- ===== src/Mesh/Outgoing/Frame.antt =====
-- Answering with metrics leaves the settings of the client as they are.
use matrix_meshtastic.Prelude.{ℕ, Option, Result, ok, err}
use matrix_meshtastic.External.{Message, Libraries}
use matrix_meshtastic.MeshId.Ids.{NodeId}
use matrix_meshtastic.MeshId.Channel.{ChannelDef}
use matrix_meshtastic.Mesh.World.{OnlySends, nothing_sent}
use matrix_meshtastic.Mesh.Send.{EncryptionType, PacketInfo}
use matrix_meshtastic.Mesh.Send.Frame.{send_proto_message-OnlySends}
use matrix_meshtastic.Mesh.Outgoing.{
  send_metrics, send_telemetry_response, send_host_metrics_response,
}

module _ (lib : Libraries) where
  send_metrics-OnlySends :
      (channel : Option ChannelDef) (info : PacketInfo) (r : Result Message)
      → OnlySends (send_metrics lib channel info r)
  unfolding send_metrics
  send_metrics-OnlySends channel info (err e) w = nothing_sent w
  send_metrics-OnlySends channel info (ok message) w =
      send_proto_message-OnlySends lib channel message info w

  pub send_telemetry_response-OnlySends :
      (from to : NodeId) (channel : Option ChannelDef) (how : EncryptionType) (id : ℕ)
      → OnlySends (send_telemetry_response lib from to channel how id)
  unfolding send_telemetry_response
  send_telemetry_response-OnlySends from to channel how id w =
      send_proto_message-OnlySends lib channel _ _ w

  pub send_host_metrics_response-OnlySends :
      (from to : NodeId) (channel : Option ChannelDef) (how : EncryptionType) (id : ℕ)
      → OnlySends (send_host_metrics_response lib from to channel how id)
  unfolding send_host_metrics_response
  send_host_metrics_response-OnlySends from to channel how id w =
      send_metrics-OnlySends channel _ _ w
