-- ===== src/Mesh/Send/Frame.antt =====
-- Sending leaves the settings of the client as they are.
use matrix_meshtastic.Prelude.{
  ℕ, List, [], ◌∷◌, map, All, refl, Option, none, some, Bytes, Result, ok, err, Bool-cases, inl,
  inr, nat_beq, ltb, ◌-◌, length,
}
use matrix_meshtastic.External.{Data, MeshPacket, Message, Libraries}
use matrix_meshtastic.MeshId.Channel.{ChannelDef}
use matrix_meshtastic.Mesh.World.{
  MeshConnector, sent, IsSent, OnlySends, client_changed, nothing_sent, then_sent,
}
use matrix_meshtastic.Mesh.Send.{
  PacketInfo, generate_packet_id, Prepared, refused, ready, deliver, transmit, send_marshalled,
  send_admitted, send_bytes, marshalled, send_proto_message,
}

generate-OnlySends : OnlySends generate_packet_id
unfolding generate_packet_id
generate-OnlySends w = elim (Bool-cases (nat_beq w.client.current_packet_id 0)) [
  | inl fresh ↦ rw fresh (client_changed w _ refl _)
  | inr started ↦ rw started (client_changed w _ refl _)
]

deliveries_sent :
    (name : Bytes) (pkt : MeshPacket) (hs : List MeshConnector)
    → All IsSent (map (λ (h : MeshConnector). sent h.ident name pkt) hs)
deliveries_sent name pkt [] = tt
deliveries_sent name pkt (h ∷ hs) = (tt, deliveries_sent name pkt hs)

deliver-OnlySends : (name : Bytes) (pkt : MeshPacket) → OnlySends (deliver name pkt)
unfolding deliver
deliver-OnlySends name pkt w = record {
  same_settings = refl;
  replies = map (λ (h : MeshConnector). sent h.ident name pkt) w.client.mesh_connectors;
  appended = refl;
  are_sent = deliveries_sent name pkt w.client.mesh_connectors;
}

transmit-OnlySends : (name : Bytes) (p : Prepared) → OnlySends (transmit name p)
unfolding transmit
transmit-OnlySends name (refused id e) w = nothing_sent w
transmit-OnlySends name (ready pkt) w = deliver-OnlySends name pkt w

module _ (lib : Libraries) where
  send_marshalled-OnlySends :
      (channel : Option ChannelDef) (d : Data) (info : PacketInfo) (id : ℕ) (r : Result Bytes)
      → OnlySends (send_marshalled lib channel d info id r)
  unfolding send_marshalled
  send_marshalled-OnlySends channel d info id (err e) w = nothing_sent w
  send_marshalled-OnlySends none d info id (ok raw) w = nothing_sent w
  send_marshalled-OnlySends (some channel) d info id (ok raw) w =
      transmit-OnlySends channel.name _ w

  send_bytes-OnlySends :
      (channel : Option ChannelDef) (raw : Bytes) (info : PacketInfo)
      → OnlySends (send_bytes lib channel raw info)
  unfolding send_bytes send_admitted
  send_bytes-OnlySends channel raw info w =
      elim (Bool-cases (w.client.managed_node_func info.from)) [
        | inl managed ↦ elim (Bool-cases (ltb (lib.data_payload_len - 1) (length raw))) [
          | inl large ↦ rw (managed, large) (nothing_sent w)
          | inr fits ↦
              rw (managed, fits)
                (then_sent (generate-OnlySends w)
                  (send_marshalled-OnlySends channel _ info _ _ (generate_packet_id w).1))
        ]
        | inr other ↦ rw other (nothing_sent w)
      ]

  marshalled-OnlySends :
      (channel : Option ChannelDef) (info : PacketInfo) (r : Result Bytes)
      → OnlySends (marshalled lib channel info r)
  unfolding marshalled
  marshalled-OnlySends channel info (err e) w = nothing_sent w
  marshalled-OnlySends channel info (ok raw) w = send_bytes-OnlySends channel raw info w

  pub send_proto_message-OnlySends :
      (channel : Option ChannelDef) (message : Message) (info : PacketInfo)
      → OnlySends (send_proto_message lib channel message info)
  unfolding send_proto_message
  send_proto_message-OnlySends channel message info =
      marshalled-OnlySends channel info (lib.proto.marshal message)
