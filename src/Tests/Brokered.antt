-- ===== src/Tests/Brokered.antt =====
-- The MQTT connector at concrete values (pkg/mesh/connectors/mqtt_handler.go).
use matrix_meshtastic.Prelude.{
  ◌+◌, ◌≡◌, refl, true, false, [], ◌∷◌, ◌++◌, none, some, codes, ok, arith, if◌then◌else◌,
}
use matrix_meshtastic.MeshId.Ids.{node_string}
use matrix_meshtastic.Mesh.Events.{mqtt_source}
use matrix_meshtastic.Mesh.Mqtt.{
  pki_channel_name, received, new_mqtt_message_handler, on_mqtt_connected, ServiceEnvelope, Broker,
  send_packet, handle_mqtt_message,
}
use matrix_meshtastic.Mesh.Mqtt.Laws.{
  adds, connects, loses, call_all, times_handled, times_in, times_added, no_channel_is_lost,
  handle_mqtt_message-send_packet,
}
use matrix_meshtastic.Tests.Fixture.{bridge_node, text_packet}

no_channel_is_lost_example :
    let (es, h) =
      call_all
        (adds false (codes "A") ∷ connects ∷ adds true (codes "B") ∷ loses ∷ [])
        []
        new_mqtt_message_handler in
    (times_handled (codes "A") es + times_in (codes "A") h.pending_channels
      ≡ times_added
          (codes "A")
          (adds false (codes "A") ∷ connects ∷ adds true (codes "B") ∷ loses ∷ [])
        + times_in (codes "A") (pki_channel_name ∷ []))
    × (times_handled (codes "A") (es ++ (on_mqtt_connected h).0)
        ≡ times_added
            (codes "A")
            (adds false (codes "A") ∷ connects ∷ adds true (codes "B") ∷ loses ∷ [])
          + times_in (codes "A") (pki_channel_name ∷ []))
no_channel_is_lost_example =
    no_channel_is_lost (codes "A")
      (adds false (codes "A") ∷ connects ∷ adds true (codes "B") ∷ loses ∷ [])

abbrev envelope : ServiceEnvelope
envelope = record {
  channel_id = codes "LongFast";
  gateway_id = node_string bridge_node;
  packet = some text_packet.mesh_packet;
}

-- Every text is read as that envelope.
abbrev one_envelope : Broker
one_envelope = record {
  marshal_envelope = λ env. ok (1 ∷ []);
  unmarshal_envelope = λ raw. ok envelope;
  get_full_topic_for_channel = λ channel. codes "msh/2/e/" ++ channel;
  publish = λ topic raw. none;
}

handle_mqtt_message-send_packet_example :
    (send_packet one_envelope bridge_node (codes "LongFast") text_packet.mesh_packet
      ≡ one_envelope.publish
          (one_envelope.get_full_topic_for_channel
              (if text_packet.pki_encrypted then pki_channel_name else codes "LongFast")
            ++ (b'/' ∷ node_string bridge_node))
          (1 ∷ []))
    × (handle_mqtt_message one_envelope (1 ∷ [])
        ≡ received (record {
          mesh_packet = text_packet.mesh_packet;
          channel_name = codes "LongFast";
          channel_key = none;
          gateway_node = bridge_node;
          source = mqtt_source;
        })
          ∷ [])
handle_mqtt_message-send_packet_example =
    handle_mqtt_message-send_packet one_envelope bridge_node (codes "LongFast")
      text_packet.mesh_packet (1 ∷ []) (omega arith) refl refl
