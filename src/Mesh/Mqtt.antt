-- ===== src/Mesh/Mqtt.antt =====
-- The MQTT connector (pkg/mesh/connectors/mqtt_handler.go). The client of the broker is a library: its
-- calls are effects, and `IsConnected` is an argument. Waiting is left out.
pub mod Laws
use matrix_meshtastic.Prelude.{
  Bool, true, false, List, [], ◌∷◌, ◌++◌, map, Option, none, some, Bytes, codes, Error, Result, ok,
  err, if◌then◌else◌,
}
use matrix_meshtastic.External.{MeshPacket}
use matrix_meshtastic.MeshId.Ids.{NodeId, node_string, parse_node_id}
use matrix_meshtastic.Mesh.Events.{
  mqtt_source, ListenerEvent, event_started, event_restarted, event_connection_lost,
  NetworkMeshPacket,
}

abbrev pub pki_channel_name : Bytes
pki_channel_name = codes "PKI"

pub record MqttMessageHandler : Type 0 where
  pub previously_connected : Bool
  pub pending_channels : List Bytes

-- `Handle` of the broker's client, `HandleMap`, a state event, a packet for the client of the mesh.
pub data MqttEffect : Type 0 where
  handle : Bytes → MqttEffect
  handle_map : MqttEffect
  emitted : ListenerEvent → MqttEffect
  received : NetworkMeshPacket → MqttEffect

abbrev pub new_mqtt_message_handler : MqttMessageHandler
new_mqtt_message_handler = record {
  previously_connected = false;
  pending_channels = pki_channel_name ∷ [];
}

pub add_channel : Bool → Bytes → MqttMessageHandler → List MqttEffect × MqttMessageHandler
add_channel is_connected name h =
    if is_connected
    then (handle name ∷ [], h)
    else ([], record h { pending_channels = h.pending_channels ++ name ∷ [] })

pub on_mqtt_connected : MqttMessageHandler → List MqttEffect × MqttMessageHandler
on_mqtt_connected h = (
  map handle h.pending_channels
      ++ (if h.previously_connected
          then emitted event_restarted ∷ []
          else handle_map ∷ emitted event_started ∷ []),
  record h { previously_connected = true; pending_channels = [] },
)

pub on_mqtt_connection_lost : MqttMessageHandler → List MqttEffect × MqttMessageHandler
on_mqtt_connection_lost h = (emitted event_connection_lost ∷ [], h)

-- The protobuf message `ServiceEnvelope`.
pub record ServiceEnvelope : Type 0 where
  pub channel_id : Bytes
  pub gateway_id : Bytes
  pub packet : Option MeshPacket

-- What the connector uses of protobuf and of the broker's client.
pub record Broker : Type 0 where
  pub marshal_envelope : ServiceEnvelope → Result Bytes
  pub unmarshal_envelope : Bytes → Result ServiceEnvelope
  pub get_full_topic_for_channel : Bytes → Bytes
  pub publish : Bytes → Bytes → Option Error

module _ (broker : Broker) where
  publish_envelope : NodeId → Bytes → MeshPacket → Result Bytes → Option Error
  publish_envelope node_id channel packet (err e) = some e
  publish_envelope node_id channel packet (ok raw_env) =
      let topic_channel = if packet.pki_encrypted then pki_channel_name else channel in
      broker.publish
        (broker.get_full_topic_for_channel topic_channel ++ (b'/' ∷ node_string node_id)) raw_env

  pub send_packet : NodeId → Bytes → MeshPacket → Option Error
  unfolding publish_envelope
  send_packet node_id channel packet = publish_envelope node_id channel packet (
      broker.marshal_envelope
        (record { channel_id = channel; gateway_id = node_string node_id; packet = some packet }))

  open_envelope : Bytes → Bytes → Option MeshPacket → List MqttEffect
  open_envelope channel_id gateway_id none = []
  open_envelope channel_id gateway_id (some packet) =
      received (record {
        mesh_packet = packet;
        channel_name = channel_id;
        channel_key = none;
        gateway_node = (parse_node_id gateway_id).0;
        source = mqtt_source;
      })
      ∷ []

  read_envelope : Result ServiceEnvelope → List MqttEffect
  unfolding open_envelope
  read_envelope (err e) = []
  read_envelope (ok env) = open_envelope env.channel_id env.gateway_id env.packet

  pub handle_mqtt_message : Bytes → List MqttEffect
  unfolding read_envelope
  handle_mqtt_message payload = read_envelope (broker.unmarshal_envelope payload)
