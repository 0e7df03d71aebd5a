-- ===== src/Mesh/Mqtt/Laws.antt =====
-- No channel is lost or subscribed twice, and what one bridge publishes another reads
-- (pkg/mesh/connectors/mqtt_handler.go).
use matrix_meshtastic.Prelude.{
  ℕ, ◌+◌, ◌≤◌, ◌≡◌, refl, Bool, true, false, List, [], ◌∷◌, ◌++◌, map, none, some, Bytes, bytes_beq,
  ok, arith, if◌then◌else◌,
}
use matrix_meshtastic.Golang.Strconv.{max_uint32}
use matrix_meshtastic.External.{MeshPacket}
use matrix_meshtastic.MeshId.Ids.{NodeId, node_string}
use matrix_meshtastic.MeshId.Ids.RoundTrip.{parse_node_id-node_string}
use matrix_meshtastic.Mesh.Events.{mqtt_source, event_started, event_restarted}
use matrix_meshtastic.Mesh.Mqtt.{
  pki_channel_name, MqttMessageHandler, MqttEffect, handle, handle_map, emitted, received,
  new_mqtt_message_handler, add_channel, on_mqtt_connected, on_mqtt_connection_lost,
  ServiceEnvelope, Broker, open_envelope, read_envelope, handle_mqtt_message, send_packet,
  publish_envelope,
}

-- What happens to the connector; a channel is added while the broker is or is not connected.
pub data MqttCall : Type 0 where
  adds : Bool → Bytes → MqttCall
  connects : MqttCall
  loses : MqttCall

pub call : MqttCall → MqttMessageHandler → List MqttEffect × MqttMessageHandler
call (adds is_connected name) h = add_channel is_connected name h
call connects h = on_mqtt_connected h
call loses h = on_mqtt_connection_lost h

pub call_all :
    List MqttCall → List MqttEffect → MqttMessageHandler → List MqttEffect × MqttMessageHandler
call_all [] done h = (done, h)
call_all (c ∷ cs) done h = call_all cs (done ++ (call c h).0) (call c h).1

is_of : Bytes → MqttEffect → Bool
is_of name (handle n) = bytes_beq n name
is_of name handle_map = false
is_of name (emitted e) = false
is_of name (received p) = false

-- How often the channel was subscribed, stands in a list, and was added.
pub times_handled : Bytes → List MqttEffect → ℕ
times_handled name [] = 0
times_handled name (e ∷ es) =
    let rest = times_handled name es in if is_of name e then 1 + rest else rest

pub times_in : Bytes → List Bytes → ℕ
times_in name [] = 0
times_in name (n ∷ ns) = let rest = times_in name ns in if bytes_beq n name then 1 + rest else rest

abbrev pub times_added : Bytes → List MqttCall → ℕ
times_added name [] = 0
times_added name (adds is_connected n ∷ cs) =
    let rest = times_added name cs in if bytes_beq n name then 1 + rest else rest
times_added name (connects ∷ cs) = times_added name cs
times_added name (loses ∷ cs) = times_added name cs

times_handled-append :
    (name : Bytes) (es fs : List MqttEffect)
    → times_handled name (es ++ fs) ≡ times_handled name es + times_handled name fs
unfolding times_handled
times_handled-append name [] fs = omega arith
times_handled-append name (e ∷ es) fs = ground (arith, times_handled-append name es fs)

times_in-append :
    (name : Bytes) (ms ns : List Bytes)
    → times_in name (ms ++ ns) ≡ times_in name ms + times_in name ns
unfolding times_in
times_in-append name [] ns = omega arith
times_in-append name (m ∷ ms) ns = ground (arith, times_in-append name ms ns)

times_handled-map :
    (name : Bytes) (ns : List Bytes) → times_handled name (map handle ns) ≡ times_in name ns
unfolding times_handled times_in is_of
times_handled-map name [] = refl
times_handled-map name (n ∷ ns) = ground (arith, times_handled-map name ns)

abbrev added_by : Bytes → MqttCall → ℕ
added_by name (adds is_connected n) = if bytes_beq n name then 1 else 0
added_by name connects = 0
added_by name loses = 0

call_count :
    (name : Bytes) (c : MqttCall) (h : MqttMessageHandler)
    → let (es, h') = call c h in
      times_handled name es + times_in name h'.pending_channels
      ≡ added_by name c + times_in name h.pending_channels
unfolding call add_channel on_mqtt_connected on_mqtt_connection_lost times_handled times_in is_of
call_count name (adds true n) h = ground arith
call_count name (adds false n) h = ground (arith, times_in-append name h.pending_channels (n ∷ []))
call_count name connects h = ground (
  arith,
  times_handled-map name h.pending_channels,
  times_handled-append name (map handle h.pending_channels) (emitted event_restarted ∷ []),
  times_handled-append name (map handle h.pending_channels)
      (handle_map ∷ emitted event_started ∷ []),
)
call_count name loses h = ground arith

connected_count :
    (name : Bytes) (h : MqttMessageHandler)
    → times_handled name (on_mqtt_connected h).0 ≡ times_in name h.pending_channels
unfolding on_mqtt_connected times_handled is_of
connected_count name h = ground (
  arith,
  times_handled-map name h.pending_channels,
  times_handled-append name (map handle h.pending_channels) (emitted event_restarted ∷ []),
  times_handled-append name (map handle h.pending_channels)
      (handle_map ∷ emitted event_started ∷ []),
)

times_added-cons :
    (name : Bytes) (c : MqttCall) (cs : List MqttCall)
    → times_added name (c ∷ cs) ≡ added_by name c + times_added name cs
times_added-cons name (adds is_connected n) cs = ground arith
times_added-cons name connects cs = omega arith
times_added-cons name loses cs = omega arith

call_all_count :
    (name : Bytes) (cs : List MqttCall) (done : List MqttEffect) (h : MqttMessageHandler)
    → let (es, h') = call_all cs done h in
      times_handled name es + times_in name h'.pending_channels
      ≡ times_handled name done + (times_added name cs + times_in name h.pending_channels)
unfolding call_all
call_all_count name [] done h = omega arith
call_all_count name (c ∷ cs) done h = omega (
  arith,
  call_all_count name cs (done ++ (call c h).0) (call c h).1,
  call_count name c h,
  times_handled-append name done (call c h).0,
  times_added-cons name c cs,
)

-- However channels are added and connections come and go, every channel has been subscribed or waits
-- for a connection as often as it was added, the one for encrypted direct messages once more from
-- the start; and the next connection subscribes all that wait.
pub no_channel_is_lost :
    (name : Bytes) (cs : List MqttCall)
    → let (es, h) = call_all cs [] new_mqtt_message_handler in
      (times_handled name es + times_in name h.pending_channels
        ≡ times_added name cs + times_in name (pki_channel_name ∷ []))
      × (times_handled name (es ++ (on_mqtt_connected h).0)
          ≡ times_added name cs + times_in name (pki_channel_name ∷ []))
unfolding times_handled
no_channel_is_lost name cs =
    let (es, h) = call_all cs [] new_mqtt_message_handler in
    let total = call_all_count name cs [] new_mqtt_message_handler in
    let next = connected_count name h in
    (
      omega (arith, total),
      omega (arith, total, next, times_handled-append name es (on_mqtt_connected h).0),
    )

module _ (broker : Broker) where
  -- A packet is published under the topic of its channel, or of `PKI` if it is encrypted for one
  -- node; and another bridge reads what is published as the same packet on the same channel, with the
  -- sender as its gateway, if protobuf reads back the envelope and the sender's ID has 32 bits.
  pub handle_mqtt_message-send_packet :
      (node_id : NodeId) (channel : Bytes) (packet : MeshPacket) (raw : Bytes)
      → node_id ≤ max_uint32
      → let env : ServiceEnvelope = record {
        channel_id = channel;
        gateway_id = node_string node_id;
        packet = some packet;
      } in
        broker.marshal_envelope env ≡ ok raw
        → broker.unmarshal_envelope raw ≡ ok env
        → (send_packet broker node_id channel packet
            ≡ broker.publish
                (broker.get_full_topic_for_channel
                    (if packet.pki_encrypted then pki_channel_name else channel)
                  ++ (b'/' ∷ node_string node_id))
                raw)
          × (handle_mqtt_message broker raw
              ≡ received (record {
                mesh_packet = packet;
                channel_name = channel;
                channel_key = none;
                gateway_node = node_id;
                source = mqtt_source;
              })
                ∷ [])
  unfolding handle_mqtt_message read_envelope open_envelope send_packet publish_envelope
  handle_mqtt_message-send_packet node_id channel packet raw small written read =
      (rw written, rw (read, parse_node_id-node_string node_id small))
