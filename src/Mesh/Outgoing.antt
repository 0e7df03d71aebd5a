-- ===== src/Mesh/Outgoing.antt =====
-- The messages that the client sends (pkg/mesh/outgoing_messages.go). A float voltage of 5.0 stands
-- in every device metrics message and is left out.
pub mod Frame
pub mod Limits
use matrix_meshtastic.Prelude.{
  ℕ, suc, ◌+◌, ◌-◌, ◌*◌, ◌/◌, ◌%◌, ◌^◌, Bool, true, false, not, ◌&&◌, ◌||◌, List, [], ◌∷◌, ◌++◌,
  Option, none, some, Bytes, Error, sent_too_recently, long_name_too_long, short_name_too_long,
  no_location, nil_channel, Result, ok, err, length, take, ltb, nat_beq, lookup, insert, nat_eq,
  is_some, if◌then◌else◌,
}
use matrix_meshtastic.Prelude.Int.{ℤ, pos, int_beq}
use matrix_meshtastic.External.{
  text_message_app, nodeinfo_app, position_app, map_report_app, traceroute_app, telemetry_app,
  neighborinfo_app, routing_app, Role, client_mute, client_base, HostMetrics, TelemetryVariant,
  device_metrics, host_metrics, Telemetry, Neighbor, NeighborInfo, RoutingError, routing_none,
  got_nak, Message, user_message, position_message, map_report_message, telemetry_message,
  neighbor_info_message, route_discovery_message, routing_message, Libraries, Host,
}
use matrix_meshtastic.MeshId.Ids.{NodeId, broadcast_id, broadcast_id_no_lora, node_string}
use matrix_meshtastic.MeshId.Node.{to_mac_address}
use matrix_meshtastic.MeshId.Channel.{ChannelDef}
use matrix_meshtastic.Mesh.Events.{Location}
use matrix_meshtastic.Mesh.World.{
  second, minute, MeshtasticClient, Action, ◌>>=◌, ◌>>◌, return, skip, the_client, read_clock,
  put_client,
}
use matrix_meshtastic.Mesh.Send.{
  EncryptionType, no_encryption, psk_encryption, pki_encryption, PacketInfo, send_bytes,
  send_proto_message,
}
use matrix_meshtastic.Mesh.Precision.{get_precision_bits}

module _ (lib : Libraries) where
  unfoldable pub send_message :
      NodeId → NodeId → Option ChannelDef → Bytes → ℕ → Bool → Action (ℕ × Option Error)
  send_message from to channel message reply_id use_pki = send_bytes lib channel message (record {
    port_num = text_message_app;
    encryption = if use_pki then pki_encryption else psk_encryption;
    from = from;
    to = to;
    request_id = 0;
    reply_id = reply_id;
    want_response = false;
    emoji = false;
  })

  unfoldable pub send_reaction :
      NodeId → NodeId → Option ChannelDef → ℕ → Bytes → Bool → Action (ℕ × Option Error)
  send_reaction from to channel target_packet_id emoji use_pki =
      send_bytes lib channel emoji (record {
        port_num = text_message_app;
        encryption = if use_pki then pki_encryption else psk_encryption;
        from = from;
        to = to;
        request_id = 0;
        reply_id = target_packet_id;
        want_response = false;
        emoji = true;
      })

  -- The send time of the cache that the guard looks at, and the time that it is compared with.
  sent_recently : MeshtasticClient → NodeId → ℕ → Bool
  sent_recently c from now = elim (lookup from c.node_info_send_cache) [
    | none ↦ false
    | some v ↦ ltb (now + 5 * minute) v
  ]

  user_of : MeshtasticClient → NodeId → Bytes → Bytes → Bytes → Message
  user_of c from long_name short_name public_key =
      let is_bridge = nat_beq from c.node_id in
      user_message (record {
        id = node_string from;
        long_name = long_name;
        short_name = short_name;
        role = if is_bridge then client_base else client_mute;
        public_key = public_key;
        macaddr = to_mac_address from;
        is_licensed = false;
        is_unmessagable = if is_bridge then some true else none;
      })

  remember_sent : NodeId → ℕ → Option Error → Action (Option Error)
  remember_sent from now (some e) = return (some e)
  remember_sent from now none = do
    c ← the_client
    put_client (record c { node_info_send_cache = insert from now c.node_info_send_cache })
    return none

  pub send_user : NodeId → NodeId → Bytes → Bytes → Bool → Bytes → Action (Option Error)
  unfolding user_of remember_sent
  send_user from to long_name short_name want_response public_key = do
    c ← the_client
    now ← read_clock
    r ←
        send_proto_message lib c.primary_channel (user_of c from long_name short_name public_key)
          (record {
            port_num = nodeinfo_app;
            encryption = psk_encryption;
            from = from;
            to = to;
            request_id = 0;
            reply_id = 0;
            want_response = want_response;
            emoji = false;
          })
    remember_sent from now r.1

  pub send_node_info : NodeId → NodeId → Bytes → Bytes → Bool → Bytes → Action (Option Error)
  unfolding sent_recently send_user
  send_node_info from to long_name short_name want_response public_key = do
    c ← the_client
    now ← read_clock
    if sent_recently c from now
        then return (some sent_too_recently)
        else if ltb 39 (length long_name)
        then return (some long_name_too_long)
        else if ltb 4 (length short_name)
        then return (some short_name_too_long)
        else send_user from to long_name short_name want_response public_key

  -- A battery level above 100 says that the device has mains power.
  build_device_metrics : MeshtasticClient → ℕ → Message
  build_device_metrics c now =
      let apart = (now - c.start_time) + (c.start_time - now) in
      telemetry_message (record {
        time = now / second % 2 ^ 32;
        variant = device_metrics 101 (apart / second % 2 ^ 32);
      })

  abbrev then_read : {A B : Type 0} → Result A → (A → Result B) → Result B
  then_read (ok a) f = f a
  then_read (err e) f = err e

  build_host_metrics : ℕ → Result Message
  build_host_metrics now = then_read lib.host.virtual_memory λ available.
      then_read lib.host.load_avg λ load. then_read lib.host.uptime λ uptime.
        then_read lib.host.disk_usage λ free. ok (
          telemetry_message (record {
            time = now / second % 2 ^ 32;
            variant = host_metrics (record {
              uptime_seconds = uptime % 2 ^ 32;
              load1 = load.0;
              load5 = load.1;
              load15 = load.2;
              freemem_bytes = available;
              diskfree1_bytes = free;
            });
          }))

  telemetry_info : NodeId → NodeId → EncryptionType → ℕ → PacketInfo
  telemetry_info from to encryption request_id = record {
    port_num = telemetry_app;
    encryption = encryption;
    from = from;
    to = to;
    request_id = request_id;
    reply_id = 0;
    want_response = false;
    emoji = false;
  }

  pub send_telemetry_response :
      NodeId → NodeId → Option ChannelDef → EncryptionType → ℕ → Action (Option Error)
  unfolding build_device_metrics telemetry_info
  send_telemetry_response from to channel encryption request_id = do
    c ← the_client
    now ← read_clock
    r ←
        send_proto_message lib channel (build_device_metrics c now)
          (telemetry_info from to encryption request_id)
    return r.1

  unfoldable pub send_telemetry : NodeId → NodeId → Action (Option Error)
  unfolding send_telemetry_response
  send_telemetry from to = do
    c ← the_client
    send_telemetry_response from to c.primary_channel psk_encryption 0

  send_metrics : Option ChannelDef → PacketInfo → Result Message → Action (Option Error)
  send_metrics channel info (err e) = return (some e)
  send_metrics channel info (ok message) = do
    r ← send_proto_message lib channel message info
    return r.1

  pub send_host_metrics_response :
      NodeId → NodeId → Option ChannelDef → EncryptionType → ℕ → Action (Option Error)
  unfolding build_host_metrics send_metrics telemetry_info
  send_host_metrics_response from to channel encryption request_id = do
    now ← read_clock
    send_metrics channel (telemetry_info from to encryption request_id) (build_host_metrics now)

  unfoldable pub send_host_metrics : NodeId → NodeId → Action (Option Error)
  unfolding send_host_metrics_response
  send_host_metrics from to = do
    c ← the_client
    send_host_metrics_response from to c.primary_channel psk_encryption 0
