-- ===== src/Tests/Fixture.antt =====
-- A client with two connectors and simple libraries: encryption leaves the text as it is, and the
-- cache holds a key for two hours.
use matrix_meshtastic.Prelude.{
  ℕ, ◌+◌, ◌*◌, Bool, true, false, [], ◌∷◌, none, some, codes, from_library, ok, err, length, ltb,
  nat_beq, if◌then◌else◌,
}
use matrix_meshtastic.Prelude.Int.{pos}
use matrix_meshtastic.External.{
  text_message_app, Data, client, default, encrypted, Radio, Proto, Libraries, PacketCache,
  no_metrics,
}
use matrix_meshtastic.MeshId.Channel.{ChannelDef}
use matrix_meshtastic.Mesh.Events.{udp_source, NetworkMeshPacket}
use matrix_meshtastic.Mesh.World.{minute, MeshConnector, MeshtasticClient, World}
use matrix_meshtastic.Mesh.Send.{PacketInfo, psk_encryption}
use matrix_meshtastic.Mesh.Connection.{new_meshtastic_client}

abbrev pub two_hours : ℕ
two_hours = 120 * minute

abbrev pub hello : Data
hello = record {
  portnum = text_message_app;
  payload = codes "hello";
  want_response = false;
  request_id = 0;
  reply_id = 0;
  emoji = 0;
  bitfield = 1;
}

abbrev pub the_radio : Radio
the_radio = record {
  default_key = 7 ∷ 9 ∷ 1 ∷ [];
  parse_key = λ s. ok (7 ∷ 9 ∷ 0 ∷ []);
  channel_hash = λ name key. (length name, none);
  xor = λ raw key id from. ok raw;
  encrypt_curve25519 = λ raw priv key id from. ok raw;
  try_decode = λ packet key. (some hello, none);
  try_decode_pki = λ packet key priv. (none, some (from_library 1));
}

abbrev pub the_proto : Proto
the_proto = record {
  marshal = λ m. ok (1 ∷ 2 ∷ 3 ∷ []);
  unmarshal_user = λ s. (
    record {
      id = [];
      long_name = [];
      short_name = [];
      role = client;
      public_key = [];
      macaddr = [];
      is_licensed = false;
      is_unmessagable = none;
    },
    none,
  );
  unmarshal_position = λ s. (
    record {
      latitude_i = none;
      longitude_i = none;
      altitude = none;
      precision_bits = 0;
      time = 0;
      timestamp = 0;
      ground_speed = none;
      ground_track = none;
    },
    none,
  );
  unmarshal_map_report = λ s. (
    record {
      long_name = [];
      short_name = [];
      role = client;
      firmware_version = [];
      has_default_channel = false;
      modem_preset = none;
      latitude_i = pos 0;
      longitude_i = pos 0;
      altitude = pos 0;
      position_precision = 0;
      num_online_local_nodes = 0;
    },
    none,
  );
  unmarshal_route_discovery =
      λ s. (record { route = []; snr_towards = []; route_back = []; snr_back = [] }, none);
  unmarshal_telemetry = λ s. (record { time = 0; variant = no_metrics }, none);
  unmarshal_neighbor_info = λ s. (
    record { node_id = 0; neighbors = []; last_sent_by_id = 0; node_broadcast_interval_secs = 0 },
    none,
  );
  unmarshal_waypoint = λ s. (
    record {
      latitude_i = none;
      longitude_i = none;
      expire = 0;
      locked_to = 0;
      name = [];
      description = [];
      icon = 0;
    },
    none,
  );
  unmarshal_other = λ s. none;
}

abbrev pub set_key : PacketCache → ℕ → ℕ → PacketCache
set_key cache key at other now =
    if nat_beq key other then ltb now (at + two_hours) else cache other now

abbrev pub the_libraries : Libraries
the_libraries = record {
  radio = the_radio;
  proto = the_proto;
  cache_set = set_key;
  data_payload_len = 233;
  host = record {
    virtual_memory = ok 1000;
    load_avg = ok (10, 20, 30);
    uptime = ok 60;
    disk_usage = err (from_library 2);
  };
  modem_preset = λ name. none;
}

abbrev pub good_connector : MeshConnector
good_connector = record {
  ident = 1;
  connected = true;
  start = none;
  send_packet = λ name packet. none;
}

abbrev pub bad_connector : MeshConnector
bad_connector = record {
  ident = 2;
  connected = false;
  start = some (from_library 3);
  send_packet = λ name packet. some (from_library 4);
}

abbrev pub long_fast : ChannelDef
long_fast = record {
  name = codes "LongFast";
  key = some (codes "AQ==");
  key_bytes = 7 ∷ 9 ∷ 1 ∷ [];
}

abbrev pub bridge_node : ℕ
bridge_node = 0x1000

abbrev pub is_managed : ℕ → Bool
is_managed node = nat_beq node bridge_node

abbrev pub the_client_state : MeshtasticClient
the_client_state = record (new_meshtastic_client bridge_node 0 is_managed) {
  mesh_connectors = good_connector ∷ bad_connector ∷ [];
  primary_channel = some long_fast;
  channels = record { address = 1; channel = long_fast } ∷ [];
  has_connect_handler = true;
}

abbrev pub the_world : World
the_world = record {
  client = the_client_state;
  now = 50 * minute;
  random = λ k. 77 + k;
  drawn = 0;
  effects = [];
}

abbrev pub text_packet : NetworkMeshPacket
text_packet = record {
  mesh_packet = record {
    id = 5;
    to = 0xffff_ffff;
    from = 0x2000;
    hop_limit = 3;
    hop_start = 3;
    via_mqtt = false;
    want_ack = false;
    rx_time = 100;
    rx_snr = pos 12;
    channel = 8;
    priority = default;
    relay_node = 0;
    pki_encrypted = false;
    payload_variant = encrypted (1 ∷ 2 ∷ []);
  };
  channel_name = [];
  channel_key = none;
  gateway_node = 0x3000;
  source = udp_source;
}

abbrev pub text_info : PacketInfo
text_info = record {
  port_num = text_message_app;
  encryption = psk_encryption;
  from = bridge_node;
  to = 0xffff_ffff;
  request_id = 0;
  reply_id = 0;
  want_response = false;
  emoji = false;
}
