-- ===== src/Tests/Naming.antt =====
-- The names of users and the start of the bridge at concrete values (pkg/connector).
use matrix_meshtastic.Prelude.{
  ◌++◌, drop, List, Option, Bytes, Result, length, ◌<◌, ◌≡◌, refl, arith, true, false, [], ◌∷◌,
  none, some, codes, ok, bytes_beq,
}
use matrix_meshtastic.Golang.Utf8.{rune_string, trim_space}
use matrix_meshtastic.MeshId.Ids.{make_user_id, node_string}
use matrix_meshtastic.Golang.Strconv.{format_08x}
use matrix_meshtastic.MeshId.Ids.RoundTrip.{parse_user_id-make_user_id}
use matrix_meshtastic.MeshId.Channel.{ChannelDef, get_key_string, new_channel_def, encoded_key}
use matrix_meshtastic.Golang.Base64.{encode_to_string}
use matrix_meshtastic.Mesh.Events.{event_started}
use matrix_meshtastic.Mesh.Connection.{
  connected_count, add_channel_def, handle_connector_state_change,
}
use matrix_meshtastic.Bridge.Database.{find_node, admits_node}
use matrix_meshtastic.Bridge.Hub.{Outside, Hub, BridgeCall, got_ghost, Ghost, mesh}
use matrix_meshtastic.Bridge.Names.{truncate_string, update_ghost_mesh_names, post_message_save}
use matrix_meshtastic.Bridge.Names.Laws.{long_names_are_dropped}
use matrix_meshtastic.Bridge.Names.Stored.{IsNameable, new_user_row, new_user_is_named}
use matrix_meshtastic.Bridge.Startup.{validate_config, rejoin_portals}
use matrix_meshtastic.Bridge.Start.{Handlers, start}
use matrix_meshtastic.Bridge.Start.Ready.{switched_on, valid_config_starts}
use matrix_meshtastic.Bridge.Startup.Rekeying.{under_key, IsSpellable, rekeyed_portal_stays}
use matrix_meshtastic.Bridge.Startup.Background.{
  connected, disconnected, runs, follow_all, signals_of, first_start_leaves_tasks,
}
use matrix_meshtastic.Tests.Fixture.{good_connector, the_world}
use matrix_meshtastic.Tests.Hubs.{the_outside, the_hub, channel_portal}

abbrev accents : Bytes
accents = 0xc3 ∷ 0xa9 ∷ 0xc3 ∷ 0xa9 ∷ 0xc3 ∷ 0xa9 ∷ 0xc3 ∷ 0xa9 ∷ 0xc3 ∷ 0xa9 ∷ []

-- Twenty letters, of two bytes each.
abbrev long_display : Bytes
long_display = accents ++ (accents ++ (accents ++ accents))

abbrev known_member : List BridgeCall → Bytes → Bytes → Result (Option Bytes)
known_member calls room mxid = ok (some long_display)

spelt : bytes_beq (trim_space long_display) [] ≡ false
unfolding trim_space
spelt = refl

too_long : 39 < length (truncate_string (trim_space long_display) 39)
unfolding trim_space truncate_string rune_string
too_long = omega arith

abbrev nameless : Ghost
nameless = record { id = codes "00005000"; name = []; name_set = false; user_mxid = none }

long_names_are_dropped_example :
    post_message_save the_outside known_member
      (codes "@u:h")
      (codes "!r:h")
      (codes "00005000")
      the_hub
    ≡ (some tt, record the_hub { calls = got_ghost (codes "00005000") ∷ [] })
long_names_are_dropped_example =
    long_names_are_dropped the_outside known_member (codes "@u:h") (codes "!r:h") (codes "00005000")
      long_display nameless the_hub refl refl refl spelt too_long

new_user-IsNameable :
    IsNameable the_outside
      (make_user_id 0x5000)
      (codes "User")
      (codes "USR")
      0x5000
      (record nameless { id = make_user_id 0x5000 })
      none
      the_hub
unfolding find_node
new_user-IsNameable = record {
  quiet = refl;
  found = refl;
  parsed = parse_user_id-make_user_id 0x5000 (omega arith);
  in_table = refl;
  long_fits = omega arith;
  short_fits = omega arith;
}

new_user_is_named_example :
    find_node 0x5000
      (update_ghost_mesh_names the_outside
        (make_user_id 0x5000)
        (codes "@u:h")
        (codes "User")
        (codes "USR")
        the_hub).1.tables.nodes
    ≡ some (new_user_row 0x5000 (codes "User") (codes "USR") (1 ∷ 0 ∷ []) (2 ∷ 0 ∷ []))
unfolding admits_node node_string format_08x
new_user_is_named_example =
    new_user_is_named the_outside (make_user_id 0x5000) (codes "@u:h") (codes "User") (codes "USR")
      0x5000 (record nameless { id = make_user_id 0x5000 }) (1 ∷ 0 ∷ []) (2 ∷ 0 ∷ []) the_hub
      new_user-IsNameable refl refl

first_start_leaves_tasks_example :
    let done = (handle_connector_state_change good_connector event_started the_world).1.effects in
    let signals = signals_of (drop (length the_world.effects) done) in
    runs 0
      (follow_all
        (disconnected ∷ connected ∷ disconnected ∷ [])
        (follow_all signals (record { made = 0; running = []; canceller = none }))).running
    ≡ true
unfolding connected_count
first_start_leaves_tasks_example =
    first_start_leaves_tasks good_connector the_world
      (record { made = 0; running = []; canceller = none })
      (disconnected ∷ connected ∷ disconnected ∷ []) refl refl refl

-- A library under which every text spells a key of three bytes that is not the default one.
abbrev long_outside : Outside
long_outside = record the_outside {
  lib = record the_outside.lib {
    radio = record the_outside.lib.radio { parse_key = λ s. ok (1 ∷ 2 ∷ 3 ∷ []) };
  };
}

abbrev long_channel : ChannelDef
long_channel = record { name = codes "Lo"; key = some (codes "AQID"); key_bytes = 1 ∷ 2 ∷ 3 ∷ [] }

made_long :
    new_channel_def long_outside.lib.radio (codes "Lo") (some (codes "AQID")) ≡ ok long_channel
unfolding new_channel_def encoded_key encode_to_string
made_long = refl

long_channel-IsSpellable : IsSpellable long_outside (7 ∷ 9 ∷ []) (codes "Lo") long_channel
unfolding encoded_key get_key_string
long_channel-IsSpellable = record {
  default_key = refl;
  longer = λ e. cc;
  reads_back = refl;
  of_bytes = (omega arith, (omega arith, (omega arith, tt)));
  not_zero = λ e. cc;
  plain_name = ((λ e. absurd (omega arith)), ((λ e. absurd (omega arith)), tt));
  plain_key = (
    (λ e. absurd (omega arith)),
    ((λ e. absurd (omega arith)), ((λ e. absurd (omega arith)), ((λ e. absurd (omega arith)), tt))),
  );
}

rekeyed_portal_stays_example :
    rejoin_portals long_outside 4 (under_key channel_portal (codes "Lo") long_channel ∷ []) the_hub
    ≡ mesh (add_channel_def (record { address = 4; channel = long_channel })) the_hub
rekeyed_portal_stays_example =
    rekeyed_portal_stays long_outside (7 ∷ 9 ∷ []) (codes "Lo") (some (codes "AQID")) long_channel
      channel_portal 4 the_hub made_long long_channel-IsSpellable

abbrev the_handlers : Handlers
the_handlers = record {
  managed = λ node. true;
  public_key = λ node. none;
  private_key = λ node. none;
  neighbors = λ node. [];
  udp_handler = good_connector;
  mqtt_handler = good_connector;
}

abbrev long_hub : Hub
long_hub = record the_hub {
  config = record the_hub.config { primary_name = codes "Lo"; primary_key = codes "AQID" };
}

valid_config_starts_example :
    let r = start long_outside 4 the_handlers long_hub in
    let client = r.1.world.client in
    (r.0 ≡ some tt)
    × (client.hop_limit ≡ long_hub.config.hop_limit)
    × (client.primary_channel ≡ some long_channel)
    × (0 < length client.mesh_connectors)
    × (client.mesh_connectors
        ≡ switched_on long_hub.config.udp long_hub.config.mqtt_enabled the_handlers)
    × (client.has_connect_handler ≡ true)
    × (client.has_disconnect_handler ≡ true)
    × (client.managed_node_func ≡ the_handlers.managed)
    × (client.pub_key_request_handler ≡ some the_handlers.public_key)
    × (client.priv_key_request_handler ≡ some the_handlers.private_key)
    × (client.neighbor_provider ≡ some the_handlers.neighbors)
    × (client.neighbor_broadcast_interval ≡ some 43231)
unfolding validate_config
valid_config_starts_example =
    valid_config_starts long_outside 4 long_channel the_handlers long_hub refl made_long
