-- ===== src/Tests/Commanding.antt =====
-- The traceroute command at concrete values (pkg/connector/commands.go).
use matrix_meshtastic.Prelude.{◌+◌, ◌*◌, ◌≡◌, ◌≢◌, refl, [], ◌∷◌, none, codes, arith, nat_beq}
use matrix_meshtastic.Golang.Strconv.{parse_uint}
use matrix_meshtastic.Golang.Crc32.{checksum_ieee}
use matrix_meshtastic.MeshId.Ids.{mxid_to_node_id, parse_node_id}
use matrix_meshtastic.Mesh.World.{second, minute}
use matrix_meshtastic.Mesh.Send.{send_proto_message}
use matrix_meshtastic.Mesh.Reports.{send_traceroute}
use matrix_meshtastic.Bridge.Tracker.{new_traceroute_tracker, can_send_traceroute}
use matrix_meshtastic.Bridge.Command.{Command, Desk, request_sent, fn_traceroute, target_of}
use matrix_meshtastic.Bridge.Command.Spacing.{cleans, at_time, happen_all, traceroutes_are_spaced}
use matrix_meshtastic.Tests.Fixture.{the_libraries, the_client_state, the_world}

abbrev command : Command
command = record {
  args = codes "!00000009" ∷ [];
  user_mxid = codes "@u:h";
  portal_id = none;
  room_id = codes "!r:h";
}

-- The mesh takes every node for one of the bridge's own.
abbrev desk : Desk
desk = record {
  world = record the_world {
    client = record the_client_state { managed_node_func = λ node. nat_beq node node };
  };
  tracker = new_traceroute_tracker;
}

sent_first : (fn_traceroute the_libraries (λ mxid. none) command desk).0 ≡ request_sent 9
unfolding fn_traceroute target_of parse_node_id can_send_traceroute parse_uint send_traceroute
    send_proto_message mxid_to_node_id checksum_ieee
sent_first = refl

traceroutes_are_spaced_example :
    (fn_traceroute the_libraries
      (λ mxid. none)
      command
      (at_time (50 * minute + 20 * second) (
        happen_all the_libraries
          (λ mxid. none)
          (cleans (50 * minute + 10 * second) ∷ [])
          (fn_traceroute the_libraries (λ mxid. none) command desk).1))).0
    ≢ request_sent 9
traceroutes_are_spaced_example =
    traceroutes_are_spaced the_libraries (λ mxid. none) command command desk 9
      (cleans (50 * minute + 10 * second) ∷ []) (50 * minute + 20 * second) refl sent_first
      (omega arith, omega arith) (omega arith)
