-- ===== src/Tests/Sending.antt =====
-- Sending at concrete values (pkg/mesh/mesh_client.go and pkg/mesh/outgoing_messages.go).
use matrix_meshtastic.Prelude.{
  ℕ, ◌<◌, ◌≡◌, ◌≢◌, ◌*◌, ◌⊎◌, ◌↔◌, false, [], ◌∷◌, some, codes, arith, nat_eq, nat_beq_iff,
}
use matrix_meshtastic.Mesh.World.{minute, World}
use matrix_meshtastic.Mesh.Send.{send_bytes}
use matrix_meshtastic.Mesh.Send.PacketId.{packet_id, after_packets, packet_ids_distinct}
use matrix_meshtastic.Mesh.Send.Delivery.{Silent, Transmission, send_bytes_cases}
use matrix_meshtastic.Mesh.Precision.{
  get_precision_bits, get_position_precision_in_meters, Returns, precision_round_trip,
}
use matrix_meshtastic.Mesh.Outgoing.{send_node_info, send_user}
use matrix_meshtastic.Mesh.Outgoing.Limits.{ArePast, node_info_is_never_held_back}
use matrix_meshtastic.Tests.Fixture.{
  the_libraries, long_fast, bridge_node, the_client_state, the_world, text_info,
}

-- The last packet had the ID 5.
abbrev counting : World
counting = record the_world { client = record the_client_state { current_packet_id = 5 } }

counting-ne-zero : (j : ℕ) → j < 1 → packet_id (after_packets j counting) ≢ 0
unfolding after_packets
counting-ne-zero j low = ground arith

packet_ids_distinct_example : packet_id (after_packets 1 counting) ≢ packet_id counting
packet_ids_distinct_example =
    packet_ids_distinct 1 counting (omega arith) (omega arith) counting-ne-zero

send_bytes_cases_example :
    let r = send_bytes the_libraries (some long_fast) (codes "hello") text_info the_world in
    Silent the_world r ⊎ Transmission the_libraries (codes "hello") text_info the_world r
send_bytes_cases_example =
    send_bytes_cases the_libraries (some long_fast) (codes "hello") text_info the_world

precision_round_trip_example :
    let bits : ℕ = 13 in
    (Returns bits ↔ ((bits ≢ 11) × (bits ≢ 14)))
    × (get_precision_bits (some (get_position_precision_in_meters 11)) ≡ 12)
    × (get_precision_bits (some (get_position_precision_in_meters 14)) ≡ 15)
precision_round_trip_example = precision_round_trip 13 (omega arith) (omega arith)

-- The node's information was sent a minute ago.
abbrev lately : World
lately = record the_world {
  client = record the_client_state { node_info_send_cache = (bridge_node, 49 * minute) ∷ [] };
}

lately-ArePast : ArePast lately.now lately.client.node_info_send_cache
lately-ArePast node at found = ground (arith, nat_beq_iff bridge_node node)

node_info_is_never_held_back_example :
    (send_node_info the_libraries bridge_node 7 (codes "Bridge") (codes "BRDG") false [] lately
      ≡ send_user the_libraries bridge_node 7 (codes "Bridge") (codes "BRDG") false [] lately)
    × ArePast lately.now
        (send_node_info the_libraries bridge_node 7
          (codes "Bridge")
          (codes "BRDG")
          false
          []
          lately).1.client.node_info_send_cache
node_info_is_never_held_back_example =
    node_info_is_never_held_back the_libraries bridge_node 7 (codes "Bridge") (codes "BRDG") false
      [] lately lately-ArePast (omega arith) (omega arith)
