-- ===== src/Tests/Receiving.antt =====
-- Received packets at concrete values (pkg/mesh/incoming_messages.go).
use matrix_meshtastic.Prelude.{◌*◌, ◌≡◌, refl, false, [], ◌∷◌, none, some, arith}
use matrix_meshtastic.MeshId.Channel.{get_key_string}
use matrix_meshtastic.Mesh.World.{minute}
use matrix_meshtastic.Mesh.Incoming.{
  is_duplicate_packet, get_channel_name_from_hash, try_decrypt_psk, handle_mesh_packet,
}
use matrix_meshtastic.Mesh.Incoming.Content.{mesh_event}
use matrix_meshtastic.Mesh.Incoming.Process.{process_message}
use matrix_meshtastic.Mesh.Incoming.Process.Events.{TellsOnce, process_message-TellsOnce}
use matrix_meshtastic.Mesh.Incoming.Keys.{NamedByHash, ReadWith, try_decrypt_psk-ReadWith}
use matrix_meshtastic.Mesh.Incoming.Replay.{Expires, arrivals, replay_is_dropped}
use matrix_meshtastic.Tests.Fixture.{
  two_hours, hello, set_key, the_libraries, the_client_state, the_world, text_packet,
}

set_key-Expires : Expires two_hours set_key
set_key-Expires cache key at other now = refl

is_new : is_duplicate_packet the_world.client text_packet.mesh_packet the_world.now ≡ false
unfolding is_duplicate_packet
is_new = refl

-- The packet arrives again an hour later, behind another one.
replay_is_dropped_example :
    let other = record text_packet { mesh_packet = record text_packet.mesh_packet { id = 6 } } in
    let later =
      record (arrivals the_libraries
        ((other, 60 * minute) ∷ [])
        (handle_mesh_packet the_libraries text_packet the_world).1) { now = 110 * minute } in
    handle_mesh_packet the_libraries text_packet later ≡ (tt, later)
replay_is_dropped_example =
    replay_is_dropped the_libraries two_hours set_key-Expires text_packet text_packet the_world
      ((record text_packet { mesh_packet = record text_packet.mesh_packet { id = 6 } }, 60 * minute)
        ∷ [])
      (110 * minute) is_new (omega arith, tt) (omega arith) (λ e. absurd (omega arith)) refl refl

process_message-TellsOnce_example :
    TellsOnce the_libraries text_packet hello
      (mesh_event text_packet hello the_world.now)
      the_world
      (process_message the_libraries text_packet (some hello) the_world).1
process_message-TellsOnce_example =
    process_message-TellsOnce the_libraries text_packet hello the_world (λ e. absurd (omega arith))
      refl

reads : (try_decrypt_psk the_libraries the_client_state text_packet).1 ≡ (some hello, none)
unfolding try_decrypt_psk get_key_string
reads = refl

try_decrypt_psk-ReadWith_example :
    let name =
      get_channel_name_from_hash the_libraries the_client_state.channels text_packet.channel in
    NamedByHash the_libraries name text_packet.channel the_client_state.channels
    × ReadWith the_libraries
        (record text_packet { channel_name = name })
        the_client_state.channels
        hello
        (try_decrypt_psk the_libraries the_client_state text_packet).0
try_decrypt_psk-ReadWith_example =
    try_decrypt_psk-ReadWith the_libraries the_client_state text_packet hello reads
