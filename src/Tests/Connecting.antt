-- ===== src/Tests/Connecting.antt =====
-- Connecting and joining channels at concrete values (pkg/mesh/mesh_client.go).
use matrix_meshtastic.Prelude.{
  ◌≤◌, ◌<◌, ◌≡◌, ◌⊎◌, ◌↔◌, refl, true, false, [], some, codes, arith, length, is_some, All,
}
use matrix_meshtastic.MeshId.Ids.{max_hops}
use matrix_meshtastic.Mesh.World.{ChannelRef, World}
use matrix_meshtastic.Mesh.Send.{send_bytes}
use matrix_meshtastic.Mesh.Send.Delivery.{Silent, Transmission}
use matrix_meshtastic.Mesh.Connection.{connect, set_hop_limit, add_channel_def, same_name}
use matrix_meshtastic.Mesh.Connection.Laws.{FailsToStart, connect_fails_iff, sent_hops_fit}
use matrix_meshtastic.Mesh.Connection.Joining.{IsTold, times_told, add_channel_def-IsTold}
use matrix_meshtastic.Tests.Fixture.{
  the_libraries, long_fast, the_client_state, the_world, text_info,
}

connect_fails_iff_example : (is_some (connect the_world).0 ≡ true) ↔ (
    (is_some the_world.client.primary_channel ≡ false)
    ⊎ ((0 < length the_world.client.mesh_connectors)
        × All FailsToStart the_world.client.mesh_connectors))
connect_fails_iff_example = connect_fails_iff the_world

sent_hops_fit_example :
    let w' = (set_hop_limit 6 the_world).1 in
    let r = send_bytes the_libraries (some long_fast) (codes "hi") text_info w' in
    Silent w' r
    ⊎ ((t : Transmission the_libraries (codes "hi") text_info w' r) × (t.packet.hop_limit
          < max_hops)
        × (t.packet.hop_start ≤ max_hops))
sent_hops_fit_example =
    sent_hops_fit the_libraries (some long_fast) (codes "hi") text_info 6 the_world (omega arith)

-- A client that has joined no channel yet.
abbrev channelless : World
channelless = record the_world { client = record the_client_state { channels = [] } }

abbrev new_channel : ChannelRef
new_channel = record { address = 1; channel = long_fast }

channelless-IsTold : IsTold channelless
unfolding IsTold same_name times_told
channelless-IsTold ident name = refl

add_channel_def-IsTold_example : IsTold (add_channel_def new_channel channelless).1
add_channel_def-IsTold_example = add_channel_def-IsTold new_channel channelless channelless-IsTold
