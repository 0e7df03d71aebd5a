-- ===== src/Tests/Bridging.antt =====
-- The bridge at concrete values (pkg/connector).
use matrix_meshtastic.Prelude.{
  ◌*◌, ◌≡◌, refl, arith, true, [], ◌∷◌, ◌++◌, map, take, length, filter_by, inl, none, some, codes,
  ok, nat_beq, if◌then◌else◌,
}
use matrix_meshtastic.MeshId.Ids.{
  mxid_to_node_id, make_user_id, node_string, make_dm_portal_id, make_message_id,
}
use matrix_meshtastic.Golang.Crc32.{checksum_ieee}
use matrix_meshtastic.Mesh.Send.{send_bytes, send_proto_message, next_packet_id}
use matrix_meshtastic.Mesh.Outgoing.{send_message}
use matrix_meshtastic.Mesh.Events.{Event}
use matrix_meshtastic.Bridge.Database.{
  MeshNodeInfo, get_direct_neighbors, get_by_node_id, find_node, find_waypoint, admits_node,
}
use matrix_meshtastic.MeshId.Ids.RoundTrip.{parse_dm_portal_id-make_dm_portal_id}
use matrix_meshtastic.Bridge.Hub.{Hub, dm_room, ◌>>=◌, left_room}
use matrix_meshtastic.Bridge.Managed.{is_managed_node}
use matrix_meshtastic.Bridge.Managed.Coherence.{
  base_of, IsCoherent, Answered, is_managed_node-Answered,
}
use matrix_meshtastic.Bridge.Keys.{get_ghost_public_key, get_ghost_private_key}
use matrix_meshtastic.Bridge.Keys.Laws.{
  IsReady, with_pair, public_key_settles, private_key_is_public_at_first,
}
use matrix_meshtastic.Bridge.FromMesh.{handle_global_mesh_event, handle_mesh_waypoint}
use matrix_meshtastic.Bridge.FromMesh.Secrets.{HasSecrets}
use matrix_meshtastic.Bridge.FromMesh.Discreet.{secrets_are_kept}
use matrix_meshtastic.Bridge.FromMesh.Waypoints.{locked_waypoint_stays}
use matrix_meshtastic.Bridge.FromMesh.Waypoints.Storing.{expected, handle_mesh_waypoint_lem}
use matrix_meshtastic.Bridge.FromMatrix.{MatrixMessage, text, sent_as, handle_matrix_message}
use matrix_meshtastic.Bridge.FromMatrix.Direct.{message_to_unknown_node_panics}
use matrix_meshtastic.Bridge.FromMatrix.Replies.{IsDelivered, replying, reply_finds_message}
use matrix_meshtastic.Bridge.ToMatrix.{Login, make_dm_portal_key, portal_of, reply_target}
use matrix_meshtastic.Bridge.Cleanup.{day, cleanup_portal_inactive_members}
use matrix_meshtastic.Bridge.Cleanup.Reference.{IsSteady, should_leave, leave_in_order}
use matrix_meshtastic.Bridge.Cleanup.Removal.{cleanup_portal_removes}
use matrix_meshtastic.Bridge.Periodic.{fresh_prefix, sort_recent, send_periodic_neighbor_info}
use matrix_meshtastic.Bridge.Periodic.Listed.{was_heard, IsNewestFirst, recent_neighbors_are_told}
use matrix_meshtastic.Mesh.Reports.Laws.{is_tellable, neighbor_of, neighbors_packet}
use matrix_meshtastic.External.{neighbor_info_message}
use mathlib.Core.List.{Perm}
use matrix_meshtastic.Tests.Hubs.{
  the_outside, remote_row, own_row, locked_waypoint, the_hub, direct_message, node_info,
  moved_waypoint, channel_portal,
}

the_hub-IsCoherent : IsCoherent the_outside the_hub
the_hub-IsCoherent = record { agrees = λ node v e. cc }

is_managed_node-Answered_example :
    Answered the_outside the_hub 0x2000 (is_managed_node the_outside 0x2000 the_hub)
is_managed_node-Answered_example =
    is_managed_node-Answered the_outside the_hub 0x2000 the_hub-IsCoherent

secrets_are_kept_example :
    HasSecrets own_row 0x3000
      (handle_global_mesh_event the_outside (Event.node_info node_info) the_hub).1.tables.nodes
unfolding find_node
secrets_are_kept_example =
    secrets_are_kept the_outside (Event.node_info node_info) the_hub 0x3000 own_row refl refl

locked_waypoint_stays_example :
    (handle_mesh_waypoint the_outside moved_waypoint the_hub).1.tables.waypoints
    ≡ the_hub.tables.waypoints
unfolding find_waypoint
locked_waypoint_stays_example =
    locked_waypoint_stays the_outside moved_waypoint the_hub locked_waypoint 0x3000 refl refl
      (λ e. absurd (omega arith)) refl

handle_mesh_waypoint_lem_example :
    find_waypoint 9 (handle_mesh_waypoint the_outside moved_waypoint the_hub).1.tables.waypoints
    ≡ expected moved_waypoint 9 the_hub.tables.waypoints
unfolding admits_node find_node
handle_mesh_waypoint_lem_example =
    handle_mesh_waypoint_lem the_outside moved_waypoint the_hub 9 refl refl refl (inl refl)

own_row-IsReady : IsReady the_outside 0x3000 own_row (1 ∷ 0 ∷ []) (2 ∷ 0 ∷ []) the_hub
unfolding find_node admits_node
own_row-IsReady = record {
  quiet = refl;
  stored = refl;
  managed = refl;
  made = refl;
  admitted = refl;
}

public_key_settles_example :
    let after = with_pair own_row (1 ∷ 0 ∷ []) (2 ∷ 0 ∷ []) the_hub in
    (get_ghost_public_key the_outside 0x3000 the_hub ≡ (some (ok (1 ∷ 0 ∷ [])), after))
    × (get_ghost_public_key the_outside 0x3000 after ≡ (some (ok (1 ∷ 0 ∷ [])), after))
    × (get_ghost_private_key the_outside 0x3000 after ≡ (some (ok (2 ∷ 0 ∷ [])), after))
public_key_settles_example =
    public_key_settles the_outside 0x3000 own_row 1 2 (0 ∷ []) (0 ∷ []) the_hub own_row-IsReady refl

private_key_is_public_at_first_example :
    let after = with_pair own_row (1 ∷ 0 ∷ []) (2 ∷ 0 ∷ []) the_hub in
    (get_ghost_private_key the_outside 0x3000 the_hub ≡ (some (ok (1 ∷ 0 ∷ [])), after))
    × (get_ghost_private_key the_outside 0x3000 after ≡ (some (ok (2 ∷ 0 ∷ [])), after))
private_key_is_public_at_first_example =
    private_key_is_public_at_first the_outside 0x3000 own_row 2 (1 ∷ 0 ∷ []) (0 ∷ []) the_hub
      own_row-IsReady refl

-- The node 0x2000 was heard directly, at 100 seconds.
abbrev near_hub : Hub
near_hub = record the_hub {
  tables = record the_hub.tables { nodes = record remote_row { is_direct = true } ∷ own_row ∷ [] };
}

recent_neighbors_are_told_example :
    let rows = record remote_row { is_direct = true } ∷ [] in
    let recents = fresh_prefix near_hub.world.now (sort_recent rows) in
    let ids = map (λ (row : MeshNodeInfo). row.node_id) recents in
    let base = base_of the_outside near_hub in
    let r = send_periodic_neighbor_info the_outside near_hub in
    Perm recents (filter_by (was_heard near_hub.world.now) rows)
    × IsNewestFirst recents
    × (r.0 ≡ some tt)
    × (r.1.world
        ≡ (send_proto_message the_outside.lib near_hub.world.client.primary_channel
            (neighbor_info_message (record {
              node_id = base;
              neighbors = take 10 (map neighbor_of (filter_by (is_tellable base) ids));
              last_sent_by_id = base;
              node_broadcast_interval_secs = 43231;
            }))
            (neighbors_packet base)
            near_hub.world).1)
unfolding get_direct_neighbors
recent_neighbors_are_told_example =
    recent_neighbors_are_told the_outside near_hub (record remote_row { is_direct = true } ∷ [])
      refl

the_outside-IsSteady : IsSteady the_outside
the_outside-IsSteady = record {
  ghosts = λ calls m r id. refl;
  messages = λ calls m r key id. refl;
  reactions = λ calls m r key id. refl;
}

cleanup_portal_removes_example :
    let members = codes "@g:h" ∷ codes "@u:h" ∷ [] in
    let inactive =
      filter_by (should_leave the_outside (60 * day) (30 * day) channel_portal the_hub) members in
    let leavers = leave_in_order the_outside channel_portal.mxid the_hub.calls inactive in
    let r =
      cleanup_portal_inactive_members the_outside (60 * day) (30 * day) channel_portal the_hub in
    (r.0 ≡ some (ok (length leavers)))
    × (r.1.calls ≡ the_hub.calls ++ map (λ member. left_room member channel_portal.mxid) leavers)
cleanup_portal_removes_example =
    cleanup_portal_removes the_outside (60 * day) (30 * day) channel_portal the_hub
      (codes "@g:h" ∷ codes "@u:h" ∷ []) the_outside-IsSteady the_hub-IsCoherent refl refl

abbrev the_login : Login
the_login = record { id = codes "login"; node = some 0x3000 }

abbrev answer_text : MatrixMessage
answer_text = record {
  sender = codes "@u:h";
  sender_is_known = true;
  portal_id = (portal_of the_outside the_login true direct_message.event).id;
  room_type = dm_room;
  content = text (codes "hello");
  reply_to = none;
  timestamp = 2_900_000;
}

message_to_unknown_node_panics_example :
    (handle_matrix_message the_outside
      (record answer_text { portal_id = make_dm_portal_id 7 0x3000 })
      the_hub).0
    ≡ none
unfolding find_node
message_to_unknown_node_panics_example =
    message_to_unknown_node_panics the_outside 7 0x3000
      (record answer_text { portal_id = make_dm_portal_id 7 0x3000 }) the_hub refl refl refl refl
      (parse_dm_portal_id-make_dm_portal_id 7 0x3000 (omega arith) (omega arith))

answer_text_is_sent :
    (handle_matrix_message the_outside answer_text the_hub).0
    ≡ some (
        sent_as
          (make_message_id (node_string 0x2000) 79_950)
          (make_user_id (mxid_to_node_id (codes "@u:h"))))
unfolding handle_matrix_message make_dm_portal_key ◌>>=◌ get_by_node_id get_ghost_public_key
    find_node send_message send_bytes next_packet_id mxid_to_node_id checksum_ieee
answer_text_is_sent =
    rw (parse_dm_portal_id-make_dm_portal_id 0x2000 0x3000 (omega arith) (omega arith)) refl

reply_finds_message_example :
    let id = make_message_id (node_string 0x2000) 79_950 in
    (d : IsDelivered the_outside answer_text
      (codes "hello")
      0x2000
      id
      the_hub.world
      (handle_matrix_message the_outside answer_text the_hub).1.world)
    × (reply_target (replying 0x2000 d.packet_id direct_message)
        ≡ (if nat_beq d.packet_id 0 then none else some id))
reply_finds_message_example =
    reply_finds_message the_outside the_login direct_message direct_message answer_text
      (codes "hello") (make_message_id (node_string 0x2000) 79_950)
      (make_user_id (mxid_to_node_id (codes "@u:h"))) the_hub (omega arith) (omega arith) refl refl
      refl refl answer_text_is_sent
