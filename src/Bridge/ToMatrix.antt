-- ===== src/Bridge/ToMatrix.antt =====
-- The handlers of messages and reactions from the mesh for one login (`handleMeshMessage`,
-- `handleMeshReaction` and the reply of `convertMessageEvent` in pkg/connector/handle_meshtastic.go), and
-- the keys of portals (pkg/connector/client.go).
use matrix_meshtastic.Prelude.{
  Bool, true, false, not, ◌&&◌, List, [], Option, none, some, Bytes, Result, ok, err, contains,
  bytes_eq, nat_beq, if◌then◌else◌,
}
use matrix_meshtastic.MeshId.Ids.{
  NodeId, node_string, make_user_id, make_user_login_id, make_portal_id, make_dm_portal_id,
  make_message_id,
}
use matrix_meshtastic.Mesh.Events.{MeshEvent, MeshMessageEvent, MeshReactionEvent, Event}
use matrix_meshtastic.Mesh.Reports.{send_ack}
use matrix_meshtastic.Bridge.Database.{set_last_seen}
use matrix_meshtastic.Bridge.Hub.{
  Outside, PortalKey, default_room, dm_room, EventSender, remote_message, remote_reaction, queued,
  Task, ◌>>=◌, ◌>>◌, return, skip, panic, mesh, query, ask, tell, now_seconds,
}
use matrix_meshtastic.Bridge.Managed.{get_base_node_id}
use matrix_meshtastic.Bridge.Ghosts.{get_remote_ghost}

-- A login: its node is none when the metadata is not a `UserLoginMetadata`.
pub record Login : Type 0 where
  pub id : Bytes
  pub node : Option NodeId

abbrev pub is_node_of : Option NodeId → NodeId → Bool
is_node_of none to = false
is_node_of (some node) to = nat_beq node to

unfoldable pub make_dm_portal_key : Login → NodeId → NodeId → PortalKey
make_dm_portal_key l remote synth = record { id = make_dm_portal_id remote synth; receiver = l.id }

-- The type assertion on the metadata panics.
abbrev sender_of : Option NodeId → NodeId → Task EventSender
sender_of none sender = panic
sender_of (some node) sender = return (record {
  is_from_me = nat_beq node sender;
  sender = make_user_id sender;
  sender_login = make_user_login_id sender;
})

unfoldable pub make_event_sender : Login → NodeId → Task EventSender
make_event_sender l sender = sender_of l.node sender

-- What stands for the conversation in the IDs of its messages.
abbrev pub mess_id_sender : Bool → MeshEvent → Bytes
mess_id_sender is_dm evt = if is_dm then node_string evt.from else evt.channel_name

-- `ReplyTo` of a converted message.
unfoldable pub reply_target : MeshMessageEvent → Option Bytes
reply_target evt =
    if nat_beq evt.reply_id 0
    then none
    else some (make_message_id (mess_id_sender evt.is_dm evt.event) evt.reply_id)

module _ (o : Outside) where
  unfoldable pub make_portal_key : Login → Bytes → Option Bytes → PortalKey
  make_portal_key l channel key = record {
    id = make_portal_id channel key;
    receiver = if o.split_portals then l.id else [];
  }

  abbrev pub portal_of : Login → Bool → MeshEvent → PortalKey
  portal_of l is_dm evt =
      if is_dm
      then make_dm_portal_key l evt.from evt.to
      else make_portal_key l evt.channel_name evt.channel_key

  -- A direct message is acknowledged by its receiver, another one by the bridge.
  acknowledge_event : Bool → MeshEvent → Task (Unit {0})
  unfolding get_base_node_id
  acknowledge_event is_dm evt =
      if evt.want_ack
      then if is_dm
        then (do mesh (send_ack o.lib evt.to evt.from evt.packet_id); skip)
        else (do base ← get_base_node_id o; mesh (send_ack o.lib base evt.from evt.packet_id); skip)
      else skip

  abbrev when_member : Bytes → Result (List Bytes) → Task (Unit {0}) → Task (Unit {0})
  when_member login (err e) m = skip
  when_member login (ok logins) m = if contains logins login then m else skip

  -- A channel's events are for the logins in its portal.
  for_login : Login → Bool → PortalKey → Task (Unit {0}) → Task (Unit {0})
  for_login l is_dm key m = if is_dm then m else (do
    logins ← ask λ calls. o.get_user_logins_in_portal calls key
    when_member l.id logins m)

  abbrev note_sender : MeshEvent → Task (Unit {0})
  note_sender evt = do now ← now_seconds; query (set_last_seen evt.from evt.is_neighbor now); skip

  queue_message : Login → MeshMessageEvent → Task (Unit {0})
  unfolding make_event_sender set_last_seen
  queue_message l evt = do
    sender ← make_event_sender l evt.event.from
    tell (
        queued l.id (
          remote_message (portal_of l evt.is_dm evt.event)
            (if evt.is_dm then dm_room else default_room) sender evt.event.timestamp
            (make_message_id (mess_id_sender evt.is_dm evt.event) evt.event.packet_id) evt))
    note_sender evt.event

  queue_reaction : Login → MeshReactionEvent → Task (Unit {0})
  unfolding make_event_sender set_last_seen
  queue_reaction l evt = do
    sender ← make_event_sender l evt.event.from
    note_sender evt.event
    tell (
        queued l.id (
          remote_reaction (portal_of l evt.is_dm evt.event) sender evt.event.timestamp evt.emoji
            (make_message_id (mess_id_sender evt.is_dm evt.event) evt.reply_id)))

  -- What messages and reactions have in common. A direct message to another node is not for the login.
  receive : Login → Bool → MeshEvent → Task (Unit {0}) → Task (Unit {0})
  unfolding get_remote_ghost acknowledge_event for_login
  receive l is_dm evt m = if is_dm && not (is_node_of l.node evt.to) then skip else (do
    get_remote_ghost o (make_user_id evt.from) true
    acknowledge_event is_dm evt
    for_login l is_dm (portal_of l is_dm evt) m)

  unfoldable pub handle_mesh_message : Login → MeshMessageEvent → Task (Unit {0})
  unfolding queue_message receive
  handle_mesh_message l evt = receive l evt.is_dm evt.event (queue_message l evt)

  unfoldable pub handle_mesh_reaction : Login → MeshReactionEvent → Task (Unit {0})
  unfolding queue_reaction receive
  handle_mesh_reaction l evt = receive l evt.is_dm evt.event (queue_reaction l evt)

  unfoldable pub handle_mesh_event : Login → Event → Task (Unit {0})
  unfolding handle_mesh_message handle_mesh_reaction
  handle_mesh_event l (Event.message evt) = handle_mesh_message l evt
  handle_mesh_event l (Event.reaction evt) = handle_mesh_reaction l evt
  handle_mesh_event l _ = skip
