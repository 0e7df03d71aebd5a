-- ===== src/Bridge/FromMatrix.antt =====
-- The handlers of Matrix messages and reactions (pkg/connector/handle_matrix.go). What the framework
-- says of a message and the conversion of its text are fields of the message.
pub mod Direct
pub mod Replies
use matrix_meshtastic.Prelude.{
  ℕ, ◌*◌, Bool, true, false, [], ◌∷◌, Option, none, some, Bytes, Error, unsupported_message,
  node_is_unmessagable, unsupported_room_type, Result, ok, err, ◌⊎◌, inl, inr, if◌then◌else◌,
}
use matrix_meshtastic.MeshId.Ids.{
  NodeId, IdError, broadcast_id, node_string, mxid_to_node_id, make_user_id, make_message_id,
  parse_user_id, parse_message_id, parse_dm_portal_id,
}
use matrix_meshtastic.MeshId.Channel.{ChannelDef, channel_def_from_portal_id}
use matrix_meshtastic.Mesh.Events.{Location}
use matrix_meshtastic.Mesh.Outgoing.{send_message, send_reaction}
use matrix_meshtastic.Mesh.Reports.{send_position}
use matrix_meshtastic.Bridge.Database.{MeshNodeInfo, get_by_node_id}
use matrix_meshtastic.Bridge.Hub.{
  Outside, RoomType, default_room, dm_room, other_room, Hub, Task, ◌>>=◌, ◌>>◌, return, mesh, query,
}
use matrix_meshtastic.Bridge.Keys.{get_ghost_public_key}

pub data Content : Type 0 where
  text : Bytes → Content  -- a text, notice or emote, as `ToMeshtastic` renders it
  location : Result Location → Content  -- what `ParseGeoURI` reads
  other_content : Content

pub record MatrixMessage : Type 0 where
  pub sender : Bytes
  pub sender_is_known : Bool  -- `GetExistingUserByMXID` has no error
  pub portal_id : Bytes
  pub room_type : RoomType
  pub content : Content
  pub reply_to : Option Bytes
  pub timestamp : ℕ  -- milliseconds

pub record MatrixReaction : Type 0 where
  pub sender_id : Bytes  -- of the answer of `PreHandleMatrixReaction`
  pub emoji : Bytes
  pub target_message : Bytes
  pub portal_id : Bytes
  pub room_type : RoomType

pub data Outcome : Type 0 where
  ignored : Outcome
  failed : Error → Outcome
  failed_id : IdError → Outcome
  sent_as : Bytes → Bytes → Outcome  -- the ID of the message and that of its sender
  reacted : Outcome

-- Where a message goes: the channel, the node, whether with its public key, and what stands for the
-- conversation in the message's ID.
pub record Target : Type 0 where
  pub channel : Option ChannelDef
  pub node : NodeId
  pub use_pki : Bool
  pub conversation : Bytes

abbrev pub primary : Task (Option ChannelDef)
primary h = (some h.world.client.primary_channel, h)

abbrev pub has_key : Result Bytes → Bool
has_key (ok (b ∷ key)) = true
has_key _ = false

abbrev pub refuses : Result (Option MeshNodeInfo) → Bool
refuses (ok (some row)) = row.is_unmessagable
refuses _ = false

abbrev channel_target : Result ChannelDef ⊎ IdError → Option Target
channel_target (inl (ok channel)) = some (record {
  channel = some channel;
  node = broadcast_id;
  use_pki = false;
  conversation = channel.name;
})
channel_target _ = none

abbrev pub reply_id_of : Option Bytes → ℕ
reply_id_of none = 0
reply_id_of (some message_id) = let (sender, id, e) = parse_message_id message_id in id

abbrev pub stored : Target → NodeId → ℕ × Option Error → Outcome
stored target from (packet_id, some e) = failed e
stored target from (packet_id, none) =
    sent_as (make_message_id target.conversation packet_id) (make_user_id from)

abbrev reaction_sent : ℕ × Option Error → Outcome
reaction_sent (packet_id, some e) = failed e
reaction_sent (packet_id, none) = reacted

module _ (o : Outside) where
  abbrev pub dm_target : NodeId × NodeId × Option IdError → Task (Option Target)
  dm_target (node, synth, some e) = return none
  dm_target (node, synth, none) = do
    channel ← primary
    row ← query (get_by_node_id node)
    key ← get_ghost_public_key o node
    return (
        if refuses row
        then none
        else some (record {
          channel = channel;
          node = node;
          use_pki = has_key key;
          conversation = node_string node;
        }))

  unfoldable pub target_in : RoomType → Bytes → Task (Option Target)
  unfolding get_ghost_public_key
  target_in default_room portal_id =
      return (channel_target (channel_def_from_portal_id o.lib.radio portal_id))
  target_in dm_room portal_id = dm_target (parse_dm_portal_id portal_id)
  target_in other_room portal_id = return none

  abbrev pub send_content : NodeId → MatrixMessage → Content → Target → Task Outcome
  send_content from msg (text s) target = do
    r ← mesh (
        send_message o.lib from target.node target.channel s (reply_id_of msg.reply_to)
          target.use_pki)
    return (stored target from r)
  send_content from msg (location (err e)) target = return (failed e)
  send_content from msg (location (ok place)) target = do
    r ← mesh (send_position o.lib from target.node place (msg.timestamp * 1_000_000))
    return (stored target from r)
  send_content from msg other_content target = return (failed unsupported_message)

  abbrev pub send_to : MatrixMessage → Option Target → Task Outcome
  send_to msg none = return ignored
  send_to msg (some target) = send_content (mxid_to_node_id msg.sender) msg msg.content target

  unfoldable pub handle_matrix_message : MatrixMessage → Task Outcome
  unfolding target_in
  handle_matrix_message msg =
      if msg.sender_is_known
      then (do target ← target_in msg.room_type msg.portal_id; send_to msg target)
      else return ignored

  abbrev react_from :
      MatrixReaction
      → ℕ
      → NodeId
      → Bool
      → Option ChannelDef
      → NodeId × Option IdError
      → Task Outcome
  react_from msg packet_id to use_pki channel (from, some e) = return (failed_id e)
  react_from msg packet_id to use_pki channel (from, none) = do
    r ← mesh (send_reaction o.lib from to channel packet_id msg.emoji use_pki)
    return (reaction_sent r)

  abbrev react_on_channel : MatrixReaction → ℕ → Result ChannelDef ⊎ IdError → Task Outcome
  react_on_channel msg packet_id (inl (ok channel)) =
      react_from msg packet_id broadcast_id false (some channel) (parse_user_id msg.sender_id)
  react_on_channel msg packet_id (inl (err e)) = return (failed e)
  react_on_channel msg packet_id (inr e) = return (failed_id e)

  -- The key is asked for before the error is looked at.
  abbrev react_on_dm : MatrixReaction → ℕ → NodeId × NodeId × Option IdError → Task Outcome
  react_on_dm msg packet_id (node, synth, e) = do
    channel ← primary
    key ← get_ghost_public_key o node
    elim e [
      | some x ↦ return (failed_id x)
      | none ↦ react_from msg packet_id node (has_key key) channel (parse_user_id msg.sender_id)
    ]

  abbrev react_in : MatrixReaction → ℕ → RoomType → Task Outcome
  react_in msg packet_id default_room =
      react_on_channel msg packet_id (channel_def_from_portal_id o.lib.radio msg.portal_id)
  react_in msg packet_id dm_room = react_on_dm msg packet_id (parse_dm_portal_id msg.portal_id)
  react_in msg packet_id other_room = return (failed unsupported_room_type)

  abbrev react : MatrixReaction → Bytes × ℕ × Option IdError → Task Outcome
  react msg (sender, packet_id, some e) = return (failed_id e)
  react msg (sender, packet_id, none) = react_in msg packet_id msg.room_type

  unfoldable pub handle_matrix_reaction : MatrixReaction → Task Outcome
  unfolding get_ghost_public_key
  handle_matrix_reaction msg = react msg (parse_message_id msg.target_message)
