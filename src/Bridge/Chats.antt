-- ===== src/Bridge/Chats.antt =====
-- What the connector tells the bridge framework of rooms and users (pkg/connector/chatinfo.go, and
-- `IsThisUser`, `GetChatInfo`, `GetUserInfo` and `ResolveIdentifier` of pkg/connector/client.go).
pub mod Agreement
use matrix_meshtastic.Prelude.{
  ℕ, Bool, true, false, List, [], ◌∷◌, ◌++◌, ◌⊎◌, inl, inr, Option, none, some, Bytes, codes, Error,
  Result, ok, err, bytes_beq, bytes_eq, insert, if◌then◌else◌,
}
use matrix_meshtastic.MeshId.Ids.{
  NodeId, IdError, node_string, make_user_id, make_user_login_id, mxid_to_node_id, parse_node_id,
  parse_user_id, parse_portal_id, parse_dm_portal_id,
}
use matrix_meshtastic.MeshId.Node.{get_default_node_names}
use matrix_meshtastic.Bridge.Database.{MeshNodeInfo, get_by_node_id}
use matrix_meshtastic.Bridge.Hub.{
  Outside, Ghost, PortalKey, RoomType, default_room, dm_room, EventSender, Task, ◌>>=◌, return,
  panic, query, ask, ghost_by_id,
}
use matrix_meshtastic.Bridge.Ghosts.{set_dm_names}
use matrix_meshtastic.Bridge.ToMatrix.{Login, make_dm_portal_key, make_event_sender}

pub record ChatInfo : Type 0 where
  pub name : Option Bytes
  pub topic : Bytes
  pub room_type : RoomType
  pub is_full : Bool
  pub total_member_count : ℕ
  pub other_user_id : Bytes
  pub member_map : List (Bytes × EventSender)

-- The names and the topic of a channel, as they are: U+1F513 and U+26A0 U+FE0F.
abbrev pub wrap_chat_info : Option Bytes → Bytes → Bytes → ChatInfo
wrap_chat_info user channel key = record {
  name =
      some
        (if bytes_beq key [] then channel ++ (b' ' ∷ 0xf0 ∷ 0x9f ∷ 0x94 ∷ 0x93 ∷ []) else channel);
  topic =
      if bytes_beq key []
      then codes "Shared Key: " ++ key
      else 0xe2 ∷ 0x9a ∷ 0xa0 ∷ 0xef ∷ 0xb8 ∷ 0x8f ∷ codes " Unencrypted";
  room_type = default_room;
  is_full = false;
  total_member_count = 0;
  other_user_id = [];
  member_map = elim user [
    | none ↦ []
    | some mxid ↦
        let node = mxid_to_node_id mxid in
        (
          make_user_id node,
          record {
            is_from_me = false;
            sender = make_user_id node;
            sender_login = make_user_login_id node;
          },
        )
        ∷ []
  ];
}

pub record ResolvedIdentifier : Type 0 where
  pub ghost : Ghost
  pub user_id : Bytes
  pub portal_key : PortalKey
  pub portal_info : ChatInfo

-- A type assertion on the metadata panics.
abbrev is_user : Option NodeId → Bytes → Task Bool
is_user none user_id = panic
is_user (some node) user_id = return (bytes_beq (make_user_id node) user_id)

unfoldable pub is_this_user : Login → Bytes → Task Bool
is_this_user l user_id = is_user l.node user_id

abbrev long_or_default : NodeId → Result (Option MeshNodeInfo) → Result Bytes
long_or_default node (err e) = err e
long_or_default node (ok none) = ok (get_default_node_names node).0
long_or_default node (ok (some row)) =
    if bytes_beq row.long_name [] then ok (get_default_node_names node).0 else ok row.long_name

abbrev user_of_node : NodeId × Option IdError → Task (Result Bytes ⊎ IdError)
user_of_node (node, some e) = return (inr e)
user_of_node (node, none) = do
  found ← query (get_by_node_id node)
  return (inl (long_or_default node found))

-- `GetUserInfo`: the name of a ghost.
unfoldable pub get_user_info : Bytes → Task (Result Bytes ⊎ IdError)
get_user_info ghost_id = user_of_node (parse_user_id ghost_id)

module _ (o : Outside) where
  abbrev pub name_by_ghost : Result (Option Ghost) → Task (Option Bytes)
  name_by_ghost (ok (some ghost)) = set_dm_names o ghost
  name_by_ghost (ok none) = return none
  name_by_ghost (err e) = return none

  abbrev pub dm_info : NodeId → NodeId → EventSender → EventSender → Option Bytes → ChatInfo
  dm_info synth remote theirs mine name = record {
    name = name;
    topic = codes "Meshtastic node " ++ node_string remote;
    room_type = dm_room;
    is_full = true;
    total_member_count = 2;
    other_user_id = make_user_id remote;
    member_map = insert (make_user_id synth) mine (insert (make_user_id remote) theirs []);
  }

  unfoldable pub wrap_dm_info : Login → NodeId → NodeId → Task ChatInfo
  unfolding make_event_sender
  wrap_dm_info l synth remote = do
    theirs ← make_event_sender l remote
    mine ← make_event_sender l synth
    ghost ← ask λ calls. o.get_existing_ghost_by_id calls (make_user_id remote)
    name ← name_by_ghost ghost
    return (dm_info synth remote theirs mine name)

  -- The room of a channel, or both errors.
  abbrev channel_info :
      IdError → Bytes × Bytes × Option IdError → Task (ChatInfo ⊎ IdError × IdError)
  channel_info e (name, key, some e') = return (inr (e, e'))
  channel_info e (name, key, none) = return (inl (wrap_chat_info none name key))

  abbrev pub room_info :
      Login → Bytes → NodeId × NodeId × Option IdError → Task (ChatInfo ⊎ IdError × IdError)
  room_info l portal_id (remote, synth, none) = do
    info ← wrap_dm_info l synth remote
    return (inl info)
  room_info l portal_id (remote, synth, some e) = channel_info e (parse_portal_id portal_id)

  -- The type of the room, which the portal gets too, is that of the info.
  unfoldable pub get_chat_info : Login → Bytes → Task (ChatInfo ⊎ IdError × IdError)
  get_chat_info l portal_id = room_info l portal_id (parse_dm_portal_id portal_id)

  abbrev pub resolved :
      Login → NodeId → NodeId → Result Ghost → Task (Result ResolvedIdentifier ⊎ IdError)
  resolved l mine remote (err e) = return (inl (err e))
  resolved l mine remote (ok ghost) = do
    info ← wrap_dm_info l mine remote
    return (
        inl (
          ok (record {
            ghost = ghost;
            user_id = make_user_id remote;
            portal_key = make_dm_portal_key l remote mine;
            portal_info = info;
          })))

  abbrev pub resolve_node :
      Login → NodeId → NodeId × Option IdError → Task (Result ResolvedIdentifier ⊎ IdError)
  resolve_node l mine (remote, some e) = return (inr e)
  resolve_node l mine (remote, none) = do
    ghost ← ghost_by_id o (make_user_id remote)
    resolved l mine remote ghost

  -- `user_mxid`: the Matrix user of the login.
  unfoldable pub resolve_identifier :
      Login → Bytes → Bytes → Task (Result ResolvedIdentifier ⊎ IdError)
  resolve_identifier l user_mxid identifier =
      resolve_node l (mxid_to_node_id user_mxid) (parse_node_id identifier)
