-- ===== src/Bridge/Joining.antt =====
-- The command that joins a channel (`fnJoinChannel` of pkg/connector/commands.go and `joinChannel` of
-- pkg/connector/handle_meshtastic.go).
use matrix_meshtastic.Prelude.{
  ℕ, Bool, List, [], ◌∷◌, Option, none, some, Bytes, Error, Result, ok, err, if◌then◌else◌,
}
use matrix_meshtastic.MeshId.Channel.{ChannelDef, get_key_string, new_channel_def}
use matrix_meshtastic.Mesh.Connection.{is_connected, add_channel_def}
use matrix_meshtastic.Bridge.Hub.{
  Outside, PortalKey, BridgeCall, room_created, Task, ◌>>=◌, ◌>>◌, return, mesh, ask, tell,
}
use matrix_meshtastic.Bridge.ToMatrix.{Login, make_portal_key}
use matrix_meshtastic.Bridge.Chats.{ChatInfo, wrap_chat_info}

pub data JoinReply : Type 0 where
  join_usage login_not_found not_logged_in joined_channel : JoinReply
  join_failed : Error → JoinReply

-- `IsLoggedIn` of a login asks the client.
unfoldable pub is_logged_in : Task Bool
unfolding is_connected
is_logged_in h = (some (is_connected h.world.client), h)

-- `get_portal_by_key` and `create_matrix_room` are the framework's.
module _ (o : Outside) (get_portal_by_key : List BridgeCall → PortalKey → Result PortalKey)
    (create_matrix_room : List BridgeCall → PortalKey → ChatInfo → Option Error) where
  abbrev create_in : Login → ChatInfo → Result PortalKey → Task (Option Error)
  create_in l info (err e) = return (some e)
  create_in l info (ok key) = do
    e ← ask λ calls. create_matrix_room calls key info
    tell (room_created l.id key info.name info.topic)
    return e

  unfoldable pub join_channel_portal : Login → Bytes → Bytes → Bytes → Task (Option Error)
  unfolding make_portal_key
  join_channel_portal l user_mxid name key = do
    portal ← ask λ calls. get_portal_by_key calls (make_portal_key o l name (some key))
    create_in l (wrap_chat_info (some user_mxid) name key) portal

  abbrev joined_or : Option Error → JoinReply
  joined_or none = joined_channel
  joined_or (some e) = join_failed e

  abbrev join_with : ℕ → Login → Bytes → Bytes → Result ChannelDef → Task JoinReply
  join_with address l user_mxid name (err e) = return (join_failed e)
  join_with address l user_mxid name (ok channel) = do
    mesh (add_channel_def (record { address = address; channel = channel }))
    e ← join_channel_portal l user_mxid name (get_key_string channel)
    return (joined_or e)

  abbrev join_as : ℕ → Bytes → Bytes → Bytes → Option Login → Task JoinReply
  join_as address user_mxid name key none = return login_not_found
  join_as address user_mxid name key (some l) = do
    connected ← is_logged_in
    if connected
        then join_with address l user_mxid name (new_channel_def o.lib.radio name (some key))
        else return not_logged_in

  -- `address`: that of the definition that is made; the login is the user's default one.
  unfoldable pub fn_join_channel : ℕ → Bytes → Option Login → List Bytes → Task JoinReply
  unfolding is_logged_in join_channel_portal
  fn_join_channel address user_mxid login (name ∷ key ∷ []) =
      join_as address user_mxid name key login
  fn_join_channel address user_mxid login _ = return join_usage
