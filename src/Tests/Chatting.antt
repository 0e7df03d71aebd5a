-- ===== src/Tests/Chatting.antt =====
-- Logins and direct chats at concrete values (pkg/connector).
use matrix_meshtastic.Prelude.{
  false, List, Result, ◌≡◌, refl, arith, false, [], ◌∷◌, inl, none, some, Bytes, codes, ok,
}
use matrix_meshtastic.Golang.Crc32.{checksum_ieee, checksum_ieee-lt}
use matrix_meshtastic.Golang.Strconv.{format_08x}
use matrix_meshtastic.MeshId.Ids.{NodeId, mxid_to_node_id, make_user_id, node_string}
use matrix_meshtastic.MeshId.Ids.RoundTrip.{parse_user_id-make_user_id, parse_node_id-node_string}
use matrix_meshtastic.Bridge.Database.{MeshNodeInfo, find_node, admits_node}
use matrix_meshtastic.Bridge.Hub.{BridgeCall, got_ghost, Ghost}
use matrix_meshtastic.Bridge.Names.Stored.{IsNameable}
use matrix_meshtastic.Bridge.ToMatrix.{reply_target, Login, make_dm_portal_key}
use matrix_meshtastic.Bridge.Logins.{listening, connect_login, submit_user_input}
use matrix_meshtastic.Bridge.Logins.Connecting.{new_login_connects}
use matrix_meshtastic.Bridge.Chats.{ChatInfo, get_chat_info, resolve_identifier}
use matrix_meshtastic.Bridge.Chats.Agreement.{started_chat_is_its_room}
use matrix_meshtastic.Bridge.Database.Lookups.{find_short, get_by_short_user_id}
use matrix_meshtastic.MsgConv.{convert_pill}
use matrix_meshtastic.MsgConv.Pills.{mentioned_node_is_found}
use matrix_meshtastic.Bridge.Mentions.{Texts, convert_message_event}
use matrix_meshtastic.Bridge.Mentions.Kept.{plain_message_stays}
use matrix_meshtastic.Tests.Hubs.{
  the_outside, the_hub, remote_node, remote_row, channel_portal, direct_message,
}

abbrev made_ghost : Bytes → Ghost
made_ghost id = record { id = id; name = []; name_set = false; user_mxid = none }

abbrev granted_login : List BridgeCall → Bytes → Bytes → Bytes → NodeId → Result Bytes
granted_login calls id short long node = ok id

abbrev matrix_node : NodeId
matrix_node = mxid_to_node_id (codes "@u:h")

user-IsNameable :
    IsNameable the_outside
      (make_user_id matrix_node)
      (codes "User")
      (codes "USR")
      matrix_node
      (made_ghost (make_user_id matrix_node))
      none
      the_hub
unfolding find_node mxid_to_node_id checksum_ieee
user-IsNameable = record {
  quiet = refl;
  found = refl;
  parsed = parse_user_id-make_user_id matrix_node (omega (arith, checksum_ieee-lt (codes "@u:h")));
  in_table = refl;
  long_fits = omega arith;
  short_fits = omega arith;
}

new_login_connects_example :
    let after =
      (submit_user_input the_outside granted_login
        (codes "@u:h")
        (codes "User")
        (codes "USR")
        the_hub).1 in
    connect_login the_outside (codes "@u:h") after ≡ (some listening, after)
unfolding admits_node mxid_to_node_id checksum_ieee node_string format_08x
new_login_connects_example =
    new_login_connects the_outside granted_login (codes "@u:h") (codes "User") (codes "USR")
      (made_ghost (make_user_id matrix_node)) (1 ∷ 0 ∷ []) 2 (0 ∷ []) the_hub refl refl
      user-IsNameable refl refl

abbrev the_login : Login
the_login = record { id = codes "login"; node = some 0x3000 }

started_chat_is_its_room_example :
    let key = make_dm_portal_key the_login remote_node matrix_node in
    let asked = record the_hub { calls = got_ghost (make_user_id remote_node) ∷ [] } in
    (info : ChatInfo) × (resolve_identifier the_outside the_login
        (codes "@u:h")
        (node_string remote_node)
        the_hub
      ≡ (
        some (
            inl (
              ok (record {
                ghost = made_ghost (make_user_id remote_node);
                user_id = make_user_id remote_node;
                portal_key = key;
                portal_info = info;
              }))),
        asked,
      ))
    × (get_chat_info the_outside the_login key.id asked ≡ (some (inl info), asked))
started_chat_is_its_room_example =
    started_chat_is_its_room the_outside the_login 0x3000 remote_node (codes "@u:h")
      (node_string remote_node) (made_ghost (make_user_id remote_node)) the_hub
      (parse_node_id-node_string remote_node (omega arith)) (omega arith) refl refl refl

-- Every text has one match, its last four characters of seven.
abbrev four_letters : Texts
four_letters = record {
  find_all = λ s. record { start = 3; end = 7; user_start = 3; user_end = 7 } ∷ [];
  ghost_mxid = λ id. id;
  matrix_to_url = λ mxid. mxid;
  user_of_login = λ id. none;
}

plain_message_stays_example :
    convert_message_event the_outside four_letters channel_portal
      (record direct_message { message = codes "hi beef" })
      the_hub
    ≡ (
      some (record {
        body = codes "hi beef";
        formatted_body = codes "hi beef";
        mentioned = [];
        mentions_room = false;
        reply_to = none;
      }),
      the_hub,
    )
unfolding find_short reply_target
plain_message_stays_example =
    plain_message_stays the_outside four_letters channel_portal
      (record direct_message { message = codes "hi beef" }) the_hub refl refl (refl, tt)
      (omega arith, omega arith, omega arith)

mentioned_node_is_found_example :
    let short =
      convert_pill
        (λ name mxid event_id. name)
        (λ mxid. some (make_user_id 0x2000))
        (codes "Remote")
        (codes "@g:h")
        [] in
    (found : MeshNodeInfo) × (get_by_short_user_id short the_hub.tables
      ≡ (ok (some found), the_hub.tables))
    × (found.node_id ≡ 0x2000)
unfolding find_node node_string format_08x
mentioned_node_is_found_example =
    mentioned_node_is_found (λ name mxid event_id. name) (λ mxid. some (make_user_id 0x2000))
      (codes "Remote") (codes "g:h") [] 0x2000 remote_row the_hub.tables refl (omega arith) refl
      refl refl ((λ e. refl), ((λ e. cc), tt))
