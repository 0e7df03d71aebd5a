-- ===== src/MsgConv.antt =====
-- pkg/msgconv: the text of a Matrix message for the mesh. The parser of HTML is a parameter.
pub mod Pills
use matrix_meshtastic.Prelude.{
  ◌-◌, Bool, false, [], ◌∷◌, Option, none, some, Bytes, codes, length, drop, nat_beq, bytes_beq,
  if◌then◌else◌,
}
use matrix_meshtastic.MeshId.Ids.{NodeId, node_string, mxid_to_node_id, parse_user_id}

-- The content of a message, and whether its format is HTML.
pub record TextContent : Type 0 where
  pub body : Bytes
  pub formatted_body : Bytes
  pub is_html : Bool

pub parse_text : (Bytes → Bytes) → TextContent → Bytes
parse_text parse content = if content.is_html then parse content.formatted_body else content.body

-- It never fails.
pub to_meshtastic : (Bytes → Bytes) → TextContent → Bytes
unfolding parse_text
to_meshtastic parse content = parse_text parse content

abbrev is_user_id : Bytes → Bool
is_user_id [] = false
is_user_id (c ∷ s) = nat_beq c b'@'

abbrev pub pill_node : Bytes → Option Bytes → NodeId
pill_node mxid none = mxid_to_node_id mxid
pill_node mxid (some ghost_id) = (parse_user_id ghost_id).0

-- The last four characters.
abbrev pub short_name_of : Bytes → Bytes
short_name_of s = drop (length s - 4) s

-- `default_pill` and `parse_ghost_mxid` are the framework's; the bell is the byte 7.
unfoldable pub convert_pill :
    (Bytes → Bytes → Bytes → Bytes) → (Bytes → Option Bytes) → Bytes → Bytes → Bytes → Bytes
convert_pill default_pill parse_ghost_mxid displayname mxid event_id =
    if is_user_id mxid
    then short_name_of (node_string (pill_node mxid (parse_ghost_mxid mxid)))
    else if bytes_beq displayname (codes "@room")
    then 7 ∷ []
    else default_pill displayname mxid event_id
