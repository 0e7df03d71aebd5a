-- ===== src/Bridge/Mentions.antt =====
-- A message from the mesh as content of a room (`convertMessageEvent` of
-- pkg/connector/handle_meshtastic.go).
pub mod Kept
use matrix_meshtastic.Prelude.{
  ℕ, ◌-◌, Bool, true, false, List, [], ◌∷◌, ◌++◌, Option, none, some, Bytes, codes, Result, ok, err,
  drop, take, contains, bytes_beq, bytes_eq, nat_beq, nat_eq, if◌then◌else◌,
}
use matrix_meshtastic.MeshId.Ids.{make_user_id}
use matrix_meshtastic.Mesh.Events.{MeshMessageEvent}
use matrix_meshtastic.Bridge.Database.{MeshNodeInfo}
use matrix_meshtastic.Bridge.Database.Lookups.{get_by_short_user_id}
use matrix_meshtastic.Bridge.Hub.{
  Outside, Ghost, Portal, RoomType, dm_room, default_room, other_room, Task, ◌>>=◌, return, panic,
  query,
}
use matrix_meshtastic.Bridge.Ghosts.{get_remote_ghost}
use matrix_meshtastic.Bridge.ToMatrix.{reply_target}

-- A match of the regular expression and its group, as positions in the message.
pub record Match : Type 0 where
  pub start : ℕ
  pub end : ℕ
  pub user_start : ℕ
  pub user_end : ℕ

-- What the conversion asks of libraries.
pub record Texts : Type 0 where
  pub find_all : Bytes → List Match  -- `FindAllStringSubmatchIndex` of the short IDs
  pub ghost_mxid : Bytes → Bytes  -- `Intent.GetMXID` of a ghost
  pub matrix_to_url : Bytes → Bytes  -- of a user or a room
  pub user_of_login : Bytes → Option Bytes  -- the Matrix user of a cached login

-- What the two builders and the mentions hold, and where the next piece begins.
pub record Written : Type 0 where
  pub body : Bytes
  pub formatted : Bytes
  pub last : ℕ
  pub users : List Bytes

pub record RoomContent : Type 0 where
  pub body : Bytes
  pub formatted_body : Bytes
  pub mentioned : List Bytes
  pub mentions_room : Bool
  pub reply_to : Option Bytes

abbrev pub bell : ℕ
bell = 7

-- `s[a:b]`
abbrev pub slice : ℕ → ℕ → Bytes → Bytes
slice a b s = take (b - a) (drop a s)

abbrev escaped : ℕ → Bytes
escaped c =
    if nat_beq c b'&'
    then codes "&amp;"
    else if nat_beq c b'\''
    then codes "&#39;"
    else if nat_beq c b'<'
    then codes "&lt;"
    else if nat_beq c b'>'
    then codes "&gt;"
    else if nat_beq c 34
    then codes "&#34;"
    else c ∷ []

-- `html.EscapeString`
escape_string : Bytes → Bytes
escape_string [] = []
escape_string (c ∷ s) = escaped c ++ escape_string s

-- `strings.ReplaceAll` of one byte
replace_all : ℕ → Bytes → Bytes → Bytes
replace_all c new [] = []
replace_all c new (b ∷ s) =
    let rest = replace_all c new s in if nat_beq b c then new ++ rest else b ∷ rest

link : Bytes → Bytes → Bytes
unfolding escape_string
link url shown =
    codes "<a href=" ++ (34 ∷ (url ++ (34 ∷ b'>' ∷ (escape_string shown ++ codes "</a>"))))

abbrev pub kept : Bytes → Match → Written → Written
kept mess m w = record w {
  body = w.body ++ (slice w.last m.start mess ++ slice m.start m.end mess);
  formatted = w.formatted ++ (slice w.last m.start mess ++ slice m.start m.end mess);
  last = m.end;
}

abbrev user_or_ghost : Bytes → Option Bytes → Bytes
user_or_ghost ghost none = ghost
user_or_ghost ghost (some mxid) = if bytes_beq mxid [] then ghost else mxid

module _ (o : Outside) (x : Texts) where
  pub mentioned_as : Bytes → Match → MeshNodeInfo → Bytes → Written → Written
  unfolding link
  mentioned_as mess m row mxid w = record {
    body = w.body ++ (slice w.last m.start mess ++ mxid);
    formatted =
        w.formatted
        ++ (slice w.last m.start mess
            ++ link (x.matrix_to_url mxid)
                (if bytes_beq row.long_name [] then mxid else b'@' ∷ row.long_name));
    last = m.end;
    users = if contains w.users mxid then w.users else w.users ++ mxid ∷ [];
  }

  abbrev mention_ghost : Bytes → Match → MeshNodeInfo → Written → Result Ghost → Written
  mention_ghost mess m row w (err e) = kept mess m w
  mention_ghost mess m row w (ok ghost) =
      mentioned_as mess m row (user_or_ghost (x.ghost_mxid ghost.id) ghost.user_mxid) w

  -- The error of the query is dropped.
  abbrev pub mention : Bytes → Match → Written → Result (Option MeshNodeInfo) → Task Written
  mention mess m w (err e) = return (kept mess m w)
  mention mess m w (ok none) = return (kept mess m w)
  mention mess m w (ok (some row)) = do
    ghost ← get_remote_ghost o (make_user_id row.node_id) true
    return (mention_ghost mess m row w ghost)

  unfoldable pub write_matches : Bytes → List Match → Written → Task Written
  unfolding mentioned_as get_remote_ghost
  write_matches mess [] w = return w
  write_matches mess (m ∷ ms) w = do
    found ← query (get_by_short_user_id (slice m.user_start m.user_end mess))
    next ← mention mess m w found
    write_matches mess ms next

  -- Without a match the formatted text stays empty.
  abbrev pub write_message : Bytes → List Match → Task Written
  write_message mess [] = return (record { body = mess; formatted = []; last = 0; users = [] })
  write_message mess (m ∷ ms) = do
    w ← write_matches mess (m ∷ ms) (record { body = []; formatted = []; last = 0; users = [] })
    return (record w {
      body = w.body ++ drop w.last mess;
      formatted = w.formatted ++ drop w.last mess;
    })

  -- The formatted text is made from the message anew.
  abbrev ring_user : Bytes → Written → Option Bytes → Option Bytes → Task RoomContent
  ring_user mess w reply none = panic
  ring_user mess w reply (some mxid) = return (record {
    body = replace_all bell mxid w.body;
    formatted_body = replace_all bell (link (x.matrix_to_url mxid) mxid) mess;
    mentioned = w.users ++ mxid ∷ [];
    mentions_room = false;
    reply_to = reply;
  })

  abbrev ring_room : Bytes → Bytes → Written → Option Bytes → RoomContent
  ring_room mess room w reply = record {
    body = replace_all bell room w.body;
    formatted_body = replace_all bell (link (x.matrix_to_url room) (codes "@room")) mess;
    mentioned = w.users;
    mentions_room = true;
    reply_to = reply;
  }

  abbrev ring : Portal → Bytes → Written → Option Bytes → RoomType → Task RoomContent
  ring p mess w reply dm_room = ring_user mess w reply (x.user_of_login p.key.receiver)
  ring p mess w reply default_room = return (ring_room mess p.mxid w reply)
  ring p mess w reply other_room = return (ring_room mess p.mxid w reply)

  pub finish : Portal → Bytes → Option Bytes → Written → Task RoomContent
  unfolding replace_all link
  finish p mess reply w =
      if contains w.body bell
      then ring p mess w reply p.room_type
      else return (record {
        body = w.body;
        formatted_body = w.formatted;
        mentioned = w.users;
        mentions_room = false;
        reply_to = reply;
      })

  unfoldable pub convert_message_event : Portal → MeshMessageEvent → Task RoomContent
  unfolding write_matches finish reply_target
  convert_message_event p evt = do
    w ← write_message evt.message (x.find_all evt.message)
    finish p evt.message (reply_target evt) w
