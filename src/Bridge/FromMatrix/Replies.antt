-- ===== src/Bridge/FromMatrix/Replies.antt =====
-- A message from Matrix in the portal of a direct conversation, and the replies to it
-- (pkg/connector/handle_matrix.go, pkg/connector/handle_meshtastic.go).
use matrix_meshtastic.Prelude.{
  ℕ, ◌≤◌, ◌≡◌, refl, sym, ap, ◌∙◌, subst, Bool, true, Option, none, some, Bytes, Error, Result, inl,
  inr, Bool-cases, nat_beq, if◌then◌else◌,
}
use matrix_meshtastic.Golang.Strconv.{max_uint32}
use matrix_meshtastic.MeshId.Ids.{
  NodeId, node_string, mxid_to_node_id, make_message_id, parse_dm_portal_id,
}
use matrix_meshtastic.MeshId.Ids.RoundTrip.{parse_dm_portal_id-make_dm_portal_id}
use matrix_meshtastic.MeshId.Channel.{ChannelDef}
use matrix_meshtastic.Mesh.World.{World}
use matrix_meshtastic.Mesh.Events.{MeshMessageEvent}
use matrix_meshtastic.Mesh.Outgoing.{send_message}
use matrix_meshtastic.Bridge.Database.{MeshNodeInfo, get_by_node_id}
use matrix_meshtastic.Bridge.Hub.{Outside, dm_room, Hub, ◌>>=◌, continue, return, query}
use matrix_meshtastic.Bridge.Keys.{get_ghost_public_key}
use matrix_meshtastic.Bridge.ToMatrix.{Login, portal_of, reply_target, make_dm_portal_key}
use matrix_meshtastic.Bridge.FromMatrix.{
  MatrixMessage, Content, text, Outcome, sent_as, handle_matrix_message, dm_target, send_to, Target,
  stored, refuses, has_key, reply_id_of, send_content,
}
use matrix_meshtastic.Bridge.FromMatrix.Direct.{handled, target-IsOffline}

abbrev TargetOf : NodeId → Option (Option Target) → Type 0
TargetOf remote none = Unit
TargetOf remote (some none) = Unit
TargetOf remote (some (some t)) = (t.node ≡ remote) × (t.conversation ≡ node_string remote)

-- A text was sent to a node, and its ID is that of the packet in the conversation with the node.
pub record IsDelivered (o : Outside) (msg : MatrixMessage) (s : Bytes) (remote : NodeId)
    (id : Bytes) (before after : World) : Type 0 where
  pub channel : Option ChannelDef
  pub use_pki : Bool
  pub packet_id : ℕ
  pub sent :
      send_message o.lib
        (mxid_to_node_id msg.sender)
        remote
        channel
        s
        (reply_id_of msg.reply_to)
        use_pki
        before
      ≡ ((packet_id, none), after)
  pub named : id ≡ make_message_id (node_string remote) packet_id

-- A direct message from a node that replies to a packet.
abbrev pub replying : NodeId → ℕ → MeshMessageEvent → MeshMessageEvent
replying from packet_id evt = record evt {
  event = record evt.event { from = from };
  is_dm = true;
  reply_id = packet_id;
}

module _ (o : Outside) where
  target_lem :
      (remote : NodeId) (channel : Option ChannelDef) (row : Result (Option MeshNodeInfo))
      (key : Option (Result Bytes)) (h : Hub)
      → TargetOf remote
          (continue key
            (λ (k : Result Bytes). return (
              if refuses row
              then none
              else some (record {
                channel = channel;
                node = remote;
                use_pki = has_key k;
                conversation = node_string remote;
              })))
            h).0
  target_lem remote channel row none h = tt
  target_lem remote channel row (some key) h = elim (Bool-cases (refuses row)) [
    | inl e ↦ rw e tt
    | inr e ↦ rw e (refl, refl)
  ]

  dm_target-TargetOf :
      (remote synth : NodeId) (h : Hub) → TargetOf remote (dm_target o (remote, synth, none) h).0
  unfolding ◌>>=◌
  dm_target-TargetOf remote synth h =
      target_lem remote h.world.client.primary_channel (get_by_node_id remote h.tables).0 _
        (get_ghost_public_key o remote (query (get_by_node_id remote) h).1).1

  stored_lem :
      (msg : MatrixMessage) (s : Bytes) (t : Target) (r : (ℕ × Option Error) × World)
      (id sender : Bytes) (w : World)
      → t.conversation ≡ node_string t.node
      → send_message o.lib
          (mxid_to_node_id msg.sender)
          t.node
          t.channel
          s
          (reply_id_of msg.reply_to)
          t.use_pki
          w
        ≡ r
      → some (stored t (mxid_to_node_id msg.sender) r.0) ≡ some (sent_as id sender)
      → IsDelivered o msg s t.node id w r.1
  stored_lem msg s t ((packet_id, none), after) id sender w c m e = record {
    channel = t.channel;
    use_pki = t.use_pki;
    packet_id = packet_id;
    sent = m;
    named = cc (c, e);
  }
  stored_lem msg s t ((packet_id, some x), after) id sender w c m e = cc

  text_sent :
      (msg : MatrixMessage) (s : Bytes) (target : Target) (id sender : Bytes) (h : Hub)
      → target.conversation ≡ node_string target.node
      → (send_content o (mxid_to_node_id msg.sender) msg (text s) target h).0
        ≡ some (sent_as id sender)
      → IsDelivered o msg s target.node id h.world
          (send_content o (mxid_to_node_id msg.sender) msg (text s) target h).1.world
  unfolding ◌>>=◌
  text_sent msg s target id sender h c e = stored_lem msg s target _ id sender h.world c refl e

  sent_lem :
      (msg : MatrixMessage) (s : Bytes) (remote : NodeId) (id sender : Bytes)
      (found : Option (Option Target)) (h : Hub)
      → msg.content ≡ text s
      → TargetOf remote found
      → (continue found (send_to o msg) h).0 ≡ some (sent_as id sender)
      → IsDelivered o msg s remote id h.world (continue found (send_to o msg) h).1.world
  sent_lem msg s remote id sender none h c t e = cc
  sent_lem msg s remote id sender (some none) h c t e = cc
  sent_lem msg s remote id sender (some (some target)) h c t e =
      subst
        (λ (x : Content).
          (send_content o (mxid_to_node_id msg.sender) msg x target h).0 ≡ some (sent_as id sender)
          → IsDelivered o msg s remote id h.world
              (send_content o (mxid_to_node_id msg.sender) msg x target h).1.world)
        (sym c)
        (λ f.
          subst
            (λ (n : NodeId).
              IsDelivered o msg s n id h.world
                (send_content o (mxid_to_node_id msg.sender) msg (text s) target h).1.world)
            t.0 (text_sent msg s target id sender h (t.1 ∙ ap node_string (sym t.0)) f))
        e

  delivered :
      (remote synth : NodeId) (msg : MatrixMessage) (s id sender : Bytes) (h : Hub)
      → msg.sender_is_known ≡ true
      → msg.room_type ≡ dm_room
      → parse_dm_portal_id msg.portal_id ≡ (remote, synth, none)
      → msg.content ≡ text s
      → (handle_matrix_message o msg h).0 ≡ some (sent_as id sender)
      → IsDelivered o msg s remote id h.world (handle_matrix_message o msg h).1.world
  unfolding ◌>>=◌
  delivered remote synth msg s id sender h k r p c e =
      subst
        (λ (x : Option Outcome × Hub).
          x.0 ≡ some (sent_as id sender) → IsDelivered o msg s remote id h.world x.1.world)
        (sym (handled o remote synth msg h k r p))
        (λ f.
          subst
            (λ (w : World).
              IsDelivered o msg s remote id w
                ((dm_target o (remote, synth, none) >>= send_to o msg) h).1.world)
            ((target-IsOffline o remote synth).same h)
            (sent_lem msg s remote id sender _ _ c (dm_target-TargetOf remote synth h) f))
        e

  -- A text that is written in the portal of a direct message from the mesh is sent to the node that
  -- the message came from, for 32-bit node IDs and a sender that is known, when it is stored under an
  -- ID; and a direct message of that node that replies to the text's packet is converted to a reply to
  -- that ID, unless the packet's ID is 0.
  pub reply_finds_message :
      (l : Login) (evt reply : MeshMessageEvent) (msg : MatrixMessage) (s id sender : Bytes)
      (h : Hub)
      → evt.event.from ≤ max_uint32
      → evt.event.to ≤ max_uint32
      → msg.sender_is_known ≡ true
      → msg.room_type ≡ dm_room
      → msg.portal_id ≡ (portal_of o l true evt.event).id
      → msg.content ≡ text s
      → (handle_matrix_message o msg h).0 ≡ some (sent_as id sender)
      → (d : IsDelivered o msg s evt.event.from id h.world (handle_matrix_message o msg h).1.world)
        × (reply_target (replying evt.event.from d.packet_id reply)
            ≡ (if nat_beq d.packet_id 0 then none else some id))
  unfolding make_dm_portal_key reply_target
  reply_finds_message l evt reply msg s id sender h a b k r p c e =
      let d =
        delivered evt.event.from evt.event.to msg s id sender h k r
          (ap parse_dm_portal_id p
            ∙ parse_dm_portal_id-make_dm_portal_id evt.event.from evt.event.to a b)
          c e in
      (d, rw d.named refl)
