-- ===== src/Bridge/FromMatrix/Direct.antt =====
-- A message from Matrix in the portal of a direct conversation, up to where it goes
-- (pkg/connector/handle_matrix.go).
use matrix_meshtastic.Prelude.{
  ◌≡◌, refl, ap, ◌∙◌, Bool, true, [], Option, none, Bytes, if◌then◌else◌,
}
use matrix_meshtastic.MeshId.Ids.{NodeId, parse_dm_portal_id}
use matrix_meshtastic.Bridge.Database.{find_node, get_by_node_id}
use matrix_meshtastic.Bridge.Database.Rows.{get_by_node_id_lem}
use matrix_meshtastic.Bridge.Hub.{Outside, RoomType, dm_room, Hub, Task, ◌>>=◌, return, query}
use matrix_meshtastic.Bridge.Hub.Offline.{IsOffline, bind-IsOffline}
use matrix_meshtastic.Bridge.Keys.Offline.{key-IsOffline}
use matrix_meshtastic.Bridge.Keys.{get_ghost_public_key}
use matrix_meshtastic.Bridge.FromMatrix.{
  MatrixMessage, Outcome, handle_matrix_message, dm_target, target_in, send_to, primary, Target,
  ignored,
}

module _ (o : Outside) where
  key_of_unknown :
      (node : NodeId) (h : Hub)
      → h.tables.faults ≡ []
      → find_node node h.tables.nodes ≡ none
      → (get_ghost_public_key o node h).0 ≡ none
  unfolding get_ghost_public_key ◌>>=◌
  key_of_unknown node h q f = rw (get_by_node_id_lem node h.tables q, f) refl

  dm_target_of_unknown :
      (node synth : NodeId) (h : Hub)
      → h.tables.faults ≡ []
      → find_node node h.tables.nodes ≡ none
      → (dm_target o (node, synth, none) h).0 ≡ none
  unfolding get_ghost_public_key ◌>>=◌
  dm_target_of_unknown node synth h q f =
      rw (get_by_node_id_lem node h.tables q, f) (rw (get_by_node_id_lem node h.tables q, f) refl)

  dm_target_in :
      (remote synth : NodeId) (portal_id : Bytes)
      → parse_dm_portal_id portal_id ≡ (remote, synth, none)
      → target_in o dm_room portal_id ≡ dm_target o (remote, synth, none)
  unfolding target_in
  dm_target_in remote synth portal_id p = ap (dm_target o) p

  pub handled :
      (remote synth : NodeId) (msg : MatrixMessage) (h : Hub)
      → msg.sender_is_known ≡ true
      → msg.room_type ≡ dm_room
      → parse_dm_portal_id msg.portal_id ≡ (remote, synth, none)
      → handle_matrix_message o msg h ≡ (dm_target o (remote, synth, none) >>= send_to o msg) h
  unfolding handle_matrix_message
  handled remote synth msg h k r p =
      ap
        (λ (b : Bool).
          (if b then target_in o msg.room_type msg.portal_id >>= send_to o msg else return ignored)
            h)
        k
      ∙ ap (λ (room : RoomType). (target_in o room msg.portal_id >>= send_to o msg) h) r
      ∙ ap (λ (t : Task (Option Target)). (t >>= send_to o msg) h)
          (dm_target_in remote synth msg.portal_id p)

  stops :
      {A B : Type 0} (m : Task A) (f : A → Task B) (h : Hub)
      → (m h).0 ≡ none
      → ((m >>= f) h).0 ≡ none
  unfolding ◌>>=◌
  stops m f h e = rw e refl

  -- A direct message from Matrix to a node that the node table does not hold makes the handler panic,
  -- when the database can be read.
  pub message_to_unknown_node_panics :
      (remote synth : NodeId) (msg : MatrixMessage) (h : Hub)
      → h.tables.faults ≡ []
      → find_node remote h.tables.nodes ≡ none
      → msg.sender_is_known ≡ true
      → msg.room_type ≡ dm_room
      → parse_dm_portal_id msg.portal_id ≡ (remote, synth, none)
      → (handle_matrix_message o msg h).0 ≡ none
  message_to_unknown_node_panics remote synth msg h q f k r p =
      ap (λ (x : Option Outcome × Hub). x.0) (handled remote synth msg h k r p)
      ∙ stops (dm_target o (remote, synth, none)) (send_to o msg) h
          (dm_target_of_unknown remote synth h q f)

  pub target-IsOffline : (remote synth : NodeId) → IsOffline (dm_target o (remote, synth, none))
  target-IsOffline remote synth =
      bind-IsOffline primary _ (record { same = λ h. refl })
        λ channel.
          bind-IsOffline (query (get_by_node_id remote)) _ (record { same = λ h. refl })
            λ row. bind-IsOffline _ _ (key-IsOffline o remote) λ key. record { same = λ h. refl }
