-- ===== src/Bridge/Chats/Agreement.antt =====
-- The room that a direct chat is started with, and the room that its portal is given afterwards
-- (`ResolveIdentifier` and `GetChatInfo` of pkg/connector/client.go).
use matrix_meshtastic.Prelude.{
  ◌≡◌, ◌≤◌, refl, arith, inl, Bool, true, false, if◌then◌else◌, [], ◌∷◌, ◌++◌, Option, none, some,
  Bytes, nat_beq, Result, ok, err, bytes_beq,
}
use matrix_meshtastic.Golang.Strconv.{max_uint32}
use matrix_meshtastic.Golang.Crc32.{checksum_ieee-lt}
use matrix_meshtastic.MeshId.Ids.{
  NodeId, IdError, make_user_id, make_user_login_id, mxid_to_node_id, parse_node_id, parse_user_id,
}
use matrix_meshtastic.MeshId.Ids.RoundTrip.{parse_dm_portal_id-make_dm_portal_id}
use matrix_meshtastic.Bridge.Database.{find_node, get_by_node_id}
use matrix_meshtastic.Bridge.Database.Rows.{get_by_node_id_lem}
use matrix_meshtastic.Bridge.Hub.{Outside, Ghost, got_ghost, Hub, Task, ◌>>=◌, query}
use matrix_meshtastic.Bridge.Ghosts.{name_by_node, set_dm_names}
use matrix_meshtastic.Bridge.ToMatrix.{Login, make_dm_portal_key, make_event_sender}
use matrix_meshtastic.Bridge.Chats.{
  ChatInfo, name_by_ghost, wrap_dm_info, get_chat_info, resolve_identifier,
}

-- A task that has a result and changes nothing at this connector.
abbrev Reads : {A : Type 0} → Task A → Hub → Type 0
Reads {A} m h = (a : A) × (m h ≡ (some a, h))

bind-Reads :
    {A B : Type 0} (m : Task A) (f : A → Task B) (h : Hub)
    → Reads m h
    → ((a : A) → Reads (f a) h)
    → Reads (m >>= f) h
unfolding ◌>>=◌
bind-Reads m f h (a, e) k = let (b, e') = k a in (b, rw e e')

if-Reads :
    {A : Type 0} (test : Bool) (m n : Task A) (h : Hub)
    → Reads m h
    → Reads n h
    → Reads (if test then m else n) h
if-Reads true m n h r r' = r
if-Reads false m n h r r' = r'

found_row-Reads :
    (node : NodeId) (h : Hub) → h.tables.faults ≡ [] → Reads (query (get_by_node_id node)) h
found_row-Reads node h q =
    (ok (find_node node h.tables.nodes), rw (get_by_node_id_lem node h.tables q) refl)

mxid_to_node_id-small : (mxid : Bytes) → mxid_to_node_id mxid ≤ max_uint32
unfolding mxid_to_node_id
mxid_to_node_id-small mxid = omega (arith, checksum_ieee-lt mxid)

module _ (o : Outside) where
  name_by_node-Reads :
      (name : Bytes) (parsed : NodeId × Option IdError) (h : Hub)
      → h.tables.faults ≡ []
      → Reads (name_by_node o name parsed) h
  name_by_node-Reads name (node, some e) h q = (name, refl)
  name_by_node-Reads name (node, none) h q =
      bind-Reads (query (get_by_node_id node)) _ h (found_row-Reads node h q) (λ found. (_, refl))

  set_dm_names-Reads :
      (ghost : Ghost) (h : Hub) → h.tables.faults ≡ [] → Reads (set_dm_names o ghost) h
  unfolding set_dm_names
  set_dm_names-Reads ghost h q =
      if-Reads (bytes_beq ghost.name []) _ _ h (none, refl)
        (bind-Reads _ _ h (name_by_node-Reads ghost.name (parse_user_id ghost.id) h q)
          (λ name. (some name, refl)))

  name_by_ghost-Reads :
      (found : Result (Option Ghost)) (h : Hub)
      → h.tables.faults ≡ []
      → Reads (name_by_ghost o found) h
  name_by_ghost-Reads (err e) h q = (none, refl)
  name_by_ghost-Reads (ok none) h q = (none, refl)
  name_by_ghost-Reads (ok (some ghost)) h q = set_dm_names-Reads ghost h q

  sender-Reads :
      (l : Login) (node sender : NodeId) (h : Hub)
      → l.node ≡ some node
      → Reads (make_event_sender l sender) h
  unfolding make_event_sender
  sender-Reads l node sender h known = (
    record {
      is_from_me = nat_beq node sender;
      sender = make_user_id sender;
      sender_login = make_user_login_id sender;
    },
    rw known refl,
  )

  wrap_dm_info-Reads :
      (l : Login) (node synth remote : NodeId) (h : Hub)
      → l.node ≡ some node
      → h.tables.faults ≡ []
      → Reads (wrap_dm_info o l synth remote) h
  unfolding wrap_dm_info
  wrap_dm_info-Reads l node synth remote h known q =
      bind-Reads _ _ h (sender-Reads l node remote h known) λ theirs.
        bind-Reads _ _ h (sender-Reads l node synth h known) λ mine.
          bind-Reads _ _ h (_, refl)
            λ ghost. bind-Reads _ _ h (name_by_ghost-Reads ghost h q) λ name. (_, refl)

  -- The chat that is started with a node and the room that its portal is given afterwards agree: both
  -- have the same info, and nothing but the framework's question for the ghost is recorded; if the
  -- identifier names a 32-bit node, the framework has its ghost, the login knows its own node and the
  -- database runs the statements.
  pub started_chat_is_its_room :
      (l : Login) (node remote : NodeId) (user_mxid identifier : Bytes) (ghost : Ghost) (h : Hub)
      → parse_node_id identifier ≡ (remote, none)
      → remote ≤ max_uint32
      → o.get_ghost_by_id h.calls (make_user_id remote) ≡ ok ghost
      → l.node ≡ some node
      → h.tables.faults ≡ []
      → let key = make_dm_portal_key l remote (mxid_to_node_id user_mxid) in
        let asked = record h { calls = h.calls ++ got_ghost (make_user_id remote) ∷ [] } in
        (info : ChatInfo) × (resolve_identifier o l user_mxid identifier h ≡ (
          some (
              inl (
                ok (record {
                  ghost = ghost;
                  user_id = make_user_id remote;
                  portal_key = key;
                  portal_info = info;
                }))),
          asked,
        ))
        × (get_chat_info o l key.id asked ≡ (some (inl info), asked))
  unfolding resolve_identifier get_chat_info ◌>>=◌ make_dm_portal_key
  started_chat_is_its_room l node remote user_mxid identifier ghost h parsed small found known q =
      let mine = mxid_to_node_id user_mxid in
      let asked : Hub = record h { calls = h.calls ++ got_ghost (make_user_id remote) ∷ [] } in
      let (info, e) = wrap_dm_info-Reads l node mine remote asked known q in
      let bound = mxid_to_node_id-small user_mxid in
      (
        info,
        rw (parsed, found, e) refl,
        rw (parse_dm_portal_id-make_dm_portal_id remote mine small bound, e) refl,
      )
