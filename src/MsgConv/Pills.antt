-- ===== src/MsgConv/Pills.antt =====
-- A node that a Matrix message mentions, as a message from the mesh would mention it (`convertPill` of
-- pkg/msgconv/from_matrix.go and `GetByShortUserID` of pkg/connector/meshdb/mesh_node.go).
use matrix_meshtastic.Prelude.{
  ℕ, ◌/◌, ◌%◌, ◌≤◌, ◌≡◌, refl, sym, ap, ◌∙◌, arith, Bool-cases, inl, inr, Bool, true, List, [], ◌∷◌,
  Option, none, some, Bytes, ok, drop, All, nat_beq, bytes_beq_iff,
}
use matrix_meshtastic.Golang.Strconv.{max_uint32, digit_char, format_08x}
use matrix_meshtastic.Golang.Strconv.Laws.{length-format_08x, last_four-format_08x}
use matrix_meshtastic.MeshId.Ids.{NodeId, IdError, node_string, make_user_id}
use matrix_meshtastic.MeshId.Ids.RoundTrip.{parse_user_id-make_user_id}
use matrix_meshtastic.Bridge.Database.{Tables, MeshNodeInfo, find_node}
use matrix_meshtastic.Bridge.Database.Rows.{statement-quiet}
use matrix_meshtastic.Bridge.Database.Lookups.{
  is_hex, is_short_id, ends_with, find_short, get_by_short_user_id,
}
use matrix_meshtastic.MsgConv.{pill_node, short_name_of, convert_pill}

digit_char-is_hex : (n : ℕ) → is_hex (digit_char (n % 16)) ≡ true
unfolding digit_char
digit_char-is_hex n = ground arith

short_of : (node : NodeId) → short_name_of (node_string node) ≡ drop 4 (format_08x node)
unfolding node_string
short_of node = rw (length-format_08x node) refl

short_of-is_short_id : (node : NodeId) → is_short_id (short_name_of (node_string node)) ≡ true
short_of-is_short_id node =
    rw
      (
        short_of node,
        last_four-format_08x node,
        digit_char-is_hex (node / 16 / 16 / 16),
        digit_char-is_hex (node / 16 / 16),
        digit_char-is_hex (node / 16),
        digit_char-is_hex node,
      )
      refl

own_ending :
    (node : NodeId) → ends_with (short_name_of (node_string node)) (node_string node) ≡ true
unfolding node_string
own_ending node =
    rw (length-format_08x node)
      ((bytes_beq_iff (drop 4 (format_08x node)) (drop 4 (format_08x node))).1 refl)

abbrev ends_in_row : Bytes → Option MeshNodeInfo → Bool
ends_in_row short none = true
ends_in_row short (some row) = ends_with short row.user_id

find_short_lem :
    (short : Bytes) (node : NodeId) (row : MeshNodeInfo) (rows : List MeshNodeInfo)
    → find_node node rows ≡ some row
    → ends_with short row.user_id ≡ true
    → All (λ (r : MeshNodeInfo). ends_with short r.user_id ≡ true → r.node_id ≡ node) rows
    → (found : MeshNodeInfo) × (find_short short rows ≡ some found) × (found.node_id ≡ node)
unfolding find_node find_short
find_short_lem short node row [] stored ending alone = cc
find_short_lem short node row (r ∷ rs) stored ending (alone, rest) =
    elim (Bool-cases (ends_with short r.user_id)) [
      | inl ends ↦ (r, rw ends refl, alone ends)
      | inr differs ↦ elim (Bool-cases (nat_beq r.node_id node)) [
        | inl same ↦
            let first : find_node node (r ∷ rs) ≡ some r = rw same refl in
            let one : ends_with short r.user_id ≡ ends_with short row.user_id =
              ap (ends_in_row short) (sym first ∙ stored) in
            absurd (cc (one, ending, differs))
        | inr other ↦
            let skipped : find_node node (r ∷ rs) ≡ find_node node rs = rw other refl in
            let (found, e, id) =
              find_short_lem short node row rs (sym skipped ∙ stored) ending rest in
            (found, rw differs e, id)
      ]
    ]

pill_lem :
    (default_pill : Bytes → Bytes → Bytes → Bytes) (parse_ghost_mxid : Bytes → Option Bytes)
    (displayname name event_id : Bytes) (node : NodeId)
    → parse_ghost_mxid (b'@' ∷ name) ≡ some (make_user_id node)
    → node ≤ max_uint32
    → convert_pill default_pill parse_ghost_mxid displayname (b'@' ∷ name) event_id
      ≡ short_name_of (node_string node)
unfolding convert_pill
pill_lem default_pill parse displayname name event_id node ghost small =
    ap (λ found. short_name_of (node_string (pill_node (b'@' ∷ name) found))) ghost
    ∙ ap (λ (p : NodeId × Option IdError). short_name_of (node_string p.0))
        (parse_user_id-make_user_id node small)

short_lookup :
    (short : Bytes) (t : Tables)
    → is_short_id short ≡ true
    → t.faults ≡ []
    → get_by_short_user_id short t ≡ (ok (find_short short t.nodes), t)
unfolding get_by_short_user_id
short_lookup short t valid quiet = rw (valid, statement-quiet _ t quiet) refl

-- A mention of a node in a Matrix message is written with four characters by which the database finds
-- the node again, if the Matrix user is the node's ghost, the node is stored under the name of its ID,
-- no other stored node ends in the same four, and the database runs the statement.
pub mentioned_node_is_found :
    (default_pill : Bytes → Bytes → Bytes → Bytes) (parse_ghost_mxid : Bytes → Option Bytes)
    (displayname name event_id : Bytes) (node : NodeId) (row : MeshNodeInfo) (t : Tables)
    → parse_ghost_mxid (b'@' ∷ name) ≡ some (make_user_id node)
    → node ≤ max_uint32
    → t.faults ≡ []
    → find_node node t.nodes ≡ some row
    → row.user_id ≡ node_string node
    → All
        (λ (r : MeshNodeInfo).
          ends_with (short_name_of (node_string node)) r.user_id ≡ true → r.node_id ≡ node)
        t.nodes
    → let short = convert_pill default_pill parse_ghost_mxid displayname (b'@' ∷ name) event_id in
      (found : MeshNodeInfo) × (get_by_short_user_id short t ≡ (ok (some found), t))
      × (found.node_id ≡ node)
mentioned_node_is_found default_pill parse displayname name event_id node row t ghost small quiet
      stored named alone =
    let short = short_name_of (node_string node) in
    let (found, e, id) =
      find_short_lem short node row t.nodes stored (ap (ends_with short) named ∙ own_ending node)
        alone in
    (
      found,
      ap (λ pill. get_by_short_user_id pill t)
            (pill_lem default_pill parse displayname name event_id node ghost small)
          ∙ short_lookup short t (short_of-is_short_id node) quiet
          ∙ ap (λ (q : Option MeshNodeInfo). (ok q, t)) e,
      id,
    )
