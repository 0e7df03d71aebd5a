-- ===== src/MeshId/Ids/RoundTrip.antt =====
-- Every identifier that pkg/meshid/ids.go makes is read back by the parser beside it.
use matrix_meshtastic.Prelude.{ℕ, ◌≤◌, ◌<◌, ◌≡◌, ◌≢◌, [], ◌∷◌, none, some, arith, Bytes, Lacks}
use matrix_meshtastic.Golang.Strings.{split_pair, cut-append}
use matrix_meshtastic.Golang.Strconv.{max_uint32, digit_char, format_d}
use matrix_meshtastic.Golang.Strconv.Laws.{
  parse_uint-format_08x, parse_uint-format_d, format_08x-Lacks, format_d-Lacks,
}
use matrix_meshtastic.MeshId.Ids.{
  NodeId, node_string, parse_node_id, make_user_id, parse_user_id, make_portal_id, parse_portal_id,
  make_dm_portal_id, parse_dm_portal_id, make_message_id, parse_message_id,
}

-- The printed form of every 32-bit node ID is read back as that node.
pub parse_node_id-node_string :
    (n : NodeId) → n ≤ max_uint32 → parse_node_id (node_string n) ≡ (n, none)
unfolding parse_node_id node_string
parse_node_id-node_string n h = rw (parse_uint-format_08x n h)

-- The user ID of every 32-bit node ID is read back as that node.
pub parse_user_id-make_user_id :
    (n : NodeId) → n ≤ max_uint32 → parse_user_id (make_user_id n) ≡ (n, none)
unfolding parse_user_id make_user_id
parse_user_id-make_user_id n h = rw (parse_uint-format_08x n h)

-- A message ID is read back as its 32-bit packet ID and its sender, whatever text the sender is.
pub parse_message_id-make_message_id :
    (sender : Bytes) (packet_id : ℕ)
    → packet_id ≤ max_uint32
    → parse_message_id (make_message_id sender packet_id) ≡ (sender, packet_id, none)
unfolding parse_message_id make_message_id
parse_message_id-make_message_id sender packet_id h =
    rw
      (
        parse_message_id,
        cut-append b'|' [] (format_d packet_id) sender
            (format_d-Lacks b'|' packet_id (omega arith)),
      )
      (rw (parse_uint-format_d packet_id h))

-- A portal ID is read back as its channel name and key, if neither holds a `|`.
pub parse_portal_id-make_portal_id :
    (channel key : Bytes)
    → Lacks b'|' channel
    → Lacks b'|' key
    → parse_portal_id (make_portal_id channel (some key)) ≡ (channel, key, none)
unfolding parse_portal_id make_portal_id
parse_portal_id-make_portal_id channel key hc hk =
    rw (split_pair b'|' (b'|' ∷ b'|' ∷ []) channel key hc hk)

-- A portal ID without a key is read back with the empty key, if the channel name holds no `|`.
pub parse_portal_id-make_portal_id_keyless :
    (channel : Bytes)
    → Lacks b'|' channel
    → parse_portal_id (make_portal_id channel none) ≡ (channel, [], none)
unfolding parse_portal_id make_portal_id
parse_portal_id-make_portal_id_keyless channel hc =
    rw (split_pair b'|' (b'|' ∷ b'|' ∷ []) channel [] hc tt)

digit_char-ne_caret : (d : ℕ) → d < 16 → digit_char d ≢ b'^'
unfolding digit_char
digit_char-ne_caret d h = ground arith

node_string-Lacks : (n : NodeId) → Lacks b'^' (node_string n)
unfolding node_string
node_string-Lacks n = (λ e. absurd (omega arith), format_08x-Lacks b'^' n digit_char-ne_caret)

-- The portal ID of a direct chat is read back as its two 32-bit node IDs, in order.
pub parse_dm_portal_id-make_dm_portal_id :
    (remote synth : NodeId)
    → remote ≤ max_uint32
    → synth ≤ max_uint32
    → parse_dm_portal_id (make_dm_portal_id remote synth) ≡ (remote, synth, none)
unfolding parse_dm_portal_id make_dm_portal_id
parse_dm_portal_id-make_dm_portal_id remote synth hr hs =
    rw
      (split_pair b'^' [] (node_string remote) (node_string synth) (node_string-Lacks remote)
        (node_string-Lacks synth))
      (rw (parse_node_id-node_string remote hr) (rw (parse_node_id-node_string synth hs)))
