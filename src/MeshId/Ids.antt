-- ===== src/MeshId/Ids.antt =====
-- pkg/meshid/ids.go and `NodeID.String` of pkg/meshid/node.go: identifiers as text. A parser returns
-- its values beside its error, as in Go.
pub mod RoundTrip
use matrix_meshtastic.Prelude.{
  ℕ, ◌+◌, ◌-◌, Bool, true, false, ◌&&◌, List, [], ◌∷◌, ◌++◌, Option, none, some, Bytes, codes, drop,
  length, bytes_beq, nat_beq, leb, if◌then◌else◌,
}
use matrix_meshtastic.Golang.Strings.{cut, split, strip_prefix}
use matrix_meshtastic.Golang.Strconv.{NumError, parse_uint, format_08x, format_d}
use matrix_meshtastic.Golang.Crc32.{checksum_ieee}

-- A `uint32`.
abbrev pub NodeId : Type 0
NodeId = ℕ

abbrev pub separator_message_id : Bytes
separator_message_id = b'|' ∷ []

abbrev pub separator_portal_id : Bytes
separator_portal_id = b'|' ∷ b'|' ∷ b'|' ∷ []

abbrev pub separator_dm_portal_id : Bytes
separator_dm_portal_id = b'^' ∷ []

abbrev pub broadcast_id : NodeId
broadcast_id = 0xffff_ffff

abbrev pub broadcast_id_no_lora : NodeId
broadcast_id_no_lora = 1

abbrev pub max_hops : ℕ
max_hops = 7

pub data IdError : Type 0 where
  num : NumError → IdError
  bad_message_id bad_portal_id bad_dm_portal_id : IdError

abbrev num_error : Option NumError → Option IdError
num_error none = none
num_error (some e) = some (num e)

-- `NodeID.String`
unfoldable pub node_string : NodeId → Bytes
node_string n = b'!' ∷ format_08x n

cut_prefix : Bytes → Bytes → Bytes
cut_prefix s prefix = elim (strip_prefix prefix s) [ none ↦ s | some rest ↦ rest ]

checked : ℕ × Option NumError → NodeId × Option IdError
checked (n, none) = (n, none)
checked (n, some e) = (0, some (num e))

unfoldable pub parse_node_id : Bytes → NodeId × Option IdError
unfolding cut_prefix checked
parse_node_id s = checked (parse_uint (cut_prefix s (b'!' ∷ [])) 16)

unfoldable pub mxid_to_node_id : Bytes → NodeId
mxid_to_node_id mxid = checksum_ieee mxid

pub make_user_id : NodeId → Bytes
make_user_id n = format_08x n

unfoldable pub make_user_login_id : NodeId → Bytes
make_user_login_id n = format_08x n

pub make_portal_id : Bytes → Option Bytes → Bytes
make_portal_id channel none = channel ++ separator_portal_id
make_portal_id channel (some key) = channel ++ (separator_portal_id ++ key)

pub make_dm_portal_id : NodeId → NodeId → Bytes
unfolding node_string
make_dm_portal_id remote synth = node_string remote ++ (separator_dm_portal_id ++ node_string synth)

pub make_message_id : Bytes → ℕ → Bytes
make_message_id sender_or_channel packet_id =
    format_d packet_id ++ (separator_message_id ++ sender_or_channel)

-- The value is kept beside an error here.
pub parse_user_id : Bytes → NodeId × Option IdError
parse_user_id s = let (n, e) = parse_uint s 16 in (n, num_error e)

pub parse_message_id : Bytes → Bytes × ℕ × Option IdError
parse_message_id s = elim (cut separator_message_id s) [
  | none ↦ ([], 0, some bad_message_id)
  | some (packet_raw, sender_or_channel) ↦
      let (packet_id, e) = parse_uint packet_raw 10 in (sender_or_channel, packet_id, num_error e)
]

has_suffix : Bytes → Bytes → Bool
has_suffix s suffix =
    leb (length suffix) (length s) && bytes_beq (drop (length s - length suffix) s) suffix

-- The second test compares a length with itself less three: it is moved to the left, where ℕ has no
-- negative numbers. It never holds.
portal_parts : Bytes → List Bytes → Bytes × Bytes × Option IdError
unfolding has_suffix
portal_parts s [] = ([], [], some bad_portal_id)
portal_parts s (name ∷ []) =
    if nat_beq (length s + length separator_portal_id) (length s)
      && has_suffix s separator_portal_id
    then (name, [], none)
    else ([], [], some bad_portal_id)
portal_parts s (name ∷ key ∷ []) = (name, key, none)
portal_parts s (name ∷ key ∷ more ∷ rest) = ([], [], some bad_portal_id)

pub parse_portal_id : Bytes → Bytes × Bytes × Option IdError
unfolding portal_parts
parse_portal_id s = portal_parts s (split s separator_portal_id)

second_node : NodeId → NodeId × Option IdError → NodeId × NodeId × Option IdError
second_node remote (synth, e) = (remote, synth, e)

first_node : NodeId × Option IdError → Bytes → NodeId × NodeId × Option IdError
unfolding second_node
first_node (remote, some e) rest = (remote, 0, some e)
first_node (remote, none) rest = second_node remote (parse_node_id rest)

dm_portal_parts : List Bytes → NodeId × NodeId × Option IdError
unfolding first_node
dm_portal_parts (remote ∷ synth ∷ []) = first_node (parse_node_id remote) synth
dm_portal_parts _ = (0, 0, some bad_dm_portal_id)

pub parse_dm_portal_id : Bytes → NodeId × NodeId × Option IdError
unfolding dm_portal_parts
parse_dm_portal_id s = dm_portal_parts (split s separator_dm_portal_id)
