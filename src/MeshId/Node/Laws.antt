-- ===== src/MeshId/Node/Laws.antt =====
-- What the derived values keep of the node ID, and that the default names fit the mesh's limits.
use matrix_meshtastic.Prelude.{
  ℕ, suc, ◌+◌, ◌-◌, ◌*◌, ◌%◌, ◌^◌, ◌≤◌, ◌<◌, ◌≡◌, refl, [], ◌∷◌, arith, Bytes, length, take, drop,
  length-drop,
}
use matrix_meshtastic.Golang.Strconv.{max_uint32, format_08x}
use matrix_meshtastic.Golang.Strconv.Laws.{length-format_08x}
use matrix_meshtastic.MeshId.Ids.{NodeId, node_string}
use matrix_meshtastic.MeshId.Node.{to_mac_address, get_node_color, get_default_node_names}

-- The number that a big-endian sequence of bytes stands for.
abbrev pub big_endian : Bytes → ℕ → ℕ
big_endian [] acc = acc
big_endian (b ∷ s) acc = big_endian s (acc * 256 + b)

-- The MAC address has six bytes: the first two say that it is locally administered, and the other
-- four spell the 32-bit node ID.
pub to_mac_address_lem :
    (n : NodeId)
    → n ≤ max_uint32
    → (length (to_mac_address n) ≡ 6)
      × (take 2 (to_mac_address n) ≡ 0xa ∷ 0 ∷ [])
      × (big_endian (drop 2 (to_mac_address n)) 0 ≡ n)
unfolding to_mac_address
to_mac_address_lem n h = (refl, refl, omega arith)

-- The three colour components are bytes and together are the low 24 bits of the node ID.
pub get_node_color_lem :
    (n : NodeId)
    → let (r, g, b) = get_node_color n in
      (r * 2 ^ 16 + g * 2 ^ 8 + b ≡ n % 2 ^ 24) × (r < 256) × (g < 256) × (b < 256)
unfolding get_node_color
get_node_color_lem n = omega arith

-- The default names of every node fit the limits of the mesh: four bytes for the short name, 39 for
-- the long one.
pub get_default_node_names_fit :
    (n : NodeId)
    → let (long_name, short_name) = get_default_node_names n in
      (length short_name ≡ 4) × (length long_name ≤ 39)
unfolding get_default_node_names node_string
get_default_node_names_fit n = omega (
  arith,
  length-drop (suc (length (format_08x n)) - 4) (b'!' ∷ format_08x n),
  length-format_08x n,
)
