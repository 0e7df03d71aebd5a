-- ===== src/MeshId/Node.antt =====
-- pkg/meshid/node.go: what is derived from a node ID.
pub mod Laws
use matrix_meshtastic.Prelude.{
  ℕ, ◌+◌, ◌-◌, ◌*◌, ◌/◌, ◌%◌, ◌^◌, [], ◌∷◌, ◌++◌, Bytes, codes, length, drop,
}
use matrix_meshtastic.MeshId.Ids.{NodeId, node_string}

-- `binary.BigEndian.PutUint32`, then the two bytes of a locally administered address in front.
pub to_mac_address : NodeId → Bytes
to_mac_address n =
    0xa ∷ 0 ∷ (n / 2 ^ 24 % 256) ∷ (n / 2 ^ 16 % 256) ∷ (n / 2 ^ 8 % 256) ∷ (n % 256) ∷ []

-- `n & 0xFF0000` is what is left of the low 24 bits without the low 16.
pub get_node_color : NodeId → ℕ × ℕ × ℕ
get_node_color n =
    ((n % 2 ^ 24 - n % 2 ^ 16) / 2 ^ 16 % 256, (n % 2 ^ 16 - n % 2 ^ 8) / 2 ^ 8 % 256, n % 2 ^ 8)

-- The long name, then the short name: the last four characters of the node's text.
pub get_default_node_names : NodeId → Bytes × Bytes
get_default_node_names n =
    let name = node_string n in
    let short_name = drop (length name - 4) name in (codes "Meshtastic " ++ short_name, short_name)
