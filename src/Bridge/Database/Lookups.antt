-- ===== src/Bridge/Database/Lookups.antt =====
-- The other statements on the two tables (pkg/connector/meshdb/mesh_node.go and waypoints.go).
use matrix_meshtastic.Prelude.{
  ℕ, Bool, false, ◌&&◌, ◌||◌, List, [], ◌∷◌, Option, none, some, Bytes, bad_short_user_id, ok, err,
  length, drop, take, leb, nat_beq, bytes_beq, filter_by, if◌then◌else◌,
}
use matrix_meshtastic.MeshId.Ids.{NodeId}
use matrix_meshtastic.Bridge.Database.{MeshNodeInfo, Waypoint, Query, statement}

find_user : Bytes → List MeshNodeInfo → Option MeshNodeInfo
find_user user_id [] = none
find_user user_id (row ∷ rows) =
    let rest = find_user user_id rows in if bytes_beq row.user_id user_id then some row else rest

unfoldable pub get_by_user_id : Bytes → Query (Option MeshNodeInfo)
unfolding find_user
get_by_user_id user_id = statement λ t. (ok (find_user user_id t.nodes), t)

-- `[0-9a-f]`
abbrev pub is_hex : ℕ → Bool
is_hex b = (leb b'0' b && leb b b'9') || (leb b'a' b && leb b b'f')

abbrev pub is_short_id : Bytes → Bool
is_short_id (a ∷ b ∷ c ∷ d ∷ []) = is_hex a && is_hex b && is_hex c && is_hex d
is_short_id _ = false

-- `LIKE '!____' || id`: nine characters that start with `!` and end with the four. The case of letters
-- counts, as in Postgres; SQLite's LIKE ignores it for ASCII letters.
abbrev pub ends_with : Bytes → Bytes → Bool
ends_with short user_id =
    nat_beq (length user_id) 9
    && bytes_beq (take 1 user_id) (b'!' ∷ [])
    && bytes_beq (drop 5 user_id) short

unfoldable pub find_short : Bytes → List MeshNodeInfo → Option MeshNodeInfo
find_short short [] = none
find_short short (row ∷ rows) =
    let rest = find_short short rows in if ends_with short row.user_id then some row else rest

unfoldable pub get_by_short_user_id : Bytes → Query (Option MeshNodeInfo)
unfolding find_short
get_by_short_user_id short t =
    if is_short_id short
    then statement (λ t. (ok (find_short short t.nodes), t)) t
    else (err bad_short_user_id, t)

rename : NodeId → Bytes → Bytes → List MeshNodeInfo → List MeshNodeInfo
rename id long short [] = []
rename id long short (row ∷ rows) =
    let rest = rename id long short rows in
    (if nat_beq row.node_id id then record row { long_name = long; short_name = short } else row)
    ∷ rest

unfoldable pub set_names : NodeId → Bytes → Bytes → Query (Unit {0})
unfolding rename
set_names id long short = statement λ t. (ok tt, record t { nodes = rename id long short t.nodes })

abbrev is_locked_to : NodeId → Option NodeId → Bool
is_locked_to node none = false
is_locked_to node (some owner) = nat_beq owner node

-- `GetByNodeID` of the waypoints
unfoldable pub get_waypoints_by_node_id : NodeId → Query (List Waypoint)
get_waypoints_by_node_id node = statement λ t. (
  ok (filter_by (λ w. is_locked_to node w.locked_to || nat_beq w.updated_by node) t.waypoints),
  t,
)
