-- ===== src/Bridge/Database.antt =====
-- The tables of pkg/connector/meshdb and the statements on them (mesh_node.go, waypoints.go), with the
-- constraints of upgrades/00-latest-schema.sql that every engine checks. What else the engine may
-- refuse stands in `faults`: the outcomes of the next statements, none where it does as it is told.
-- Times are in seconds, as stored.
pub mod Rows
pub mod Lookups
use matrix_meshtastic.Prelude.{
  ℕ, Bool, true, false, not, ◌&&◌, ◌||◌, List, [], ◌∷◌, Option, none, some, Bytes, Error,
  constraint_violated, Result, ok, err, bytes_beq, nat_beq, leb, ltb, filter_by, if◌then◌else◌,
}
use matrix_meshtastic.Prelude.Int.{ℤ}
use matrix_meshtastic.External.{Role}
use matrix_meshtastic.MeshId.Ids.{NodeId, broadcast_id, node_string}

pub record MeshNodeInfo : Type 0 where
  pub node_id : NodeId
  pub user_id : Bytes
  pub long_name : Bytes
  pub short_name : Bytes
  pub role : Option Role  -- none is the empty text
  pub is_licensed : Bool
  pub is_unmessagable : Bool
  pub is_managed : Bool
  pub is_direct : Bool
  pub public_key : Bytes
  pub private_key : Bytes
  pub last_seen : Option ℕ

pub record Waypoint : Type 0 where
  pub waypoint_id : ℕ
  pub name : Bytes
  pub icon : ℕ
  pub description : Bytes
  pub latitude : ℤ
  pub longitude : ℤ
  pub locked_to : Option NodeId
  pub expires : Option ℕ
  pub updated_by : NodeId
  pub updated_date : Option ℕ

pub record Tables : Type 0 where
  pub nodes : List MeshNodeInfo
  pub waypoints : List Waypoint
  pub faults : List (Option Error)

abbrev pub Query : Type 0 → Type 0
Query A = Tables → Result A × Tables

-- The engine's own outcome comes first.
unfoldable pub statement : {A : Type 0} → Query A → Query A
statement q t = elim t.faults [
  | [] ↦ q t
  | o ∷ rest ↦ elim o [
    | none ↦ q (record t { faults = rest })
    | some e ↦ (err e, record t { faults = rest })
  ]
]

-- `newMeshNodeInfo`: a row with nothing set.
abbrev pub new_mesh_node_info : MeshNodeInfo
new_mesh_node_info = record {
  node_id = 0;
  user_id = [];
  long_name = [];
  short_name = [];
  role = none;
  is_licensed = false;
  is_unmessagable = false;
  is_managed = false;
  is_direct = false;
  public_key = [];
  private_key = [];
  last_seen = none;
}

-- `WHERE id=$1`
unfoldable pub find_node : NodeId → List MeshNodeInfo → Option MeshNodeInfo
find_node id [] = none
find_node id (row ∷ rows) =
    let rest = find_node id rows in if nat_beq row.node_id id then some row else rest

-- `INSERT` of a row, and what `ON CONFLICT (id) DO UPDATE` makes of the row that is there.
unfoldable pub put_node :
    MeshNodeInfo → (MeshNodeInfo → MeshNodeInfo) → List MeshNodeInfo → List MeshNodeInfo
put_node new merge [] = new ∷ []
put_node new merge (row ∷ rows) =
    let rest = put_node new merge rows in
    if nat_beq row.node_id new.node_id then merge row ∷ rows else row ∷ rest

-- Whether another node has the user ID (`UNIQUE (user_id)`).
unfoldable pub is_taken : Bytes → NodeId → List MeshNodeInfo → Bool
is_taken user_id id [] = false
is_taken user_id id (row ∷ rows) =
    (not (nat_beq row.node_id id) && bytes_beq row.user_id user_id) || is_taken user_id id rows

-- `CHECK (id >= 2 AND id < 4294967295)`
abbrev pub is_node_id : NodeId → Bool
is_node_id id = leb 2 id && ltb id broadcast_id

-- The row that a statement leaves under an ID.
abbrev pub merged :
    MeshNodeInfo → (MeshNodeInfo → MeshNodeInfo) → Option MeshNodeInfo → MeshNodeInfo
merged new merge none = new
merged new merge (some row) = merge row

unfoldable pub admits_node : MeshNodeInfo → List MeshNodeInfo → Bool
unfolding is_taken
admits_node row nodes = is_node_id row.node_id && not (is_taken row.user_id row.node_id nodes)

abbrev pub write_node : MeshNodeInfo → (MeshNodeInfo → MeshNodeInfo) → Query (Unit {0})
write_node new merge t =
    if admits_node (merged new merge (find_node new.node_id t.nodes)) t.nodes
    then (ok tt, record t { nodes = put_node new merge t.nodes })
    else (err constraint_violated, t)

unfoldable pub get_by_node_id : NodeId → Query (Option MeshNodeInfo)
unfolding statement find_node
get_by_node_id id = statement λ t. (ok (find_node id t.nodes), t)

-- `SetAll`: every column but the key is taken from the new row.
unfoldable pub set_all : MeshNodeInfo → Query (Unit {0})
unfolding statement find_node put_node admits_node
set_all row = statement (write_node row (λ old. row))

-- The row that `SetLastSeen` inserts for a node that it does not know.
abbrev pub seen_row : NodeId → Bool → ℕ → MeshNodeInfo
seen_row id is_direct now = record new_mesh_node_info {
  node_id = id;
  user_id = node_string id;
  is_direct = is_direct;
  last_seen = some now;
}

-- What it makes of a node that it knows.
abbrev pub seen_again : Bool → ℕ → MeshNodeInfo → MeshNodeInfo
seen_again is_direct now old = record old { is_direct = is_direct; last_seen = some now }

unfoldable pub set_last_seen : NodeId → Bool → ℕ → Query (Unit {0})
unfolding statement find_node put_node admits_node
set_last_seen id is_direct now =
    statement (write_node (seen_row id is_direct now) (seen_again is_direct now))

is_neighbor_row : MeshNodeInfo → Bool
is_neighbor_row row = row.is_direct && (elim row.last_seen [ none ↦ false | some _ ↦ true ])

unfoldable pub get_direct_neighbors : Query (List MeshNodeInfo)
unfolding statement is_neighbor_row
get_direct_neighbors = statement λ t. (ok (filter_by is_neighbor_row t.nodes), t)

unfoldable pub get_managed_nodes : Query (List MeshNodeInfo)
unfolding statement
get_managed_nodes = statement λ t. (ok (filter_by (λ row. row.is_managed) t.nodes), t)

-- `newWaypoint`
abbrev pub new_waypoint : Waypoint
new_waypoint = record {
  waypoint_id = 0;
  name = [];
  icon = 0;
  description = [];
  latitude = ℤ.pos 0;
  longitude = ℤ.pos 0;
  locked_to = none;
  expires = none;
  updated_by = 0;
  updated_date = none;
}

unfoldable pub find_waypoint : ℕ → List Waypoint → Option Waypoint
find_waypoint id [] = none
find_waypoint id (row ∷ rows) =
    let rest = find_waypoint id rows in if nat_beq row.waypoint_id id then some row else rest

unfoldable pub put_waypoint : Waypoint → List Waypoint → List Waypoint
put_waypoint new [] = new ∷ []
put_waypoint new (row ∷ rows) =
    let rest = put_waypoint new rows in
    if nat_beq row.waypoint_id new.waypoint_id then new ∷ rows else row ∷ rest

-- `DELETE ... WHERE id=$1`
unfoldable pub remove_waypoint : ℕ → List Waypoint → List Waypoint
remove_waypoint id rows = filter_by (λ (row : Waypoint). not (nat_beq row.waypoint_id id)) rows

unfoldable pub is_stored : NodeId → List MeshNodeInfo → Bool
unfolding find_node
is_stored id rows = elim (find_node id rows) [ none ↦ false | some _ ↦ true ]

-- The node IDs of a waypoint are in range and name stored nodes (the two foreign keys), and the date
-- is set.
unfoldable pub admits_waypoint : Waypoint → List MeshNodeInfo → Bool
unfolding is_stored
admits_waypoint row nodes =
    is_node_id row.updated_by
    && is_stored row.updated_by nodes
    && (elim row.locked_to [ none ↦ true | some id ↦ is_node_id id && is_stored id nodes ])
    && (elim row.updated_date [ none ↦ false | some _ ↦ true ])

abbrev pub write_waypoint : Waypoint → Query (Unit {0})
write_waypoint row t =
    if ltb row.waypoint_id 0x1_0000_0000 && admits_waypoint row t.nodes
    then (ok tt, record t { waypoints = put_waypoint row t.waypoints })
    else (err constraint_violated, t)

unfoldable pub get_by_waypoint_id : ℕ → Query (Option Waypoint)
unfolding statement find_waypoint
get_by_waypoint_id id = statement λ t. (ok (find_waypoint id t.waypoints), t)

unfoldable pub set_waypoint : Waypoint → Query (Unit {0})
unfolding statement put_waypoint admits_waypoint
set_waypoint row = statement (write_waypoint row)

unfoldable pub delete_by_id : ℕ → Query (Unit {0})
unfolding statement remove_waypoint
delete_by_id id = statement λ t. (ok tt, record t { waypoints = remove_waypoint id t.waypoints })
