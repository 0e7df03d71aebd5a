-- ===== src/Bridge/Database/Rows.antt =====
-- What the statements on the tables leave in them.
use matrix_meshtastic.Prelude.{
  ℕ, ◌≡◌, refl, arith, true, ok, List, [], ◌∷◌, Option, none, some, nat_beq, nat_beq_iff,
  if◌then◌else◌,
}
use matrix_meshtastic.MeshId.Ids.{NodeId}
use matrix_meshtastic.Bridge.Database.{
  Tables, Query, statement, set_all, get_by_node_id, admits_node, MeshNodeInfo, Waypoint, merged,
  find_node, put_node, find_waypoint, put_waypoint, remove_waypoint,
}

pub find_node-put_node :
    (new : MeshNodeInfo) (merge : MeshNodeInfo → MeshNodeInfo) (id : NodeId)
    → ((row : MeshNodeInfo) → row.node_id ≡ new.node_id → (merge row).node_id ≡ new.node_id)
    → (rows : List MeshNodeInfo)
    → find_node id (put_node new merge rows) ≡ (
        if nat_beq new.node_id id
        then some (merged new merge (find_node id rows))
        else find_node id rows)
unfolding find_node put_node
find_node-put_node new merge id same [] = refl
find_node-put_node new merge id same (row ∷ rows) = ground (
  arith,
  nat_beq_iff row.node_id new.node_id,
  nat_beq_iff row.node_id id,
  nat_beq_iff new.node_id id,
  same row,
  find_node-put_node new merge id same rows,
)

pub find_waypoint-put_waypoint :
    (new : Waypoint) (id : ℕ) (rows : List Waypoint)
    → find_waypoint id (put_waypoint new rows)
      ≡ (if nat_beq new.waypoint_id id then some new else find_waypoint id rows)
unfolding find_waypoint put_waypoint
find_waypoint-put_waypoint new id [] = refl
find_waypoint-put_waypoint new id (row ∷ rows) = ground (
  arith,
  nat_beq_iff row.waypoint_id new.waypoint_id,
  nat_beq_iff row.waypoint_id id,
  nat_beq_iff new.waypoint_id id,
  find_waypoint-put_waypoint new id rows,
)

pub find_waypoint-remove_waypoint :
    (gone id : ℕ) (rows : List Waypoint)
    → find_waypoint id (remove_waypoint gone rows)
      ≡ (if nat_beq gone id then none else find_waypoint id rows)
unfolding find_waypoint remove_waypoint
find_waypoint-remove_waypoint gone id [] = ground arith
find_waypoint-remove_waypoint gone id (row ∷ rows) = ground (
  arith,
  nat_beq_iff row.waypoint_id gone,
  nat_beq_iff row.waypoint_id id,
  nat_beq_iff gone id,
  find_waypoint-remove_waypoint gone id rows,
)

pub find_node-id :
    (id : NodeId) (rows : List MeshNodeInfo) (row : MeshNodeInfo)
    → find_node id rows ≡ some row
    → row.node_id ≡ id
unfolding find_node
find_node-id id [] row e = cc
find_node-id id (r ∷ rows) row e =
    ground (arith, nat_beq_iff r.node_id id, find_node-id id rows row)

pub find_waypoint-id :
    (id : ℕ) (rows : List Waypoint) (row : Waypoint)
    → find_waypoint id rows ≡ some row
    → row.waypoint_id ≡ id
unfolding find_waypoint
find_waypoint-id id [] row e = cc
find_waypoint-id id (r ∷ rows) row e =
    ground (arith, nat_beq_iff r.waypoint_id id, find_waypoint-id id rows row)

-- Statements run undisturbed when no outcome of the engine's own comes first.
pub statement-quiet : {A : Type 0} (q : Query A) (t : Tables) → t.faults ≡ [] → statement q t ≡ q t
unfolding statement
statement-quiet q t e = rw e

merged_same :
    (row : MeshNodeInfo) (found : Option MeshNodeInfo) → merged row (λ old. row) found ≡ row
merged_same row none = refl
merged_same row (some old) = refl

-- A row that the table admits is stored whole.
pub set_all_lem :
    (row : MeshNodeInfo) (t : Tables)
    → t.faults ≡ []
    → admits_node row t.nodes ≡ true
    → set_all row t ≡ (ok tt, record t { nodes = put_node row (λ old. row) t.nodes })
unfolding set_all
set_all_lem row t q a =
    rw (statement-quiet _ t q) (rw (merged_same row (find_node row.node_id t.nodes), a) refl)

pub get_by_node_id_lem :
    (id : NodeId) (t : Tables)
    → t.faults ≡ []
    → get_by_node_id id t ≡ (ok (find_node id t.nodes), t)
unfolding get_by_node_id
get_by_node_id_lem id t q = rw (statement-quiet _ t q) refl
