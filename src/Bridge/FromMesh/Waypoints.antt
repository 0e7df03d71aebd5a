-- ===== src/Bridge/FromMesh/Waypoints.antt =====
-- What a waypoint from the mesh does to the waypoints that are stored (`handleMeshWaypoint` of
-- pkg/connector/handle_meshtastic.go).
pub mod Storing
use matrix_meshtastic.Prelude.{
  ℕ, ◌/◌, ◌<◌, ◌≡◌, ◌≢◌, ◌⊎◌, inl, inr, refl, sym, ap, ◌∙◌, subst, arith, Bool, true, false, List,
  [], ◌∷◌, Option, none, some, Bytes, Error, Result, ok, err, ◌&&◌, ltb, Bool-cases, Option-cases,
  nat_beq, nat_beq_iff, if◌then◌else◌,
}
use matrix_meshtastic.MeshId.Ids.{NodeId}
use matrix_meshtastic.Mesh.World.{second}
use matrix_meshtastic.Mesh.Events.{MeshWaypointEvent}
use matrix_meshtastic.Bridge.Database.{
  MeshNodeInfo, Waypoint, Tables, statement, find_node, put_node, merged, admits_node, is_node_id,
  is_stored, seen_row, seen_again, set_last_seen, write_node, find_waypoint, put_waypoint,
  remove_waypoint, admits_waypoint, get_by_waypoint_id, set_waypoint, delete_by_id,
}
use matrix_meshtastic.Bridge.Database.Rows.{
  statement-quiet, find_node-id, find_node-put_node, find_waypoint-put_waypoint,
  find_waypoint-remove_waypoint,
}
use matrix_meshtastic.Bridge.Hub.{Outside, Hub, ◌>>=◌, query}
use matrix_meshtastic.Bridge.FromMesh.{
  handle_mesh_waypoint, store_waypoint, locks_out, waypoint_row,
}

set_last_seen-waypoints :
    (id : NodeId) (d : Bool) (now : ℕ) (t : Tables)
    → (set_last_seen id d now t).1.waypoints ≡ t.waypoints
unfolding set_last_seen statement
set_last_seen-waypoints id d now t = ground arith

get_by_waypoint_id-waypoints :
    (id : ℕ) (t : Tables) → (get_by_waypoint_id id t).1.waypoints ≡ t.waypoints
unfolding get_by_waypoint_id statement
get_by_waypoint_id-waypoints id t = ground arith

-- A read answers with what is stored, or fails.
read_cases :
    (id : ℕ) (w : List Waypoint) (n : List MeshNodeInfo) (o : List (Option Error))
    → let r = (get_by_waypoint_id id (record { nodes = n; waypoints = w; faults = o })).0 in
      (r ≡ ok (find_waypoint id w)) ⊎ ((e : Error) × (r ≡ err e))
unfolding get_by_waypoint_id statement
read_cases id w n [] = inl refl
read_cases id w n (none ∷ o) = inl refl
read_cases id w n (some e ∷ o) = inr (e, refl)

module _ (o : Outside) where
  locked_store :
      (evt : MeshWaypointEvent) (found : Result (Option Waypoint)) (row : Waypoint) (owner : NodeId)
      (h : Hub)
      → (found ≡ ok (some row)) ⊎ ((e : Error) × (found ≡ err e))
      → row.locked_to ≡ some owner
      → owner ≢ evt.event.from
      → (store_waypoint o evt found h).1.tables.waypoints ≡ h.tables.waypoints
  locked_store evt found row owner h (inl e) l n =
      rw e (ground (arith, nat_beq_iff owner evt.event.from))
  locked_store evt found row owner h (inr (x, e)) l n = rw e refl

  read_and_store_locked :
      (evt : MeshWaypointEvent) (h : Hub) (row : Waypoint) (owner : NodeId)
      → find_waypoint evt.waypoint_id h.tables.waypoints ≡ some row
      → row.locked_to ≡ some owner
      → owner ≢ evt.event.from
      → ((query (get_by_waypoint_id evt.waypoint_id) >>= store_waypoint o evt) h).1.tables.waypoints
        ≡ h.tables.waypoints
  unfolding ◌>>=◌
  read_and_store_locked evt h row owner f l n =
      locked_store evt _ row owner
        (record h { tables = (get_by_waypoint_id evt.waypoint_id h.tables).1 })
        (subst
          (λ (x : Option Waypoint).
            ((get_by_waypoint_id evt.waypoint_id h.tables).0 ≡ ok x)
            ⊎ ((e : Error) × ((get_by_waypoint_id evt.waypoint_id h.tables).0 ≡ err e)))
          f (read_cases evt.waypoint_id h.tables.waypoints h.tables.nodes h.tables.faults))
        l n
      ∙ get_by_waypoint_id-waypoints evt.waypoint_id h.tables

  -- A waypoint that is locked to another node stays as it is, and so do all others, when an event
  -- that does not delete it arrives, whatever the database does.
  pub locked_waypoint_stays :
      (evt : MeshWaypointEvent) (h : Hub) (row : Waypoint) (owner : NodeId)
      → find_waypoint evt.waypoint_id h.tables.waypoints ≡ some row
      → row.locked_to ≡ some owner
      → owner ≢ evt.event.from
      → evt.is_delete ≡ false
      → (handle_mesh_waypoint o evt h).1.tables.waypoints ≡ h.tables.waypoints
  unfolding handle_mesh_waypoint ◌>>=◌
  locked_waypoint_stays evt h row owner f l n d =
      let same =
        set_last_seen-waypoints evt.event.from evt.event.is_neighbor (h.world.now / second)
          h.tables in
      rw d (
        read_and_store_locked evt _ row owner (ap (find_waypoint evt.waypoint_id) same ∙ f) l n
        ∙ same)
