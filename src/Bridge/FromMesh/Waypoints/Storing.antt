-- ===== src/Bridge/FromMesh/Waypoints/Storing.antt =====
-- The waypoints after an event, when the database accepts what the handler writes
-- (`handleMeshWaypoint` of pkg/connector/handle_meshtastic.go).
use matrix_meshtastic.Prelude.{
  ℕ, ◌/◌, ◌≡◌, ◌⊎◌, inl, inr, refl, sym, ap, ◌∙◌, subst, arith, Bool, true, false, List, [], Option,
  none, some, ok, ◌&&◌, ltb, Bool-cases, Option-cases, nat_beq, nat_beq_iff, if◌then◌else◌,
}
use matrix_meshtastic.MeshId.Ids.{NodeId}
use matrix_meshtastic.Mesh.World.{second}
use matrix_meshtastic.Mesh.Events.{MeshWaypointEvent}
use matrix_meshtastic.Bridge.Database.{
  MeshNodeInfo, Waypoint, Tables, find_node, put_node, merged, admits_node, is_node_id, is_stored,
  seen_row, seen_again, set_last_seen, find_waypoint, put_waypoint, admits_waypoint,
  get_by_waypoint_id, set_waypoint, delete_by_id,
}
use matrix_meshtastic.Bridge.Database.Rows.{
  statement-quiet, find_node-id, find_node-put_node, find_waypoint-id, find_waypoint-put_waypoint,
  find_waypoint-remove_waypoint,
}
use matrix_meshtastic.Bridge.Hub.{Outside, Hub, ◌>>=◌, ◌>>◌, query, skip}
use matrix_meshtastic.Bridge.FromMesh.{
  handle_mesh_waypoint, store_waypoint, locks_out, waypoint_row,
}

found_is_stored :
    (id : NodeId) (nodes : List MeshNodeInfo) (r : MeshNodeInfo)
    → find_node id nodes ≡ some r
    → is_stored id nodes ≡ true
unfolding is_stored
found_is_stored id nodes r f = rw (is_stored, f) refl

stored_admits :
    (row : Waypoint) (nodes : List MeshNodeInfo) (r : MeshNodeInfo) (date : ℕ)
    → is_node_id row.updated_by ≡ true
    → find_node row.updated_by nodes ≡ some r
    → (row.locked_to ≡ none) ⊎ (row.locked_to ≡ some row.updated_by)
    → row.updated_date ≡ some date
    → admits_waypoint row nodes ≡ true
unfolding admits_waypoint
stored_admits row nodes r date i f (inl l) d =
    rw (i, found_is_stored row.updated_by nodes r f, l, d) refl
stored_admits row nodes r date i f (inr l) d =
    let stored = found_is_stored row.updated_by nodes r f in
    rw (i, stored, l, d) (rw (i, stored) refl)

-- The sender's row as it is noted.
abbrev pub noted : MeshWaypointEvent → ℕ → List MeshNodeInfo → MeshNodeInfo
noted evt now nodes =
    merged (seen_row evt.event.from evt.event.is_neighbor now)
      (seen_again evt.event.is_neighbor now) (find_node evt.event.from nodes)

noted-node_id :
    (evt : MeshWaypointEvent) (now : ℕ) (nodes : List MeshNodeInfo)
    → (noted evt now nodes).node_id ≡ evt.event.from
noted-node_id evt now nodes = elim (Option-cases (find_node evt.event.from nodes)) [
  | inl e ↦ rw e refl
  | inr (row, e) ↦ rw e (find_node-id evt.event.from nodes row e)
]

-- The tables after the sender was noted.
abbrev after_noting : MeshWaypointEvent → ℕ → Tables → Tables
after_noting evt now t = record t {
  nodes =
      put_node (seen_row evt.event.from evt.event.is_neighbor now)
        (seen_again evt.event.is_neighbor now) t.nodes;
}

set_last_seen_lem :
    (evt : MeshWaypointEvent) (now : ℕ) (t : Tables)
    → t.faults ≡ []
    → admits_node (noted evt now t.nodes) t.nodes ≡ true
    → (set_last_seen evt.event.from evt.event.is_neighbor now t).1 ≡ after_noting evt now t
unfolding set_last_seen
set_last_seen_lem evt now t q a = rw (statement-quiet _ t q) (rw a refl)

noted_is_found :
    (evt : MeshWaypointEvent) (now : ℕ) (t : Tables)
    → find_node evt.event.from (after_noting evt now t).nodes ≡ some (noted evt now t.nodes)
noted_is_found evt now t =
    find_node-put_node _ _ evt.event.from (λ row e. e) t.nodes
    ∙ ground (arith, nat_beq_iff evt.event.from evt.event.from)

and_left : (a b : Bool) → (a && b) ≡ true → a ≡ true
and_left true b e = refl
and_left false b e = e

admitted_id :
    (evt : MeshWaypointEvent) (now : ℕ) (nodes : List MeshNodeInfo)
    → admits_node (noted evt now nodes) nodes ≡ true
    → is_node_id evt.event.from ≡ true
unfolding admits_node
admitted_id evt now nodes a =
    subst (λ (n : NodeId). is_node_id n ≡ true) (noted-node_id evt now nodes) (and_left _ _ a)

-- What an event says of its waypoint.
abbrev pub said : MeshWaypointEvent → Waypoint
said evt = record {
  waypoint_id = evt.waypoint_id;
  name = evt.name;
  icon = evt.icon;
  description = evt.description;
  latitude = evt.latitude;
  longitude = evt.longitude;
  locked_to = evt.locked_to;
  expires = evt.expires;
  updated_by = evt.event.from;
  updated_date = some evt.event.timestamp;
}

abbrev pub owner_of : Option Waypoint → Option NodeId
owner_of none = none
owner_of (some row) = row.locked_to

-- The owner of a waypoint, if there is one, decides over it.
abbrev pub decided : MeshWaypointEvent → Option Waypoint → Option NodeId → Option Waypoint
decided evt found none = some (said evt)
decided evt found (some owner) = if nat_beq owner evt.event.from then some (said evt) else found

-- What should stand under an ID after an event.
abbrev pub expected : MeshWaypointEvent → ℕ → List Waypoint → Option Waypoint
expected evt id rows =
    if nat_beq evt.waypoint_id id
    then if evt.is_delete
      then none
      else decided evt (find_waypoint evt.waypoint_id rows)
          (owner_of (find_waypoint evt.waypoint_id rows))
    else find_waypoint id rows

-- What a stored waypoint needs: an ID in range, a sender that is stored, and a lock on nobody else.
record IsStorable (evt : MeshWaypointEvent) (t : Tables) : Type 0 where
  quiet : t.faults ≡ []
  row : MeshNodeInfo
  sender : find_node evt.event.from t.nodes ≡ some row
  sender_id : is_node_id evt.event.from ≡ true
  in_range : ltb evt.waypoint_id 0x1_0000_0000 ≡ true
  lock : (evt.locked_to ≡ none) ⊎ (evt.locked_to ≡ some evt.event.from)

waypoint_row_id :
    (evt : MeshWaypointEvent) (rows : List Waypoint)
    → (waypoint_row evt (find_waypoint evt.waypoint_id rows)).waypoint_id ≡ evt.waypoint_id
waypoint_row_id evt rows = elim (Option-cases (find_waypoint evt.waypoint_id rows)) [
  | inl e ↦ rw e refl
  | inr (row, e) ↦ rw e (find_waypoint-id evt.waypoint_id rows row e)
]

waypoint_row-said :
    (evt : MeshWaypointEvent) (found : Option Waypoint)
    → ((row : Waypoint) → found ≡ some row → row.waypoint_id ≡ evt.waypoint_id)
    → waypoint_row evt found ≡ said evt
waypoint_row-said evt none same = refl
waypoint_row-said evt (some row) same =
    ap (λ (i : ℕ). record (said evt) { waypoint_id = i }) (same row refl)

decided_by :
    (evt : MeshWaypointEvent) (found : Option Waypoint)
    → (if locks_out evt.event.from found then found else some (said evt))
      ≡ decided evt found (owner_of found)
decided_by evt none = refl
decided_by evt (some row) = owned evt row row.locked_to
  where
    owned :
        (evt : MeshWaypointEvent) (row : Waypoint) (owner : Option NodeId)
        → (if locks_out evt.event.from (some (record row { locked_to = owner }))
            then some row
            else some (said evt))
          ≡ decided evt (some row) owner
    owned evt row none = refl
    owned evt row (some n) = ground arith

stored_as_said :
    (evt : MeshWaypointEvent) (id : ℕ) (rows : List Waypoint)
    → let found = find_waypoint evt.waypoint_id rows in
      (if nat_beq evt.waypoint_id id
        then if locks_out evt.event.from found then found else some (waypoint_row evt found)
        else find_waypoint id rows)
      ≡ (if nat_beq evt.waypoint_id id
          then decided evt found (owner_of found)
          else find_waypoint id rows)
stored_as_said evt id rows =
    let found = find_waypoint evt.waypoint_id rows in
    ap
      (λ (w : Waypoint).
        if nat_beq evt.waypoint_id id
        then if locks_out evt.event.from found then found else some w
        else find_waypoint id rows)
      (waypoint_row-said evt found λ row e. find_waypoint-id evt.waypoint_id rows row e)
    ∙ ap (λ (w : Option Waypoint). if nat_beq evt.waypoint_id id then w else find_waypoint id rows)
        (decided_by evt found)

write_lem :
    (evt : MeshWaypointEvent) (row : Waypoint) (t : Tables)
    → IsStorable evt t
    → row.waypoint_id ≡ evt.waypoint_id
    → row.updated_by ≡ evt.event.from
    → row.locked_to ≡ evt.locked_to
    → row.updated_date ≡ some evt.event.timestamp
    → (set_waypoint row t).1.waypoints ≡ put_waypoint row t.waypoints
unfolding set_waypoint
write_lem evt row t s i u l d = rw (statement-quiet _ t s.quiet) (
    let admitted =
      stored_admits row t.nodes s.row evt.event.timestamp (ap is_node_id u ∙ s.sender_id)
        (ap (λ (n : NodeId). find_node n t.nodes) u ∙ s.sender)
        (elim s.lock [ inl e ↦ inl (l ∙ e) | inr e ↦ inr (l ∙ e ∙ ap some (sym u)) ]) d in
    let ranged : ltb row.waypoint_id 0x1_0000_0000 ≡ true =
      ap (λ (n : ℕ). ltb n 0x1_0000_0000) i ∙ s.in_range in
    rw (ranged, admitted) refl)

module _ (o : Outside) where
  store_lem :
      (evt : MeshWaypointEvent) (h : Hub) (id : ℕ)
      → IsStorable evt h.tables
      → let found = find_waypoint evt.waypoint_id h.tables.waypoints in
        find_waypoint id (store_waypoint o evt (ok found) h).1.tables.waypoints ≡ (
          if nat_beq evt.waypoint_id id
          then if locks_out evt.event.from found then found else some (waypoint_row evt found)
          else find_waypoint id h.tables.waypoints)
  unfolding ◌>>=◌
  store_lem evt h id s =
      let found = find_waypoint evt.waypoint_id h.tables.waypoints in
      elim (Bool-cases (locks_out evt.event.from found)) [
        | inl e ↦ rw e (ground (arith, nat_beq_iff evt.waypoint_id id))
        | inr e ↦ rw e (
            ap (find_waypoint id) (
              write_lem evt (waypoint_row evt found) h.tables s
                (waypoint_row_id evt h.tables.waypoints) refl refl refl)
            ∙ find_waypoint-put_waypoint (waypoint_row evt found) id h.tables.waypoints
            ∙ ap
                (λ (n : ℕ).
                  if nat_beq n id
                  then some (waypoint_row evt found)
                  else find_waypoint id h.tables.waypoints)
                (waypoint_row_id evt h.tables.waypoints))
      ]

  read_lem :
      (evt : MeshWaypointEvent) (h : Hub) (id : ℕ)
      → IsStorable evt h.tables
      → let found = find_waypoint evt.waypoint_id h.tables.waypoints in
        find_waypoint id
          ((query (get_by_waypoint_id evt.waypoint_id) >>= store_waypoint o evt)
            h).1.tables.waypoints
        ≡ (if nat_beq evt.waypoint_id id
            then if locks_out evt.event.from found then found else some (waypoint_row evt found)
            else find_waypoint id h.tables.waypoints)
  unfolding ◌>>=◌ get_by_waypoint_id
  read_lem evt h id s = rw (statement-quiet _ h.tables s.quiet) (store_lem evt h id s)

  delete_lem :
      (evt : MeshWaypointEvent) (h : Hub) (id : ℕ)
      → h.tables.faults ≡ []
      → find_waypoint id ((query (delete_by_id evt.waypoint_id) >> skip) h).1.tables.waypoints
        ≡ (if nat_beq evt.waypoint_id id then none else find_waypoint id h.tables.waypoints)
  unfolding ◌>>=◌ delete_by_id
  delete_lem evt h id q =
      rw (statement-quiet _ h.tables q)
        (find_waypoint-remove_waypoint evt.waypoint_id id h.tables.waypoints)

  -- The waypoints after an event, while no statement fails, the ID is in range, the sender's row is
  -- one that the node table admits and the event locks the waypoint to nobody but its sender: under
  -- the ID of the event, nothing when it deletes, what was there when that is locked to another node,
  -- and otherwise the event's ID, name, icon, description, place, lock and expiry with its sender and
  -- time; under every other ID what was there.
  pub handle_mesh_waypoint_lem :
      (evt : MeshWaypointEvent) (h : Hub) (id : ℕ)
      → h.tables.faults ≡ []
      → admits_node (noted evt (h.world.now / second) h.tables.nodes) h.tables.nodes ≡ true
      → ltb evt.waypoint_id 0x1_0000_0000 ≡ true
      → (evt.locked_to ≡ none) ⊎ (evt.locked_to ≡ some evt.event.from)
      → find_waypoint id (handle_mesh_waypoint o evt h).1.tables.waypoints
        ≡ expected evt id h.tables.waypoints
  unfolding handle_mesh_waypoint ◌>>=◌
  handle_mesh_waypoint_lem evt h id q a r l =
      let now = h.world.now / second in
      let t = after_noting evt now h.tables in
      let after : Hub = record h { tables = t } in
      let s : IsStorable evt t = record {
        quiet = q;
        row = _;
        sender = noted_is_found evt now h.tables;
        sender_id = admitted_id evt now h.tables.nodes a;
        in_range = r;
        lock = l;
      } in
      rw (set_last_seen_lem evt now h.tables q a) (elim (Bool-cases evt.is_delete) [
        | inl e ↦ rw e (delete_lem evt after id q)
        | inr e ↦ rw e (read_lem evt after id s ∙ stored_as_said evt id h.tables.waypoints)
      ])
