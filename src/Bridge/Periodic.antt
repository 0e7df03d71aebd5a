-- ===== src/Bridge/Periodic.antt =====
-- What the bridge broadcasts from time to time (pkg/connector/background_tasks.go). A time t is after
-- `now - limit` when now is below t + limit. The delays of at most five minutes before a managed node is
-- broadcast are not modelled: a task gives the rows for which a goroutine is started.
pub mod Recent
pub mod Listed
use matrix_meshtastic.Prelude.{
  ℕ, ◌+◌, ◌*◌, ◌/◌, Bool, true, false, not, ◌&&◌, List, [], ◌∷◌, Option, none, some, Bytes, Result,
  ok, err, map, filter_by, ltb, nat_beq, if◌then◌else◌,
}
use matrix_meshtastic.MeshId.Ids.{NodeId, broadcast_id}
use matrix_meshtastic.Mesh.World.{second}
use matrix_meshtastic.Mesh.Outgoing.{send_node_info, send_telemetry, send_host_metrics}
use matrix_meshtastic.Mesh.Reports.{send_neighbor_info}
use matrix_meshtastic.Bridge.Database.{MeshNodeInfo, get_direct_neighbors, get_managed_nodes}
use matrix_meshtastic.Bridge.Hub.{
  Outside, Hub, Task, ◌>>=◌, ◌>>◌, return, skip, mesh, query, the_config,
}
use matrix_meshtastic.Bridge.Managed.{get_base_node_id}
use matrix_meshtastic.Bridge.Keys.{get_ghost_public_key}
use matrix_meshtastic.Bridge.Ghosts.{key_or_nil}
use matrix_meshtastic.Bridge.Cleanup.{day}

abbrev pub rate_neighbor_info : ℕ
rate_neighbor_info = (12 * 3600 + 31) * second

abbrev pub heard : MeshNodeInfo → ℕ
heard row = elim row.last_seen [ none ↦ 0 | some t ↦ t * second ]

-- A row is put before the first one that was heard earlier.
pub insert_recent : MeshNodeInfo → List MeshNodeInfo → List MeshNodeInfo
insert_recent row [] = row ∷ []
insert_recent row (next ∷ rows) =
    let rest = insert_recent row rows in
    if ltb (heard next) (heard row) then row ∷ next ∷ rows else next ∷ rest

-- `sort.Slice`, the node that was heard last first. The order of rows that were heard at the same time
-- is Go's choice; here it is that of the table.
pub sort_recent : List MeshNodeInfo → List MeshNodeInfo
unfolding insert_recent
sort_recent [] = []
sort_recent (row ∷ rows) = insert_recent row (sort_recent rows)

abbrev pub is_fresh : ℕ → MeshNodeInfo → Bool
is_fresh now row = ltb now (heard row + 2 * rate_neighbor_info)

-- The loop stops at the first row that is too old.
pub fresh_prefix : ℕ → List MeshNodeInfo → List MeshNodeInfo
fresh_prefix now [] = []
fresh_prefix now (row ∷ rows) =
    let rest = fresh_prefix now rows in if is_fresh now row then row ∷ rest else []

abbrev is_lately : ℕ → Option ℕ → Bool
is_lately now none = false
is_lately now (some t) = ltb now (t * second + 7 * day)

-- A managed node that is not the bridge's own and was seen in the last seven days.
pub is_broadcast : NodeId → ℕ → MeshNodeInfo → Bool
is_broadcast base now row = not (nat_beq row.node_id base) && is_lately now row.last_seen

abbrev clock : Task ℕ
clock h = (some h.world.now, h)

module _ (o : Outside) where
  abbrev tell_neighbors : Result (List MeshNodeInfo) → Task (Unit {0})
  tell_neighbors (err e) = skip
  tell_neighbors (ok rows) = do
    base ← get_base_node_id o
    now ← clock
    mesh (
        send_neighbor_info o.lib base
          (base ∷ map (λ (row : MeshNodeInfo). row.node_id) (fresh_prefix now (sort_recent rows)))
          (rate_neighbor_info / second))
    skip

  unfoldable pub send_periodic_neighbor_info : Task (Unit {0})
  unfolding fresh_prefix sort_recent get_base_node_id
  send_periodic_neighbor_info = do rows ← query get_direct_neighbors; tell_neighbors rows

  abbrev broadcasts : Result (List MeshNodeInfo) → Task (List MeshNodeInfo)
  broadcasts (err e) = return []
  broadcasts (ok rows) = do
    base ← get_base_node_id o
    now ← clock
    return (filter_by (is_broadcast base now) rows)

  -- The rows for which the callback is started.
  unfoldable pub do_for_all_managed_ghosts : Task (List MeshNodeInfo)
  unfolding is_broadcast get_base_node_id
  do_for_all_managed_ghosts = do rows ← query get_managed_nodes; broadcasts rows

  unfoldable pub send_periodic_host_info : Task (Unit {0})
  unfolding get_base_node_id
  send_periodic_host_info = do
    base ← get_base_node_id o
    mesh (send_host_metrics o.lib base broadcast_id)
    skip

  unfoldable pub send_periodic_telemetry : Task (List MeshNodeInfo)
  unfolding do_for_all_managed_ghosts
  send_periodic_telemetry = do
    base ← get_base_node_id o
    mesh (send_telemetry o.lib base broadcast_id)
    rows ← do_for_all_managed_ghosts
    mesh (send_host_metrics o.lib base broadcast_id)
    return rows

  -- The callback of `sendPeriodicTelemetry`.
  unfoldable pub broadcast_telemetry : MeshNodeInfo → Task (Unit {0})
  broadcast_telemetry row = do mesh (send_telemetry o.lib row.node_id broadcast_id); skip

  unfoldable pub send_periodic_node_info : Task (List MeshNodeInfo)
  unfolding get_ghost_public_key do_for_all_managed_ghosts
  send_periodic_node_info = do
    base ← get_base_node_id o
    key ← get_ghost_public_key o base
    c ← the_config
    mesh (send_node_info o.lib base broadcast_id c.long_name c.short_name false (key_or_nil key))
    do_for_all_managed_ghosts

  -- The callback of `sendPeriodicNodeInfo`.
  unfoldable pub broadcast_node_info : MeshNodeInfo → Task (Unit {0})
  broadcast_node_info row = do
    mesh (
        send_node_info o.lib row.node_id broadcast_id row.long_name row.short_name false
          row.public_key)
    skip
