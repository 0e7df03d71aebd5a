-- ===== src/Bridge/Periodic/Listed.antt =====
-- The neighbours that a broadcast lists (`sendPeriodicNeighborInfo` of
-- pkg/connector/background_tasks.go, `buildNeighborInfo` of pkg/mesh/outgoing_messages.go).
use mathlib.Core.List.{Perm}
use mathlib.Core.List.Perm
use matrix_meshtastic.Prelude.{
  ℕ, ◌+◌, ◌*◌, ◌≤◌, ◌≡◌, refl, sym, ◌∙◌, subst, arith, Bool, List, [], ◌∷◌, map, take, filter_by,
  All, All-imp, Bool-cases, ltb, ok, some, inl, inr,
}
use matrix_meshtastic.Mesh.World.{second}
use matrix_meshtastic.Mesh.Reports.{send_neighbor_info}
use matrix_meshtastic.Mesh.Send.{send_proto_message}
use matrix_meshtastic.External.{neighbor_info_message}
use matrix_meshtastic.Mesh.Reports.Laws.{
  is_tellable, neighbor_of, neighbors_packet, send_neighbor_info_lem,
}
use matrix_meshtastic.Bridge.Database.{MeshNodeInfo, get_direct_neighbors}
use matrix_meshtastic.Bridge.Hub.{Outside, Hub, ◌>>=◌}
use matrix_meshtastic.Bridge.Managed.Coherence.{base_of, got_base}
use matrix_meshtastic.Bridge.Periodic.{
  heard, insert_recent, sort_recent, fresh_prefix, send_periodic_neighbor_info,
}
use matrix_meshtastic.Bridge.Periodic.Recent.{
  IsRecentFirst, max_heard, sort_recent-IsRecentFirst, fresh_prefix-sort_recent,
}

-- Heard in the last 24 hours and 62 seconds.
abbrev pub was_heard : ℕ → MeshNodeInfo → Bool
was_heard now row = ltb now (heard row + 86462 * second)

abbrev pub IsNewestFirst : List MeshNodeInfo → Type 0
IsNewestFirst [] = Unit
IsNewestFirst (row ∷ rows) =
    All (λ (later : MeshNodeInfo). heard later ≤ heard row) rows × IsNewestFirst rows

All-bounded :
    (bound : ℕ) (rows : List MeshNodeInfo)
    → IsRecentFirst bound rows
    → All (λ (row : MeshNodeInfo). heard row ≤ bound) rows
All-bounded bound [] s = tt
All-bounded bound (row ∷ rows) s = (
  s.0,
  All-imp (λ (later : MeshNodeInfo). heard later ≤ heard row)
      (λ (later : MeshNodeInfo). heard later ≤ bound) rows (λ later h. omega (arith, s.0, h))
      (All-bounded (heard row) rows s.1),
)

sorted-IsNewestFirst :
    (bound : ℕ) (rows : List MeshNodeInfo) → IsRecentFirst bound rows → IsNewestFirst rows
sorted-IsNewestFirst bound [] s = tt
sorted-IsNewestFirst bound (row ∷ rows) s =
    (All-bounded (heard row) rows s.1, sorted-IsNewestFirst (heard row) rows s.1)

Perm-insert_recent :
    (row : MeshNodeInfo) (rows : List MeshNodeInfo) → Perm (insert_recent row rows) (row ∷ rows)
unfolding insert_recent
Perm-insert_recent row [] = Perm.refl (row ∷ [])
Perm-insert_recent row (next ∷ rows) = elim (Bool-cases (ltb (heard next) (heard row))) [
  | inl e ↦ rw e (Perm.refl (row ∷ next ∷ rows))
  | inr e ↦
      rw e (Perm.trans (Perm.cons next (Perm-insert_recent row rows)) (Perm.swap row next rows))
]

Perm-sort_recent : (rows : List MeshNodeInfo) → Perm (sort_recent rows) rows
unfolding sort_recent
Perm-sort_recent [] = Perm.refl []
Perm-sort_recent (row ∷ rows) =
    Perm.trans (Perm-insert_recent row (sort_recent rows)) (Perm.cons row (Perm-sort_recent rows))

module _ (o : Outside) where
  -- What the broadcast of some rows does to the mesh client.
  told_lem :
      (h : Hub) (rows : List MeshNodeInfo)
      → (get_direct_neighbors h.tables).0 ≡ ok rows
      → let r = send_periodic_neighbor_info o h in
        (r.0 ≡ some tt)
        × (r.1.world
            ≡ (send_neighbor_info o.lib
                (base_of o h)
                (base_of o h
                  ∷ map
                      (λ (row : MeshNodeInfo). row.node_id)
                      (fresh_prefix h.world.now (sort_recent rows)))
                43231
                h.world).1)
  unfolding send_periodic_neighbor_info ◌>>=◌
  told_lem h rows found =
      rw (found, got_base o (record h { tables = (get_direct_neighbors h.tables).1 })) (refl, refl)

  -- When the direct neighbours can be read, the broadcast keeps each of their rows that was heard in
  -- the last 24 hours and 62 seconds, and no other, the one that was heard last first. It sends one
  -- message from the bridge's own node on the primary channel, to the nodes that are reached without
  -- LoRa, with the first ten of the nodes kept that are not the bridge's own and have neither the ID 0
  -- nor the ID 1.
  pub recent_neighbors_are_told :
      (h : Hub) (rows : List MeshNodeInfo)
      → (get_direct_neighbors h.tables).0 ≡ ok rows
      → let recents = fresh_prefix h.world.now (sort_recent rows) in
        let ids = map (λ (row : MeshNodeInfo). row.node_id) recents in
        let base = base_of o h in
        let r = send_periodic_neighbor_info o h in
        Perm recents (filter_by (was_heard h.world.now) rows)
        × IsNewestFirst recents
        × (r.0 ≡ some tt)
        × (r.1.world
            ≡ (send_proto_message o.lib h.world.client.primary_channel
                (neighbor_info_message (record {
                  node_id = base;
                  neighbors = take 10 (map neighbor_of (filter_by (is_tellable base) ids));
                  last_sent_by_id = base;
                  node_broadcast_interval_secs = 43231;
                }))
                (neighbors_packet base)
                h.world).1)
  recent_neighbors_are_told h rows found =
      let now = h.world.now in
      let xs = filter_by (was_heard now) rows in
      let sorted = fresh_prefix-sort_recent now rows in
      let ids = map (λ (row : MeshNodeInfo). row.node_id) (fresh_prefix now (sort_recent rows)) in
      let told = told_lem h rows found in
      (
        subst (λ (l : List MeshNodeInfo). Perm l xs) (sym sorted) (Perm-sort_recent xs),
        subst IsNewestFirst (sym sorted)
            (sorted-IsNewestFirst (max_heard xs) (sort_recent xs) (sort_recent-IsRecentFirst xs)),
        told.0,
        told.1 ∙ send_neighbor_info_lem o.lib (base_of o h) ids 43231 h.world,
      )
