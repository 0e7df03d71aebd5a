-- ===== src/Bridge/FromMesh/Discreet.antt =====
-- Every handler of a mesh event keeps the private keys and marks (pkg/connector/handle_meshtastic.go).
use matrix_meshtastic.Prelude.{
  ◌≡◌, refl, arith, Bool, true, false, List, [], ◌∷◌, Option, none, some, Bytes, Result, ok, err,
  inl, inr, not, ◌&&◌, Bool-cases, bytes_beq, nat_beq, nat_eq, lookup, if◌then◌else◌,
}
use matrix_meshtastic.MeshId.Ids.{NodeId, broadcast_id, IdError, make_user_id, parse_user_id}
use matrix_meshtastic.Mesh.Events.{
  MeshEvent, MeshNodeInfoEvent, MeshMapReportEvent, MeshWaypointEvent, Event,
}
use matrix_meshtastic.Bridge.Database.{MeshNodeInfo, Waypoint, find_node}
use matrix_meshtastic.Bridge.Hub.{
  Outside, Ghost, PortalKey, Hub, ◌>>=◌, skip, return, tell, updated_info, now_seconds,
}
use matrix_meshtastic.Bridge.Managed.{get_base_node_id, is_managed_node, cached_or, by_ghost}
use matrix_meshtastic.Bridge.Ghosts.{
  get_remote_ghost, or_new_ghost, present, send_managed_node_info, update_dm_portal_info,
  tell_login, tell_portals, set_dm_names, name_by_node,
}
use matrix_meshtastic.Bridge.FromMesh.{
  answer_request, show_names, notice_node, node_info_row, map_report_row, tells_news, renames,
  store_node_info, store_map_report, store_waypoint, waypoint_row, handle_mesh_node_info,
  handle_map_report, handle_mesh_waypoint, handle_mesh_location, handle_unknown_packet,
  handle_global_mesh_event, locks_out,
}
use matrix_meshtastic.Bridge.FromMesh.Secrets.Answers.{traceroute-IsDiscreet}
use matrix_meshtastic.Bridge.FromMesh.Secrets.{HasSecrets, IsDiscreet}
use matrix_meshtastic.Bridge.FromMesh.Secrets.Tasks.{
  free_task, if_IsDiscreet, set_waypoint-IsDiscreet, delete-IsDiscreet, read_waypoint-IsDiscreet,
  bind-IsDiscreet, read-IsDiscreet, seen-IsDiscreet, learn-IsDiscreet,
}

module _ (o : Outside) where
  base-IsDiscreet : IsDiscreet (get_base_node_id o)
  unfolding get_base_node_id
  base-IsDiscreet = free_task _ (λ h. ground arith)

  by_ghost-IsDiscreet :
      (node : NodeId) (found : Result (Option Ghost)) → IsDiscreet (by_ghost o node found)
  by_ghost-IsDiscreet node (err e) = free_task _ (λ h. refl)
  by_ghost-IsDiscreet node (ok ghost) = free_task _ (λ h. refl)

  cached_or-IsDiscreet : (node : NodeId) (v : Option Bool) → IsDiscreet (cached_or o node v)
  cached_or-IsDiscreet node (some v) = free_task _ (λ h. refl)
  cached_or-IsDiscreet node none = bind-IsDiscreet _ _ base-IsDiscreet λ base.
      elim (Bool-cases (nat_beq node base)) [
        | inl e ↦ rw e (free_task _ (λ h. refl))
        | inr e ↦ rw e (bind-IsDiscreet _ _ (free_task _ (λ h. refl)) (by_ghost-IsDiscreet node))
      ]

  managed-IsDiscreet : (node : NodeId) → IsDiscreet (is_managed_node o node)
  unfolding is_managed_node
  managed-IsDiscreet node = record {
    keeps = λ h q. (cached_or-IsDiscreet node (lookup node h.managed_node_cache)).keeps h q;
  }

  or_new_ghost-IsDiscreet :
      (id : Bytes) (found : Result (Option Ghost)) → IsDiscreet (or_new_ghost o id found)
  unfolding ◌>>=◌
  or_new_ghost-IsDiscreet id (err e) = free_task _ (λ h. refl)
  or_new_ghost-IsDiscreet id (ok (some ghost)) = free_task _ (λ h. refl)
  or_new_ghost-IsDiscreet id (ok none) = free_task _ (λ h. refl)

  pub ghost-IsDiscreet :
      (id : Bytes) (ask_node : Bool) → IsDiscreet (get_remote_ghost o id ask_node)
  unfolding get_remote_ghost
  ghost-IsDiscreet id false = free_task _ (λ h. refl)
  ghost-IsDiscreet id true =
      bind-IsDiscreet _ _ (free_task _ (λ h. refl)) (or_new_ghost-IsDiscreet id)

  present-IsDiscreet :
      (from to : NodeId) (want : Bool) (found : Result (Option MeshNodeInfo))
      → IsDiscreet (present o from to want found)
  unfolding ◌>>=◌
  present-IsDiscreet from to want (err e) = free_task _ (λ h. refl)
  present-IsDiscreet from to want (ok row) =
      bind-IsDiscreet _ _ base-IsDiscreet (λ base. free_task _ (λ h. refl))

  own_info-IsDiscreet :
      (from to : NodeId) (want : Bool) → IsDiscreet (send_managed_node_info o from to want)
  unfolding send_managed_node_info
  own_info-IsDiscreet from to want = bind-IsDiscreet _ _ (managed-IsDiscreet from) λ managed.
      if_IsDiscreet managed _ _
        (bind-IsDiscreet _ _ (read-IsDiscreet from) (present-IsDiscreet from to want))
        (free_task skip (λ h. refl))

  answer-IsDiscreet : (evt : MeshEvent) → IsDiscreet (answer_request o evt)
  unfolding answer_request
  answer-IsDiscreet evt =
      if_IsDiscreet (not (nat_beq evt.to broadcast_id) && evt.want_response) _ skip
        (own_info-IsDiscreet evt.to evt.from false) (free_task skip (λ h. refl))

  named-IsDiscreet :
      (name : Bytes) (node : NodeId × Option IdError) → IsDiscreet (name_by_node o name node)
  named-IsDiscreet name (node, some e) = free_task _ (λ h. refl)
  named-IsDiscreet name (node, none) =
      bind-IsDiscreet _ _ (read-IsDiscreet node) (λ found. free_task _ (λ h. refl))

  dm_names-IsDiscreet : (ghost : Ghost) → IsDiscreet (set_dm_names o ghost)
  unfolding set_dm_names
  dm_names-IsDiscreet ghost =
      if_IsDiscreet (bytes_beq ghost.name []) (return none) _ (free_task _ (λ h. refl)) (
        bind-IsDiscreet _ _ (named-IsDiscreet ghost.name (parse_user_id ghost.id))
          (λ name. free_task (return (some name)) (λ h. refl)))

  tell_login-IsDiscreet :
      (key : PortalKey) (name : Option Bytes) (logins : Result (List Bytes))
      → IsDiscreet (tell_login o key name logins)
  tell_login-IsDiscreet key name (err e) = free_task _ (λ h. refl)
  tell_login-IsDiscreet key name (ok []) = free_task _ (λ h. refl)
  tell_login-IsDiscreet key name (ok (login ∷ logins)) = free_task _ (λ h. refl)

  portals-IsDiscreet :
      (ghost : Ghost) (keys : List PortalKey) → IsDiscreet (tell_portals o ghost keys)
  unfolding tell_portals
  portals-IsDiscreet ghost [] = free_task _ (λ h. refl)
  portals-IsDiscreet ghost (key ∷ keys) = bind-IsDiscreet _ _ (dm_names-IsDiscreet ghost) λ name.
      bind-IsDiscreet _ _ (free_task _ (λ h. refl)) λ logins.
        bind-IsDiscreet _ _ (tell_login-IsDiscreet key name logins)
          λ _. portals-IsDiscreet ghost keys

  news-IsDiscreet :
      (news : Bool) (ghost : Ghost)
      → IsDiscreet (if news then update_dm_portal_info o ghost else skip)
  unfolding update_dm_portal_info
  news-IsDiscreet news ghost =
      if_IsDiscreet news _ _
        (bind-IsDiscreet _ _ (free_task _ (λ h. refl)) (portals-IsDiscreet ghost))
        (free_task skip (λ h. refl))

  show-IsDiscreet :
      (ghost : Ghost) (name : Bytes) (news : Bool) → IsDiscreet (show_names o ghost name news)
  unfolding show_names
  show-IsDiscreet ghost name news =
      if_IsDiscreet (bytes_beq name []) skip _ (free_task skip (λ h. refl)) (
        bind-IsDiscreet (tell (updated_info ghost.id name none)) _ (free_task _ (λ h. refl))
          (λ _. news-IsDiscreet news (o.updated_ghost ghost name)))

  notice-IsDiscreet : (evt : MeshEvent) → IsDiscreet (notice_node o evt)
  unfolding notice_node
  notice-IsDiscreet evt = bind-IsDiscreet _ _ (ghost-IsDiscreet (make_user_id evt.from) true) λ _.
      bind-IsDiscreet _ _ (free_task _ (λ h. refl)) λ now.
        bind-IsDiscreet _ _ (seen-IsDiscreet evt.from evt.is_neighbor now)
          λ _. free_task _ (λ h. refl)

  store_node_info-IsDiscreet :
      (evt : MeshNodeInfoEvent) (ghost : Result Ghost) → IsDiscreet (store_node_info o evt ghost)
  store_node_info-IsDiscreet evt (err e) = free_task _ (λ h. refl)
  store_node_info-IsDiscreet evt (ok ghost) = bind-IsDiscreet _ _ (answer-IsDiscreet evt.event) λ _.
      learn-IsDiscreet (node_info_row evt) evt.event.from
        (λ row. show_names o ghost evt.long_name (tells_news evt row))
        (record { same_id = λ r. refl; same_key = λ r. refl; same_mark = λ r. refl })
        (λ row. show-IsDiscreet ghost evt.long_name (tells_news evt row))

  store_map_report-IsDiscreet :
      (evt : MeshMapReportEvent) (ghost : Result Ghost) → IsDiscreet (store_map_report o evt ghost)
  unfolding map_report_row
  store_map_report-IsDiscreet evt (err e) = free_task _ (λ h. refl)
  store_map_report-IsDiscreet evt (ok ghost) =
      bind-IsDiscreet _ _ (answer-IsDiscreet evt.event) λ _.
        learn-IsDiscreet (map_report_row evt) evt.event.from
          (λ row. show_names o ghost evt.long_name (renames evt row))
          (record { same_id = λ r. refl; same_key = λ r. refl; same_mark = λ r. refl })
          (λ row. show-IsDiscreet ghost evt.long_name (renames evt row))

  store_waypoint-IsDiscreet :
      (evt : MeshWaypointEvent) (found : Result (Option Waypoint))
      → IsDiscreet (store_waypoint o evt found)
  store_waypoint-IsDiscreet evt (err e) = free_task _ (λ h. refl)
  store_waypoint-IsDiscreet evt (ok found) =
      if_IsDiscreet (locks_out evt.event.from found) skip _ (free_task skip (λ h. refl)) (
        bind-IsDiscreet _ _ (set_waypoint-IsDiscreet (waypoint_row evt found))
          (λ _. free_task skip (λ h. refl)))

  waypoint-IsDiscreet : (evt : MeshWaypointEvent) → IsDiscreet (handle_mesh_waypoint o evt)
  unfolding handle_mesh_waypoint
  waypoint-IsDiscreet evt = bind-IsDiscreet now_seconds _ (free_task _ (λ h. refl)) λ now.
      bind-IsDiscreet _ _ (seen-IsDiscreet evt.event.from evt.event.is_neighbor now) λ _.
        if_IsDiscreet evt.is_delete _ _
          (bind-IsDiscreet _ _ (delete-IsDiscreet evt.waypoint_id)
            (λ _. free_task skip (λ h. refl)))
          (bind-IsDiscreet _ _ (read_waypoint-IsDiscreet evt.waypoint_id)
            (store_waypoint-IsDiscreet evt))

  pub handle_global_mesh_event-IsDiscreet : (e : Event) → IsDiscreet (handle_global_mesh_event o e)
  unfolding handle_global_mesh_event handle_mesh_node_info handle_map_report handle_mesh_location
      handle_unknown_packet
  handle_global_mesh_event-IsDiscreet (Event.node_info evt) =
      bind-IsDiscreet _ _ base-IsDiscreet
        λ base. bind-IsDiscreet _ _ (ghost-IsDiscreet _ _) (store_node_info-IsDiscreet evt)
  handle_global_mesh_event-IsDiscreet (Event.map_report evt) =
      bind-IsDiscreet _ _ base-IsDiscreet
        λ base. bind-IsDiscreet _ _ (ghost-IsDiscreet _ _) (store_map_report-IsDiscreet evt)
  handle_global_mesh_event-IsDiscreet (Event.location evt) = notice-IsDiscreet evt.event
  handle_global_mesh_event-IsDiscreet (Event.waypoint evt) = waypoint-IsDiscreet evt
  handle_global_mesh_event-IsDiscreet (Event.traceroute evt) = traceroute-IsDiscreet evt
  handle_global_mesh_event-IsDiscreet (Event.plain_pointer evt) = notice-IsDiscreet evt
  handle_global_mesh_event-IsDiscreet (Event.plain evt) = free_task skip (λ h. refl)
  handle_global_mesh_event-IsDiscreet (Event.message evt) = free_task skip (λ h. refl)
  handle_global_mesh_event-IsDiscreet (Event.reaction evt) = free_task skip (λ h. refl)
  handle_global_mesh_event-IsDiscreet (Event.channel_joined evt) = free_task skip (λ h. refl)

  -- While no statement on the database fails, no event from the mesh removes the row of a stored node,
  -- or changes its private key or whether it is marked as managed.
  pub secrets_are_kept :
      (e : Event) (h : Hub) (id : NodeId) (row : MeshNodeInfo)
      → h.tables.faults ≡ []
      → find_node id h.tables.nodes ≡ some row
      → HasSecrets row id (handle_global_mesh_event o e h).1.tables.nodes
  secrets_are_kept e h id row q f =
      ((handle_global_mesh_event-IsDiscreet e).keeps h q).secrets id row f
