-- ===== src/Bridge/Ghosts.antt =====
-- The ghosts of nodes and what the connector tells about its own nodes
-- (`getRemoteGhost`, `requestGhostNodeInfo` and `sendNodeInfo` of pkg/connector/handle_meshtastic.go,
-- `updateDMPortalInfo` of pkg/connector/handle_matrix.go, `setDMNames` of pkg/connector/chatinfo.go).
use matrix_meshtastic.Prelude.{
  Bool, true, false, List, [], ◌∷◌, ◌++◌, Option, none, some, Bytes, codes, Result, ok, err,
  bytes_beq, nat_beq, if◌then◌else◌,
}
use matrix_meshtastic.MeshId.Ids.{NodeId, IdError, parse_user_id}
use matrix_meshtastic.MeshId.Node.{get_default_node_names}
use matrix_meshtastic.Mesh.Outgoing.{send_node_info}
use matrix_meshtastic.Bridge.Database.{MeshNodeInfo, get_by_node_id}
use matrix_meshtastic.Bridge.Hub.{
  Config, Outside, Ghost, PortalKey, info_changed, Task, ◌>>=◌, ◌>>◌, return, skip, panic, mesh,
  query, ask, tell, the_config, ghost_by_id,
}
use matrix_meshtastic.Bridge.Managed.{get_base_node_id, is_managed_node}
use matrix_meshtastic.Bridge.Keys.{get_ghost_public_key}

-- `fmt.Sprintf("%s (%s)", ...)`
abbrev pub both_names : MeshNodeInfo → Bytes
both_names row = row.long_name ++ (codes " (" ++ (row.short_name ++ codes ")"))

abbrev pub key_or_nil : Result Bytes → Bytes
key_or_nil (err e) = []
key_or_nil (ok key) = key

abbrev name_of : Bytes → Result (Option MeshNodeInfo) → Bytes
name_of name (ok (some row)) = both_names row
name_of name _ = name

-- A goroutine is started for `requestGhostNodeInfo`.
abbrev pub spawn : Bytes → Task (Unit {0})
spawn ghost_id h = (some tt, record h { requested = h.requested ++ ghost_id ∷ [] })

-- The long name, the short name and the key that a node of the bridge is presented with.
abbrev pub presented : Config → NodeId → NodeId → Option MeshNodeInfo → Bytes × Bytes × Bytes
presented c base from none =
    if nat_beq from base
    then (c.long_name, c.short_name, [])
    else let (long, short) = get_default_node_names from in (long, short, [])
presented c base from (some row) =
    if nat_beq from base
    then (c.long_name, c.short_name, row.public_key)
    else (row.long_name, row.short_name, row.public_key)

module _ (o : Outside) where
  abbrev pub or_new_ghost : Bytes → Result (Option Ghost) → Task (Result Ghost)
  or_new_ghost ghost_id (err e) = return (err e)
  or_new_ghost ghost_id (ok (some ghost)) = return (ok ghost)
  or_new_ghost ghost_id (ok none) = do spawn ghost_id; ghost_by_id o ghost_id

  unfoldable pub get_remote_ghost : Bytes → Bool → Task (Result Ghost)
  get_remote_ghost ghost_id false = ghost_by_id o ghost_id
  get_remote_ghost ghost_id true = do
    found ← ask λ calls. o.get_existing_ghost_by_id calls ghost_id
    or_new_ghost ghost_id found

  request_node : NodeId × Option IdError → Task (Unit {0})
  unfolding get_base_node_id get_ghost_public_key
  request_node (node, some e) = skip
  request_node (node, none) = do
    base ← get_base_node_id o
    key ← get_ghost_public_key o base
    c ← the_config
    mesh (send_node_info o.lib base node c.long_name c.short_name true (key_or_nil key))
    skip

  unfoldable pub request_ghost_node_info : Bytes → Task (Unit {0})
  unfolding request_node
  request_ghost_node_info ghost_id = request_node (parse_user_id ghost_id)

  abbrev pub present : NodeId → NodeId → Bool → Result (Option MeshNodeInfo) → Task (Unit {0})
  present from to want_response (err e) = skip
  present from to want_response (ok row) = do
    base ← get_base_node_id o
    c ← the_config
    let (long, short, key) = presented c base from row
    mesh (send_node_info o.lib from to long short want_response key)
    skip

  -- Nothing is sent for a node that the bridge does not manage.
  unfoldable pub send_managed_node_info : NodeId → NodeId → Bool → Task (Unit {0})
  unfolding is_managed_node
  send_managed_node_info from to want_response = do
    managed ← is_managed_node o from
    if managed
        then (do found ← query (get_by_node_id from); present from to want_response found)
        else skip

  -- `setDMNames`: the ghost's name, or both names of its node.
  abbrev pub name_by_node : Bytes → NodeId × Option IdError → Task Bytes
  name_by_node name (node, some e) = return name
  name_by_node name (node, none) = do
    found ← query (get_by_node_id node)
    return (name_of name found)

  unfoldable pub set_dm_names : Ghost → Task (Option Bytes)
  set_dm_names ghost =
      if bytes_beq ghost.name []
      then return none
      else (do name ← name_by_node ghost.name (parse_user_id ghost.id); return (some name))

  -- Without a login in the portal, or beside an error, an empty slice is indexed.
  abbrev pub tell_login : PortalKey → Option Bytes → Result (List Bytes) → Task (Unit {0})
  tell_login key name (err e) = panic
  tell_login key name (ok []) = panic
  tell_login key name (ok (login ∷ logins)) = tell (info_changed login key name)

  unfoldable pub tell_portals : Ghost → List PortalKey → Task (Unit {0})
  unfolding set_dm_names
  tell_portals ghost [] = skip
  tell_portals ghost (key ∷ keys) = do
    name ← set_dm_names ghost
    logins ← ask λ calls. o.get_user_logins_in_portal calls key
    tell_login key name logins
    tell_portals ghost keys

  unfoldable pub update_dm_portal_info : Ghost → Task (Unit {0})
  unfolding tell_portals
  update_dm_portal_info ghost = do
    keys ← ask λ calls. o.get_dm_portals_with calls ghost.id
    tell_portals ghost keys
