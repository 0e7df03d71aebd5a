-- ===== src/Bridge/Startup.antt =====
-- The configuration's checks (`ValidateConfig` of pkg/connector/config.go) and what the connector does
-- when the mesh is there or gone (`onMeshConnected` and `onMeshDisconnected` of
-- pkg/connector/connector.go).
pub mod Rekeying
pub mod Validation
pub mod Background
use matrix_meshtastic.Prelude.{
  ℕ, suc, Bool, not, ◌&&◌, ◌||◌, List, [], ◌∷◌, ◌++◌, filter_by, Option, none, some, Bytes, Error,
  names_required, long_name_too_long, short_name_too_long, hop_limit_not_below_maximum,
  no_connection_method, Result, ok, err, length, leb, nat_beq, bytes_beq, if◌then◌else◌,
}
use matrix_meshtastic.MeshId.Ids.{IdError, max_hops, make_portal_id, parse_portal_id}
use matrix_meshtastic.MeshId.Channel.{ChannelDef, get_key_string, new_channel_def}
use matrix_meshtastic.Mesh.Connection.{add_channel_def}
use matrix_meshtastic.Bridge.Hub.{
  Config, Outside, Portal, re_keyed, Hub, Task, ◌>>=◌, ◌>>◌, skip, panic, mesh, ask, tell,
}

unfoldable pub validate_config : Config → Option Error
validate_config c =
    if bytes_beq c.long_name [] || bytes_beq c.short_name []
    then some names_required
    else if leb 40 (length c.long_name)
    then some long_name_too_long
    else if leb 5 (length c.short_name)
    then some short_name_too_long
    else if leb max_hops c.hop_limit
    then some hop_limit_not_below_maximum
    else if not c.udp && not c.mqtt_enabled
    then some no_connection_method
    else none

module _ (o : Outside) where
  -- The portal is moved to the ID that has the channel's own spelling of the key.
  abbrev pub move_portal : Portal → Bytes → Bytes → ChannelDef → Task (Unit {0})
  move_portal p name key channel =
      if bytes_beq (get_key_string channel) key
      then skip
      else tell (
          re_keyed p.key
            (record p.key { id = make_portal_id name (some (get_key_string channel)) }))

  -- The error of a key that cannot be read is dropped, and a method of nil is called.
  abbrev pub rejoin : ℕ → Portal → Bytes → Bytes → Result ChannelDef → Task (Unit {0})
  rejoin address p name key (err e) = panic
  rejoin address p name key (ok channel) = do
    move_portal p name key channel
    mesh (add_channel_def (record { address = address; channel = channel }))

  abbrev pub rejoin_parsed : ℕ → Portal → Bytes × Bytes × Option IdError → Task (Unit {0})
  rejoin_parsed address p (name, key, some e) = skip
  rejoin_parsed address p (name, key, none) =
      rejoin address p name key (new_channel_def o.lib.radio name (some key))

  -- `address`: that of the first definition that is made.
  unfoldable pub rejoin_portals : ℕ → List Portal → Task (Unit {0})
  rejoin_portals address [] = skip
  rejoin_portals address (p ∷ ps) = do
    rejoin_parsed address p (parse_portal_id p.key.id)
    rejoin_portals (suc address) ps

  abbrev pub or_no_portals : Result (List Portal) → List Portal
  or_no_portals (err e) = []
  or_no_portals (ok ps) = ps

  unfoldable pub rejoin_channels : ℕ → Task (Unit {0})
  unfolding rejoin_portals
  rejoin_channels address = do
    found ← ask o.get_all_portals_with_mxid
    rejoin_portals address (or_no_portals found)

-- The background tasks that run, named by the context that stops them, and the cancel function that
-- the connector holds.
pub record BackgroundTasks : Type 0 where
  pub made : ℕ  -- contexts so far
  pub running : List ℕ
  pub canceller : Option ℕ

-- `context.WithCancel`, `RunNodeInfoTask` and `RunInactiveCleanupTask`
unfoldable pub run_tasks : BackgroundTasks → BackgroundTasks
run_tasks b = record { made = suc b.made; running = b.made ∷ b.running; canceller = some b.made }

abbrev pub cancel : Option ℕ → BackgroundTasks → BackgroundTasks
cancel none b = b
cancel (some context) b = record b { running = filter_by (λ c. not (nat_beq c context)) b.running }

unfoldable pub on_mesh_disconnected : BackgroundTasks → BackgroundTasks
on_mesh_disconnected b = cancel b.canceller b

abbrev pub run_unless_panicked : Option (Unit {0}) → BackgroundTasks → BackgroundTasks
run_unless_panicked none b = b
run_unless_panicked (some u) b = run_tasks b

unfoldable pub on_mesh_connected :
    Outside → ℕ → Bool → Hub → BackgroundTasks → Option (Unit {0}) × Hub × BackgroundTasks
unfolding rejoin_channels run_tasks
on_mesh_connected o address is_reconnect h b =
    let (done, after) = (if is_reconnect then skip else rejoin_channels o address) h in
    (done, after, run_unless_panicked done b)
