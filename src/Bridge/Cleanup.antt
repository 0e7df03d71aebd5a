-- ===== src/Bridge/Cleanup.antt =====
-- Inactive ghosts leave the rooms of channels (pkg/connector/background_tasks.go). A time t is at or
-- after `now - limit` when now is at most t + limit, which needs no negative number.
pub mod Reference
pub mod Removal
use matrix_meshtastic.Prelude.{
  ℕ, zero, suc, ◌+◌, ◌*◌, Bool, true, false, not, ◌&&◌, List, [], ◌∷◌, Option, none, some, Bytes,
  Error, Result, ok, err, bytes_beq, leb, ltb, if◌then◌else◌,
}
use matrix_meshtastic.MeshId.Ids.{NodeId, IdError, parse_user_id}
use matrix_meshtastic.Mesh.World.{second}
use matrix_meshtastic.Bridge.Hub.{
  Outside, PortalKey, Portal, RoomType, default_room, left_room, Hub, Task, ◌>>=◌, ◌>>◌, return,
  skip, ask, tell,
}
use matrix_meshtastic.Bridge.Managed.{is_managed_node}

-- 24 hours, in nanoseconds.
abbrev pub day : ℕ
day = 24 * 3600 * second

abbrev pub known_time : Result (Option ℕ) → Option ℕ
known_time (ok t) = t
known_time (err e) = none

-- The later of two times, as far as there are any.
abbrev pub latest : Option ℕ → Option ℕ → Option ℕ
latest (some m) (some r) = if ltb r m then some m else some r
latest (some m) none = some m
latest none r = r

abbrev pub is_active : ℕ → ℕ → Option ℕ → Bool
is_active now limit none = false
is_active now limit (some t) = leb now (t + limit)

module _ (o : Outside) where
  -- A query that fails counts as no activity.
  unfoldable pub get_last_activity_in_portal : Bytes → PortalKey → Task (Option ℕ)
  get_last_activity_in_portal sender key = do
    message ← ask λ calls. known_time (o.last_message calls key sender)
    reaction ← ask λ calls. known_time (o.last_reaction calls key sender)
    return (latest message reaction)

  abbrev pub left : Bytes → Bytes → Option Error → Task Bool
  left member room (some e) = return false
  left member room none = do tell (left_room member room); return true

  abbrev pub leave_unless_active : Bytes → Bytes → Bool → Task Bool
  leave_unless_active member room true = return false
  leave_unless_active member room false = do
    failure ← ask λ calls. o.leave_room calls member room
    left member room failure

  abbrev pub leave_if_idle : ℕ → ℕ → Bytes → Portal → Bytes → Bool → Task Bool
  leave_if_idle now limit member portal ghost true = return false
  leave_if_idle now limit member portal ghost false = do
    activity ← get_last_activity_in_portal ghost portal.key
    leave_unless_active member portal.mxid (is_active now limit activity)

  abbrev pub node_leaves : ℕ → ℕ → Bytes → Portal → Bytes → NodeId × Option IdError → Task Bool
  node_leaves now limit member portal ghost (node, some e) = return false
  node_leaves now limit member portal ghost (node, none) = do
    managed ← is_managed_node o node
    leave_if_idle now limit member portal ghost managed

  abbrev pub member_leaves : ℕ → ℕ → Portal → Bytes → Option Bytes → Task Bool
  member_leaves now limit portal member none = return false
  member_leaves now limit portal member (some ghost) =
      node_leaves now limit member portal ghost (parse_user_id ghost)

  abbrev pub counted : Bool → ℕ → ℕ
  counted true n = suc n
  counted false n = n

  -- The number of members that have left.
  unfoldable pub cleanup_members : ℕ → ℕ → Portal → List Bytes → Task ℕ
  unfolding get_last_activity_in_portal
  cleanup_members now limit portal [] = return 0
  cleanup_members now limit portal (member ∷ members) = do
    gone ← member_leaves now limit portal member (o.parse_ghost_mxid member)
    n ← cleanup_members now limit portal members
    return (counted gone n)

  abbrev joined : ℕ → ℕ → Portal → Result (List Bytes) → Task (Result ℕ)
  joined now limit portal (err e) = return (err e)
  joined now limit portal (ok members) = do
    n ← cleanup_members now limit portal members
    return (ok n)

  unfoldable pub cleanup_portal_inactive_members : ℕ → ℕ → Portal → Task (Result ℕ)
  unfolding cleanup_members
  cleanup_portal_inactive_members now limit portal =
      if bytes_beq portal.mxid [] then return (ok 0) else (do
        members ← ask λ calls. o.joined_members calls portal.mxid
        joined now limit portal members)

  abbrev is_channel : RoomType → Bool
  is_channel default_room = true
  is_channel _ = false

  -- A portal that fails does not keep the others from their turn.
  cleanup_portals : ℕ → ℕ → List Portal → Task (Unit {0})
  unfolding cleanup_portal_inactive_members
  cleanup_portals now limit [] = skip
  cleanup_portals now limit (portal ∷ portals) =
      if is_channel portal.room_type
      then (do cleanup_portal_inactive_members now limit portal; cleanup_portals now limit portals)
      else cleanup_portals now limit portals

  abbrev in_portals : ℕ → ℕ → Result (List Portal) → Task (Unit {0})
  in_portals now limit (err e) = skip
  in_portals now limit (ok portals) = cleanup_portals now limit portals

  abbrev read_limits : Task (ℕ × ℕ)
  read_limits h = (some (h.world.now, h.config.inactivity_threshold * day), h)

  unfoldable pub cleanup_inactive_nodes : Task (Unit {0})
  unfolding cleanup_portals
  cleanup_inactive_nodes = do
    limits ← read_limits
    portals ← ask λ calls. o.get_all_portals_with_mxid calls
    in_portals limits.0 limits.1 portals
