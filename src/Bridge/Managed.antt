-- ===== src/Bridge/Managed.antt =====
-- `GetBaseNodeID` and `IsManagedNode` of pkg/connector/connector.go.
pub mod Coherence
use matrix_meshtastic.Prelude.{
  Bool, true, false, not, [], Option, none, some, Result, ok, err, Bytes, bytes_beq, nat_beq,
  nat_eq, lookup, insert, if◌then◌else◌,
}
use matrix_meshtastic.MeshId.Ids.{NodeId, mxid_to_node_id, make_user_id}
use matrix_meshtastic.Bridge.Hub.{Outside, Ghost, Hub, Task, ◌>>=◌, ◌>>◌, return, ask}

abbrev pub has_user : Option Bytes → Bool
has_user none = false
has_user (some mxid) = not (bytes_beq mxid [])

-- `isManaged` of a ghost that the framework knows, or does not.
abbrev pub ghost_is_managed : Option Ghost → Bool
ghost_is_managed none = false
ghost_is_managed (some ghost) = has_user ghost.user_mxid

abbrev pub remember : NodeId → Bool → Task Bool
remember node answer h =
    (some answer, record h { managed_node_cache = insert node answer h.managed_node_cache })

module _ (o : Outside) where
  unfoldable pub get_base_node_id : Task NodeId
  get_base_node_id h =
      if nat_beq h.base_node_id 0
      then (
        some (mxid_to_node_id o.bot_mxid),
        record h { base_node_id = mxid_to_node_id o.bot_mxid },
      )
      else (some h.base_node_id, h)

  -- A framework error is answered with no, and not remembered.
  abbrev pub by_ghost : NodeId → Result (Option Ghost) → Task Bool
  by_ghost node (err e) = return false
  by_ghost node (ok ghost) = remember node (ghost_is_managed ghost)

  abbrev pub not_cached : NodeId → NodeId → Task Bool
  not_cached node base = if nat_beq node base then remember node true else (do
    found ← ask λ calls. o.get_existing_ghost_by_id calls (make_user_id node)
    by_ghost node found)

  abbrev pub cached_or : NodeId → Option Bool → Task Bool
  cached_or node (some v) = return v
  cached_or node none = do base ← get_base_node_id; not_cached node base

  unfoldable pub is_managed_node : NodeId → Task Bool
  unfolding get_base_node_id
  is_managed_node node h = cached_or node (lookup node h.managed_node_cache) h
