-- ===== src/Bridge/Presence.antt =====
-- Signs of life of Matrix users, and members of rooms (`UpdateLastSeenDate`, `HandleMatrixMembership`,
-- `HandleMatrixReactionRemove`, `HandleMatrixTyping` and `HandleMatrixReadReceipt` of
-- pkg/connector/handle_matrix.go). `is_ghost_mxid` is the framework's test of a Matrix user ID.
use matrix_meshtastic.Prelude.{
  Bool, true, Option, none, some, Bytes, Error, removal_not_supported, Result, ok, err,
  if◌then◌else◌,
}
use matrix_meshtastic.MeshId.Ids.{NodeId, IdError, make_user_id, mxid_to_node_id, parse_user_id}
use matrix_meshtastic.Bridge.Database.{set_last_seen}
use matrix_meshtastic.Bridge.Hub.{
  Outside, Ghost, Task, ◌>>=◌, ◌>>◌, return, skip, query, now_seconds, ghost_by_id,
}
use matrix_meshtastic.Bridge.Managed.{is_managed_node}

-- The target of a change: a ghost by its ID, a login by its ID, or another kind of value.
pub data MembershipTarget : Type 0 where
  ghost_target login_target : Bytes → MembershipTarget
  other_target : MembershipTarget

pub record MembershipChange : Type 0 where
  pub is_join : Bool
  pub target : MembershipTarget

pub data MembershipOutcome : Type 0 where
  no_change unknown_target : MembershipOutcome
  redirect_to : Bytes → MembershipOutcome
  no_ghost : Error → MembershipOutcome
  no_node : IdError → MembershipOutcome

module _ (o : Outside) (is_ghost_mxid : Bytes → Bool) where
  abbrev saw : NodeId → Result Ghost → Task (Unit {0})
  saw node (err e) = skip
  saw node (ok ghost) = do now ← now_seconds; query (set_last_seen node true now); skip

  unfoldable pub update_last_seen_date : Bytes → Task (Unit {0})
  update_last_seen_date sender = if is_ghost_mxid sender then skip else (do
    ghost ← ghost_by_id o (make_user_id (mxid_to_node_id sender))
    saw (mxid_to_node_id sender) ghost)

  unfoldable pub handle_matrix_reaction_remove : Bytes → Task Error
  unfolding update_last_seen_date
  handle_matrix_reaction_remove sender = do
    update_last_seen_date sender
    return removal_not_supported

  -- `user_mxid`: the Matrix user of the login.
  unfoldable pub handle_matrix_typing : Bool → Bytes → Task (Unit {0})
  unfolding update_last_seen_date
  handle_matrix_typing is_typing user_mxid =
      if is_typing then update_last_seen_date user_mxid else skip

  unfoldable pub handle_matrix_read_receipt : Bytes → Task (Unit {0})
  unfolding update_last_seen_date
  handle_matrix_read_receipt user_mxid = update_last_seen_date user_mxid

module _ (o : Outside) where
  abbrev redirect : NodeId × Option IdError → Task MembershipOutcome
  redirect (node, some e) = return (no_node e)
  redirect (node, none) = do
    managed ← is_managed_node o node
    return (if managed then redirect_to (make_user_id node) else no_change)

  abbrev of_login_ghost : Result Ghost → Task MembershipOutcome
  of_login_ghost (err e) = return (no_ghost e)
  of_login_ghost (ok ghost) = redirect (parse_user_id ghost.id)

  abbrev of_target : MembershipTarget → Task MembershipOutcome
  of_target (ghost_target id) = redirect (parse_user_id id)
  of_target (login_target id) = do ghost ← ghost_by_id o id; of_login_ghost ghost
  of_target other_target = return unknown_target

  unfoldable pub handle_matrix_membership : MembershipChange → Task MembershipOutcome
  unfolding is_managed_node
  handle_matrix_membership change =
      if change.is_join then of_target change.target else return no_change
