-- ===== src/Bridge/Logins.antt =====
-- Logins and the commands on names (`Connect` of pkg/connector/client.go, pkg/connector/login.go, and
-- `fnUpdateNames` and `fnNodeInfo` of pkg/connector/commands.go).
pub mod Connecting
use matrix_meshtastic.Prelude.{
  Bool, true, false, ◌||◌, List, [], ◌∷◌, ◌++◌, ◌⊎◌, inl, inr, Option, none, some, Bytes, Error,
  names_required, long_name_too_long, short_name_too_long, Result, ok, err, length, ltb, bytes_beq,
  if◌then◌else◌,
}
use matrix_meshtastic.MeshId.Ids.{
  NodeId, IdError, make_user_id, make_user_login_id, mxid_to_node_id, parse_node_id, parse_user_id,
}
use matrix_meshtastic.Bridge.Database.{MeshNodeInfo, get_by_node_id, set_all}
use matrix_meshtastic.Bridge.Hub.{
  Outside, BridgeCall, Task, ◌>>=◌, ◌>>◌, return, skip, query, ask, key_pair,
}
use matrix_meshtastic.Bridge.Ghosts.{send_managed_node_info}
use matrix_meshtastic.Bridge.Names.{Failure, update_ghost_mesh_names}

-- The bad credentials that a login reports, or that its handler of mesh events is added.
pub data Connected : Type 0 where
  node_db_error key_pair_generation_error node_info_save_error : Error → Connected
  node_info_missing : NodeId → Connected
  listening : Connected

-- The `Validate` functions of the login's fields.
pub validate_long_name : Bytes → Option Error
validate_long_name s = if ltb 39 (length s) then some long_name_too_long else none

pub validate_short_name : Bytes → Option Error
validate_short_name s = if ltb 4 (length s) then some short_name_too_long else none

pub data LoginResult : Type 0 where
  login_failed : Error ⊎ IdError → LoginResult
  logged_in : Bytes → NodeId → LoginResult

pub data NamesReply : Type 0 where
  names_usage long_too_long short_too_long names_updated : NamesReply
  names_failed : Error ⊎ IdError → NamesReply

pub data NodeInfoReply : Type 0 where
  info_failed : Error → NodeInfoReply
  info_requested : NodeId → NodeInfoReply
  not_associated : Bytes → NodeInfoReply
  info_shown : NodeId → Bytes → Bytes → Bytes → NodeInfoReply

-- `strings.Join(words, " ")`
join_words : List Bytes → Bytes
join_words [] = []
join_words (w ∷ ws) =
    let rest = join_words ws in elim ws [ [] ↦ w | next ∷ more ↦ w ++ (b' ' ∷ rest) ]

module _ (o : Outside) where
  abbrev keys_saved : Result (Unit {0}) → Connected
  keys_saved (err e) = node_info_save_error e
  keys_saved (ok u) = listening

  abbrev save_keys : MeshNodeInfo → Result (Bytes × Bytes) → Task Connected
  save_keys row (err e) = return (key_pair_generation_error e)
  save_keys row (ok pair) = do
    saved ← query (set_all (record row { public_key = pair.0; private_key = pair.1 }))
    return (keys_saved saved)

  abbrev with_key : MeshNodeInfo → Bytes → Task Connected
  with_key row (b ∷ key) = return listening
  with_key row [] = do made ← key_pair o; save_keys row made

  abbrev pub with_row : NodeId → Result (Option MeshNodeInfo) → Task Connected
  with_row node (err e) = return (node_db_error e)
  with_row node (ok none) = return (node_info_missing node)
  with_row node (ok (some row)) = with_key row row.private_key

  -- `Connect` of a login, with its Matrix user.
  unfoldable pub connect_login : Bytes → Task Connected
  connect_login user_mxid = do
    found ← query (get_by_node_id (mxid_to_node_id user_mxid))
    with_row (mxid_to_node_id user_mxid) found

  -- `new_login`: the framework's answer to `NewLogin`, the ID of the login.
  module _ (new_login : List BridgeCall → Bytes → Bytes → Bytes → NodeId → Result Bytes) where
    abbrev pub login_made : NodeId → Result Bytes → LoginResult
    login_made node (err e) = login_failed (inl e)
    login_made node (ok id) = logged_in id node

    abbrev pub named_login : Bytes → Bytes → NodeId → Failure → Task LoginResult
    named_login long short node (some e) = return (login_failed e)
    named_login long short node none = do
      made ← ask λ calls. new_login calls (make_user_login_id node) short long node
      return (login_made node made)

    -- A field that is missing reads as the empty text.
    unfoldable pub submit_user_input : Bytes → Bytes → Bytes → Task LoginResult
    unfolding update_ghost_mesh_names
    submit_user_input user_mxid long short =
        if bytes_beq long [] || bytes_beq short []
        then return (login_failed (inl names_required))
        else (do
          e ←
              update_ghost_mesh_names o (make_user_id (mxid_to_node_id user_mxid)) user_mxid long
                short
          named_login long short (mxid_to_node_id user_mxid) e)

  abbrev updated : Failure → NamesReply
  updated none = names_updated
  updated (some e) = names_failed e

  unfoldable pub fn_update_names : Bytes → List Bytes → Task NamesReply
  unfolding update_ghost_mesh_names join_words
  fn_update_names user_mxid [] = return names_usage
  fn_update_names user_mxid (short ∷ []) = return names_usage
  fn_update_names user_mxid (short ∷ word ∷ words) =
      if ltb 39 (length (join_words (word ∷ words)))
      then return long_too_long
      else if ltb 4 (length short)
      then return short_too_long
      else (do
        e ←
            update_ghost_mesh_names o (make_user_id (mxid_to_node_id user_mxid)) user_mxid
              (join_words (word ∷ words)) short
        return (updated e))

  -- `format_ghost_mxid` is the framework's, where it is the one for Matrix; `is_valid_mxid` is the test
  -- of `ParseAndValidateRelaxed`.
  module _ (format_ghost_mxid : Option (Bytes → Bytes)) (is_valid_mxid : Bytes → Bool) where
    abbrev ghost_or_user : Bytes → NodeId → Option (Bytes → Bytes) → Bytes × Bool
    ghost_or_user user_mxid node none = (user_mxid, false)
    ghost_or_user user_mxid node (some format) = (format (make_user_id node), true)

    abbrev by_argument : Bytes → Bytes → NodeId × Option IdError → Bytes × Bool
    by_argument user_mxid arg (node, none) = ghost_or_user user_mxid node format_ghost_mxid
    by_argument user_mxid arg (node, some e) = (if is_valid_mxid arg then arg else user_mxid, false)

    -- The Matrix user that is asked for, and whether it is known to stand for a node.
    asked_user : Bytes → List Bytes → Bytes × Bool
    asked_user user_mxid [] = (user_mxid, false)
    asked_user user_mxid (arg ∷ args) = by_argument user_mxid arg (parse_node_id arg)

    abbrev node_of_user : Bytes → Bool → Option Bytes → NodeId × Bool
    node_of_user mxid is_node none = (mxid_to_node_id mxid, is_node)
    node_of_user mxid is_node (some ghost_id) = ((parse_user_id ghost_id).0, true)

    abbrev unknown_node : NodeId → Bytes → NodeId → Bool → Task NodeInfoReply
    unknown_node from mxid node false = return (not_associated mxid)
    unknown_node from mxid node true = do
      send_managed_node_info o from node true
      return (info_requested node)

    abbrev show_row :
        NodeId → Bytes → NodeId → Bool → Result (Option MeshNodeInfo) → Task NodeInfoReply
    show_row from mxid node is_node (err e) = return (info_failed e)
    show_row from mxid node is_node (ok none) = unknown_node from mxid node is_node
    show_row from mxid node is_node (ok (some row)) =
        if bytes_beq row.long_name [] || bytes_beq row.short_name []
        then unknown_node from mxid node is_node
        else return (info_shown node row.long_name row.short_name row.public_key)

    -- The key is shown in base64, or as unknown where it is empty.
    unfoldable pub fn_node_info : Bytes → List Bytes → Task NodeInfoReply
    unfolding asked_user send_managed_node_info
    fn_node_info user_mxid args = do
      let (mxid, is_node) = asked_user user_mxid args
      let (node, known) = node_of_user mxid is_node (o.parse_ghost_mxid mxid)
      found ← query (get_by_node_id node)
      show_row (mxid_to_node_id user_mxid) mxid node known found
