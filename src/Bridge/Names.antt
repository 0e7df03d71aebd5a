-- ===== src/Bridge/Names.antt =====
-- The names that a user of Matrix gets on the mesh (`postMessageSave`, `UpdateGhostMeshNames` and
-- `updateGhostSenderID` of pkg/connector/handle_matrix.go, pkg/connector/utils.go).
pub mod Laws
pub mod Stored
use matrix_meshtastic.Prelude.{
  ℕ, zero, suc, ◌⊎◌, inl, inr, Bool, true, false, not, List, [], ◌∷◌, ◌++◌, Option, none, some,
  Bytes, length, ltb, leb, bytes_beq, Error, long_name_too_long, short_name_too_long, Result, ok,
  err, if◌then◌else◌,
}
use matrix_meshtastic.Golang.Utf8.{runes, rune_string, trim_space}
use matrix_meshtastic.MeshId.Ids.{
  NodeId, IdError, node_string, parse_user_id, mxid_to_node_id, broadcast_id,
}
use matrix_meshtastic.MeshId.Node.{get_default_node_names}
use matrix_meshtastic.Mesh.Outgoing.{send_node_info}
use matrix_meshtastic.Bridge.Database.{MeshNodeInfo, new_mesh_node_info, get_by_node_id, set_all}
use matrix_meshtastic.Bridge.Hub.{
  Outside, Ghost, updated_info, BridgeCall, Hub, Task, ◌>>=◌, ◌>>◌, return, skip, panic, mesh,
  query, ask, tell, key_pair, ghost_by_id,
}

-- The loop of `TruncateString`: runes are added until their number reaches the limit.
truncate_from : List Bytes → ℕ → ℕ → Bytes
truncate_from [] limit count = []
truncate_from (r ∷ rs) limit count =
    let rest = truncate_from rs limit (suc count) in
    rune_string r ++ (if leb limit (suc count) then [] else rest)

-- A limit of 0 stands for every one that is not positive.
unfoldable pub truncate_string : Bytes → ℕ → Bytes
unfolding truncate_from
truncate_string s zero = []
truncate_string s (suc n) = truncate_from (runes s) (suc n) 0

-- `updateGhostSenderID`: whether the ghost must be saved, and its user.
pub update_ghost_sender_id : Bytes → Option Bytes → Bool × Option Bytes
update_ghost_sender_id mxid none = (not (bytes_beq mxid []), some mxid)
update_ghost_sender_id mxid (some old) = (not (bytes_beq mxid old), some mxid)

-- The error of `UpdateGhostMeshNames`, `none` for nil.
abbrev pub Failure : Type 0
Failure = Option (Error ⊎ IdError)

abbrev pub or_fail : {A : Type 0} → Result A → (A → Task Failure) → Task Failure
or_fail (err e) f = return (some (inl e))
or_fail (ok a) f = f a

abbrev sent : Option Error → Failure
sent none = none
sent (some e) = some (inl e)

-- The row of a node that has none.
abbrev pub row_or_new : NodeId → Option MeshNodeInfo → MeshNodeInfo
row_or_new node (some row) = row
row_or_new node none = record new_mesh_node_info {
  node_id = node;
  user_id = node_string node;
  is_direct = true;
  is_managed = true;
}

module _ (o : Outside) where
  -- A row without a private key gets a new pair.
  abbrev pub with_pair_made : MeshNodeInfo → Bytes → Task (Result MeshNodeInfo)
  with_pair_made row (b ∷ key) = return (ok row)
  with_pair_made row [] = do
    made ← key_pair o
    elim made [
      | err e ↦ return (err e)
      | ok (public, private) ↦
          return (ok (record row { public_key = public; private_key = private }))
    ]

  abbrev pub name_node : NodeId → Bytes → Bytes → MeshNodeInfo → Task Failure
  name_node node long short row = do
    saved ← query (set_all (record row { long_name = long; short_name = short }))
    or_fail saved λ _. do
      e ← mesh (send_node_info o.lib node broadcast_id long short false row.public_key)
      return (sent e)

  abbrev pub name_parsed : Bytes → Bytes → NodeId × Option IdError → Task Failure
  name_parsed long short (node, some e) = return (some (inr e))
  name_parsed long short (node, none) = do
    found ← query (get_by_node_id node)
    or_fail found λ stored. do
      made ← with_pair_made (row_or_new node stored) (row_or_new node stored).private_key
      or_fail made (name_node node long short)

  abbrev pub name_ghost : Bytes → Bytes → Bytes → Bytes → Task Failure
  name_ghost user_id mxid long short = do
    ghost ← ghost_by_id o user_id
    or_fail ghost λ g. do
      tell (updated_info g.id long (some mxid))
      name_parsed long short (parse_user_id user_id)

  unfoldable pub update_ghost_mesh_names : Bytes → Bytes → Bytes → Bytes → Task Failure
  update_ghost_mesh_names user_id mxid long short =
      if ltb 39 (length long)
      then return (some (inl long_name_too_long))
      else if ltb 4 (length short)
      then return (some (inl short_name_too_long))
      else name_ghost user_id mxid long short

  abbrev pub fallback_long_name : Bytes → Bytes → Bytes
  fallback_long_name default display =
      if bytes_beq (trim_space display) [] then default else truncate_string (trim_space display) 39

  abbrev pub set_fallback : Bytes → Bytes → Ghost → Option Bytes → Task (Unit {0})
  set_fallback mxid sender_id ghost member = if ghost.name_set then skip else (elim member [
    | none ↦ panic
    | some display ↦ do
      let (long, short) = get_default_node_names (mxid_to_node_id mxid)
      update_ghost_mesh_names sender_id mxid (fallback_long_name long display) short
      skip
  ])

  -- `member_info`: the display name of the room's member, `none` for a nil pointer without an error.
  abbrev pub with_ghost :
      (List BridgeCall → Bytes → Bytes → Result (Option Bytes))
      → Bytes
      → Bytes
      → Bytes
      → Result Ghost
      → Task (Unit {0})
  with_ghost member_info mxid room sender_id (err e) = skip
  with_ghost member_info mxid room sender_id (ok ghost) = do
    member ← ask λ calls. member_info calls room mxid
    elim member [ err e ↦ skip | ok found ↦ set_fallback mxid sender_id ghost found ]

  unfoldable pub post_message_save :
      (List BridgeCall → Bytes → Bytes → Result (Option Bytes))
      → Bytes
      → Bytes
      → Bytes
      → Task (Unit {0})
  unfolding update_ghost_mesh_names truncate_string
  post_message_save member_info mxid room sender_id = do
    ghost ← ghost_by_id o sender_id
    with_ghost member_info mxid room sender_id ghost
