-- ===== src/Bridge/Keys.antt =====
-- `getGhostPublicKey` and `getGhostPrivateKey` of pkg/connector/handle_matrix.go.
pub mod Laws
pub mod Offline
use matrix_meshtastic.Prelude.{
  [], ◌∷◌, Option, none, some, Bytes, no_public_key, no_private_key, Error, Result, ok, err,
  if◌then◌else◌,
}
use matrix_meshtastic.MeshId.Ids.{NodeId}
use matrix_meshtastic.Bridge.Database.{MeshNodeInfo, get_by_node_id, set_all}
use matrix_meshtastic.Bridge.Hub.{Outside, Hub, Task, ◌>>=◌, ◌>>◌, return, panic, query, key_pair}

abbrev pub or_error : {A B : Type 0} → Result A → (A → Task (Result B)) → Task (Result B)
or_error (err e) f = return (err e)
or_error (ok a) f = f a

module _ (o : Outside) where
  -- A new pair is stored; it is the public key that is returned.
  abbrev pub generated : MeshNodeInfo → Task (Result Bytes)
  generated row = do
    made ← key_pair o
    or_error made λ pair. do
      saved ← query (set_all (record row { public_key = pair.0; private_key = pair.1 }))
      or_error saved λ _. return (ok pair.0)

  abbrev pub key_or_generate : Bytes → Error → MeshNodeInfo → Task (Result Bytes)
  key_or_generate (b ∷ key) missing row = return (ok (b ∷ key))
  key_or_generate [] missing row = if row.is_managed then generated row else return (err missing)

  -- A node without a row is a nil pointer that is read.
  abbrev pub of_row :
      (MeshNodeInfo → Bytes) → Error → Result (Option MeshNodeInfo) → Task (Result Bytes)
  of_row key missing (err e) = return (err e)
  of_row key missing (ok none) = panic
  of_row key missing (ok (some row)) = key_or_generate (key row) missing row

  unfoldable pub get_ghost_public_key : NodeId → Task (Result Bytes)
  get_ghost_public_key node = do
    found ← query (get_by_node_id node)
    of_row (λ row. row.public_key) no_public_key found

  unfoldable pub get_ghost_private_key : NodeId → Task (Result Bytes)
  get_ghost_private_key node = do
    found ← query (get_by_node_id node)
    of_row (λ row. row.private_key) no_private_key found
