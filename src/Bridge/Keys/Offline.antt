-- ===== src/Bridge/Keys/Offline.antt =====
-- Keys are made and stored without the mesh (pkg/connector/handle_matrix.go).
use matrix_meshtastic.Prelude.{
  sym, subst, Bool, [], ◌∷◌, none, some, Bytes, Error, no_public_key, Result, ok, err, Option, inl,
  inr, Bool-cases, refl, if◌then◌else◌,
}
use matrix_meshtastic.MeshId.Ids.{NodeId}
use matrix_meshtastic.Bridge.Database.{MeshNodeInfo, get_by_node_id, set_all}
use matrix_meshtastic.Bridge.Hub.{Outside, ◌>>=◌, return, query}
use matrix_meshtastic.Bridge.Hub.Offline.{IsOffline, bind-IsOffline}
use matrix_meshtastic.Bridge.Keys.{
  or_error, get_ghost_public_key, of_row, key_or_generate, generated,
}

saved-IsOffline :
    (key : Bytes) (saved : Result (Unit {0})) → IsOffline (or_error saved λ _. return (ok key))
saved-IsOffline key (err e) = record { same = λ h. refl }
saved-IsOffline key (ok u) = record { same = λ h. refl }

pair-IsOffline :
    (row : MeshNodeInfo) (made : Result (Bytes × Bytes))
    → IsOffline (
        or_error made λ pair.
          query (set_all (record row { public_key = pair.0; private_key = pair.1 })) >>= λ saved.
          or_error saved λ _. return (ok pair.0))
pair-IsOffline row (err e) = record { same = λ h. refl }
pair-IsOffline row (ok pair) =
    bind-IsOffline (query (set_all (record row { public_key = pair.0; private_key = pair.1 }))) _
      (record { same = λ h. refl }) (saved-IsOffline pair.0)

module _ (o : Outside) where
  generated-IsOffline : (row : MeshNodeInfo) → IsOffline (generated o row)
  generated-IsOffline row =
      bind-IsOffline _ _ (record { same = λ h. refl }) λ made. pair-IsOffline row made

  made-IsOffline :
      (key : Bytes) (missing : Error) (row : MeshNodeInfo)
      → IsOffline (key_or_generate o key missing row)
  made-IsOffline (b ∷ key) missing row = record { same = λ h. refl }
  made-IsOffline [] missing row = elim (Bool-cases row.is_managed) [
    | inl e ↦
        subst (λ (b : Bool). IsOffline (if b then generated o row else return (err missing)))
          (sym e) (generated-IsOffline row)
    | inr e ↦
        subst (λ (b : Bool). IsOffline (if b then generated o row else return (err missing)))
          (sym e) (record { same = λ h. refl })
  ]

  row-IsOffline :
      (found : Result (Option MeshNodeInfo))
      → IsOffline (of_row o (λ row. row.public_key) no_public_key found)
  row-IsOffline (err e) = record { same = λ h. refl }
  row-IsOffline (ok none) = record { same = λ h. refl }
  row-IsOffline (ok (some row)) = made-IsOffline row.public_key no_public_key row

  pub key-IsOffline : (node : NodeId) → IsOffline (get_ghost_public_key o node)
  unfolding get_ghost_public_key
  key-IsOffline node =
      bind-IsOffline (query (get_by_node_id node)) _ (record { same = λ h. refl }) row-IsOffline
