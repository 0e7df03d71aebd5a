-- ===== src/Bridge/Logins/Connecting.antt =====
-- The first connection of a login that has just been made (pkg/connector/login.go, and `Connect` of
-- pkg/connector/client.go).
use matrix_meshtastic.Prelude.{
  ℕ, ◌≡◌, refl, ap, ◌∙◌, false, true, [], ◌∷◌, List, Option, none, some, Bytes, Result, ok,
  bytes_beq,
}
use matrix_meshtastic.MeshId.Ids.{NodeId, make_user_id, mxid_to_node_id}
use matrix_meshtastic.Bridge.Database.{MeshNodeInfo, find_node, admits_node}
use matrix_meshtastic.Bridge.Database.Rows.{get_by_node_id_lem}
use matrix_meshtastic.Bridge.Hub.{Outside, Ghost, BridgeCall, Hub, continue, ◌>>=◌}
use matrix_meshtastic.Bridge.Keys.Laws.{with_keys}
use matrix_meshtastic.Bridge.Names.{Failure, row_or_new, update_ghost_mesh_names}
use matrix_meshtastic.Bridge.Names.Stored.{IsNameable, with_names, new_user_tables}
use matrix_meshtastic.Bridge.Logins.{listening, named_login, connect_login, submit_user_input}

module _ (o : Outside)
    (new_login : List BridgeCall → Bytes → Bytes → Bytes → NodeId → Result Bytes) where
  named_login_reads :
      (long short : Bytes) (node : NodeId) (found : Option Failure) (h : Hub)
      → (continue found (named_login o new_login long short node) h).1 ≡ h
  unfolding ◌>>=◌
  named_login_reads long short node none h = refl
  named_login_reads long short node (some none) h = refl
  named_login_reads long short node (some (some e)) h = refl

  -- What a login leaves is what naming the user leaves.
  submitted :
      (mxid long short : Bytes) (h : Hub)
      → bytes_beq long [] ≡ false
      → bytes_beq short [] ≡ false
      → (submit_user_input o new_login mxid long short h).1
        ≡ (update_ghost_mesh_names o (make_user_id (mxid_to_node_id mxid)) mxid long short h).1
  unfolding submit_user_input ◌>>=◌
  submitted mxid long short h l s =
      rw (l, s)
        (named_login_reads long short (mxid_to_node_id mxid)
          (update_ghost_mesh_names o (make_user_id (mxid_to_node_id mxid)) mxid long short h).0 _)

  -- A login whose row holds a private key only adds its handler.
  connects :
      (mxid : Bytes) (row : MeshNodeInfo) (b : ℕ) (key : Bytes) (h : Hub)
      → h.tables.faults ≡ []
      → find_node (mxid_to_node_id mxid) h.tables.nodes ≡ some row
      → row.private_key ≡ b ∷ key
      → connect_login o mxid h ≡ (some listening, h)
  unfolding connect_login ◌>>=◌
  connects mxid row b key h quiet found keyed =
      rw (get_by_node_id_lem (mxid_to_node_id mxid) h.tables quiet, found, keyed) refl

  -- A user without a row who logs in with names that fit can connect at once, whatever becomes of the
  -- message to the mesh and of the login in the framework: the handler of mesh events is added, and
  -- nothing is made or stored again; if the framework has the user's ghost, a pair of keys with a private
  -- half can be made, and the database runs the statements and admits the row.
  pub new_login_connects :
      (mxid long short : Bytes) (ghost : Ghost) (public : Bytes) (b : ℕ) (private : Bytes) (h : Hub)
      → bytes_beq long [] ≡ false
      → bytes_beq short [] ≡ false
      → let node = mxid_to_node_id mxid in
        IsNameable o (make_user_id node) long short node ghost none h
        → o.generate_key_pair h.key_draws ≡ ok (public, b ∷ private)
        → let row = with_names (with_keys (row_or_new node none) public (b ∷ private)) long short in
          admits_node row h.tables.nodes ≡ true
          → let after = (submit_user_input o new_login mxid long short h).1 in
            connect_login o mxid after ≡ (some listening, after)
  new_login_connects mxid long short ghost public b private h l s n made admitted =
      let node = mxid_to_node_id mxid in
      let (found, quiet) =
        new_user_tables o (make_user_id node) mxid long short node ghost public (b ∷ private) h n
          made admitted in
      let same = submitted mxid long short h l s in
      connects mxid (with_names (with_keys (row_or_new node none) public (b ∷ private)) long short)
        b private _ (ap (λ (x : Hub). x.tables.faults) same ∙ quiet)
        (ap (λ (x : Hub). find_node node x.tables.nodes) same ∙ found) refl
