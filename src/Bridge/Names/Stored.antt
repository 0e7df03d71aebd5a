-- ===== src/Bridge/Names/Stored.antt =====
-- The row that `UpdateGhostMeshNames` of pkg/connector/handle_matrix.go leaves for a node.
use matrix_meshtastic.Prelude.{
  ℕ, ◌≤◌, ◌≡◌, refl, ap, ◌∙◌, arith, true, false, [], ◌∷◌, ◌++◌, List, Option, none, some, suc,
  Bytes, length, ok, nat_beq_iff,
}
use matrix_meshtastic.MeshId.Ids.{NodeId, node_string, parse_user_id}
use matrix_meshtastic.Bridge.Database.{MeshNodeInfo, find_node, put_node, admits_node}
use matrix_meshtastic.Bridge.Database.Rows.{
  find_node-id, find_node-put_node, set_all_lem, get_by_node_id_lem,
}
use matrix_meshtastic.Bridge.Hub.{Outside, Ghost, got_ghost, updated_info, Hub, ◌>>=◌}
use matrix_meshtastic.Bridge.Keys.Laws.{with_keys}
use matrix_meshtastic.Bridge.Names.{
  with_pair_made, row_or_new, name_ghost, name_node, update_ghost_mesh_names,
}

abbrev pub with_names : MeshNodeInfo → Bytes → Bytes → MeshNodeInfo
with_names row long short = record row { long_name = long; short_name = short }

-- The row of a user that is new: heard directly, managed by the bridge, and nothing else known.
abbrev pub new_user_row : NodeId → Bytes → Bytes → Bytes → Bytes → MeshNodeInfo
new_user_row node long short public private = record {
  node_id = node;
  user_id = node_string node;
  long_name = long;
  short_name = short;
  role = none;
  is_licensed = false;
  is_unmessagable = false;
  is_managed = true;
  is_direct = true;
  public_key = public;
  private_key = private;
  last_seen = none;
}

module _ (o : Outside) where
  -- Names that fit, for a node that the framework knows as a ghost and the database may know.
  pub record IsNameable (user_id long short : Bytes) (node : NodeId) (ghost : Ghost)
      (stored : Option MeshNodeInfo) (h : Hub) : Type 0 where
    pub quiet : h.tables.faults ≡ []
    pub found : o.get_ghost_by_id h.calls user_id ≡ ok ghost
    pub parsed : parse_user_id user_id ≡ (node, none)
    pub in_table : find_node node h.tables.nodes ≡ stored
    pub long_fits : length long ≤ 39
    pub short_fits : length short ≤ 4

  tables_after_naming :
      (node : NodeId) (long short : Bytes) (row : MeshNodeInfo) (h : Hub)
      → h.tables.faults ≡ []
      → admits_node (with_names row long short) h.tables.nodes ≡ true
      → (name_node o node long short row h).1.tables ≡ (record h.tables {
        nodes =
            put_node (with_names row long short) (λ old. with_names row long short) h.tables.nodes;
      })
  unfolding ◌>>=◌
  tables_after_naming node long short row h quiet admitted =
      rw (set_all_lem (with_names row long short) h.tables quiet admitted) refl

  found_put :
      (node : NodeId) (row : MeshNodeInfo) (rows : List MeshNodeInfo)
      → row.node_id ≡ node
      → find_node node (put_node row (λ old. row) rows) ≡ some row
  found_put node row rows e =
      find_node-put_node row (λ old. row) node (λ old same. refl) rows
      ∙ elim (find_node node rows) [
        | none ↦ ground (arith, nat_beq_iff row.node_id node)
        | some old ↦ ground (arith, nat_beq_iff row.node_id node)
      ]

  fits_lem :
      (user_id mxid long short : Bytes) (h : Hub)
      → length long ≤ 39
      → length short ≤ 4
      → update_ghost_mesh_names o user_id mxid long short h ≡ name_ghost o user_id mxid long short h
  unfolding update_ghost_mesh_names
  fits_lem user_id mxid long short h l s = ground arith

  -- The connector once the framework has been told of the name.
  abbrev told : Bytes → Bytes → Bytes → Ghost → Hub → Hub
  told user_id mxid long ghost h = record h {
    calls = h.calls ++ got_ghost user_id ∷ [] ++ updated_info ghost.id long (some mxid) ∷ [];
  }

  row_is_named :
      (user_id mxid long short : Bytes) (node : NodeId) (ghost : Ghost)
      (stored : Option MeshNodeInfo) (row : MeshNodeInfo) (h after : Hub)
      → IsNameable user_id long short node ghost stored h
      → with_pair_made o
          (row_or_new node stored)
          (row_or_new node stored).private_key
          (told user_id mxid long ghost h)
        ≡ (some (ok row), after)
      → after.tables ≡ h.tables
      → row.node_id ≡ node
      → admits_node (with_names row long short) h.tables.nodes ≡ true
      → let tables = (update_ghost_mesh_names o user_id mxid long short h).1.tables in
        (find_node node tables.nodes ≡ some (with_names row long short)) × (tables.faults ≡ [])
  unfolding ◌>>=◌
  row_is_named user_id mxid long short node ghost stored row h after n made same of_node admitted =
      rw
        (
          fits_lem user_id mxid long short h n.long_fits n.short_fits,
          n.found,
          n.parsed,
          get_by_node_id_lem node h.tables n.quiet,
          n.in_table,
          made,
        )
        (let left =
            tables_after_naming node long short row after (ap (λ t. t.faults) same ∙ n.quiet)
              (ap (λ t. admits_node (with_names row long short) t.nodes) same ∙ admitted) in
          (
            ap (λ t. find_node node t.nodes) left
                ∙ found_put node (with_names row long short) after.tables.nodes of_node,
            ap (λ t. t.faults) left ∙ ap (λ t. t.faults) same ∙ n.quiet,
          ))

  pub new_user_tables :
      (user_id mxid long short : Bytes) (node : NodeId) (ghost : Ghost) (public private : Bytes)
      (h : Hub)
      → IsNameable user_id long short node ghost none h
      → o.generate_key_pair h.key_draws ≡ ok (public, private)
      → let row = with_names (with_keys (row_or_new node none) public private) long short in
        let tables = (update_ghost_mesh_names o user_id mxid long short h).1.tables in
        admits_node row h.tables.nodes ≡ true
        → (find_node node tables.nodes ≡ some row) × (tables.faults ≡ [])
  unfolding ◌>>=◌
  new_user_tables user_id mxid long short node ghost public private h n made admitted =
      let asked : Hub = record (told user_id mxid long ghost h) { key_draws = suc h.key_draws } in
      row_is_named user_id mxid long short node ghost none
        (with_keys (row_or_new node none) public private) h asked n (rw made refl) refl refl
        admitted

  -- A node without a row gets one, as a directly heard node that the bridge manages, with the two names
  -- and a new pair of keys, if the names fit, the framework has the ghost, the user ID parses, a pair can
  -- be made, and the database runs the statements and admits the row.
  pub new_user_is_named :
      (user_id mxid long short : Bytes) (node : NodeId) (ghost : Ghost) (public private : Bytes)
      (h : Hub)
      → IsNameable user_id long short node ghost none h
      → o.generate_key_pair h.key_draws ≡ ok (public, private)
      → let row = new_user_row node long short public private in
        admits_node row h.tables.nodes ≡ true
        → find_node node (update_ghost_mesh_names o user_id mxid long short h).1.tables.nodes
          ≡ some row
  new_user_is_named user_id mxid long short node ghost public private h n made admitted =
      (new_user_tables user_id mxid long short node ghost public private h n made admitted).0

  pair_kept :
      (row : MeshNodeInfo) (b : ℕ) (key : Bytes) (h : Hub)
      → row.private_key ≡ b ∷ key
      → with_pair_made o row row.private_key h ≡ (some (ok row), h)
  pair_kept row b key h e = ap (λ k. with_pair_made o row k h) e

  -- A node whose row holds a private key gets the two names and keeps the rest of its row, its keys
  -- among it, if the names fit, the framework has the ghost, the user ID parses, and the database runs
  -- the statements and admits the row.
  pub named_node_keeps_keys :
      (user_id mxid long short : Bytes) (node : NodeId) (ghost : Ghost) (row : MeshNodeInfo) (b : ℕ)
      (key : Bytes) (h : Hub)
      → IsNameable user_id long short node ghost (some row) h
      → row.private_key ≡ b ∷ key
      → admits_node (with_names row long short) h.tables.nodes ≡ true
      → find_node node (update_ghost_mesh_names o user_id mxid long short h).1.tables.nodes
        ≡ some (with_names row long short)
  named_node_keeps_keys user_id mxid long short node ghost row b key h n keyed admitted =
      (row_is_named user_id mxid long short node ghost (some row) row h
        (told user_id mxid long ghost h) n (pair_kept row b key _ keyed) refl
        (find_node-id node h.tables.nodes row n.in_table) admitted).0
