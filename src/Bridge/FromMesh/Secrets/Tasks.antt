-- ===== src/Bridge/FromMesh/Secrets/Tasks.antt =====
-- Tasks that keep private keys and marks, put together.
use matrix_meshtastic.Prelude.{
  ℕ, ◌≡◌, refl, ap, ◌∙◌, arith, Bool, true, false, [], Option, none, some, ok, if◌then◌else◌,
}
use matrix_meshtastic.MeshId.Ids.{NodeId}
use matrix_meshtastic.Bridge.Database.{
  MeshNodeInfo, Tables, find_node, get_by_node_id, set_all, set_last_seen, new_mesh_node_info,
  Query, Waypoint, statement, get_by_waypoint_id, delete_by_id, set_waypoint, write_waypoint,
}
use matrix_meshtastic.Bridge.Database.Rows.{find_node-id, statement-quiet}
use matrix_meshtastic.Bridge.Hub.{Hub, Task, continue, ◌>>=◌, query}
use matrix_meshtastic.Bridge.FromMesh.{row_or_new}
use matrix_meshtastic.Bridge.FromMesh.Secrets.{
  IsDiscreet, KeepsSecrets, same_nodes, then_kept, set_all_keeps, set_last_seen_keeps,
}

pub free_task : {A : Type 0} (m : Task A) → ((h : Hub) → (m h).1.tables ≡ h.tables) → IsDiscreet m
free_task m e = record {
  keeps = λ h q.
      same_nodes h.tables (m h).1.tables (ap (λ (t : Tables). t.faults) (e h) ∙ q)
        (ap (λ (t : Tables). t.nodes) (e h));
}

continue-IsDiscreet :
    {A B : Type 0} (found : Option A) (f : A → Task B)
    → ((a : A) → IsDiscreet (f a))
    → IsDiscreet (continue found f)
continue-IsDiscreet none f k = free_task _ (λ h. refl)
continue-IsDiscreet (some a) f k = k a

pub if_IsDiscreet :
    {A : Type 0} (b : Bool) (m k : Task A)
    → IsDiscreet m
    → IsDiscreet k
    → IsDiscreet (if b then m else k)
if_IsDiscreet true m k d e = d
if_IsDiscreet false m k d e = e

pub bind-IsDiscreet :
    {A B : Type 0} (m : Task A) (f : A → Task B)
    → IsDiscreet m
    → ((a : A) → IsDiscreet (f a))
    → IsDiscreet (m >>= f)
unfolding ◌>>=◌
bind-IsDiscreet m f d k = record {
  keeps = λ h q.
      let first = d.keeps h q in
      then_kept first ((continue-IsDiscreet (m h).0 f k).keeps (m h).1 first.quiet);
}

pub read-IsDiscreet : (id : NodeId) → IsDiscreet (query (get_by_node_id id))
unfolding get_by_node_id
read-IsDiscreet id = record {
  keeps = λ h q. rw (statement-quiet _ h.tables q) (same_nodes h.tables h.tables q refl);
}

pub seen-IsDiscreet :
    (id : NodeId) (d : Bool) (now : ℕ) → IsDiscreet (query (set_last_seen id d now))
seen-IsDiscreet id d now = record { keeps = λ h q. set_last_seen_keeps id d now h.tables q }

-- A statement that leaves the nodes alone.
other_table :
    {A : Type 0} (q : Query A)
    → ((t : Tables) → (q t).1.nodes ≡ t.nodes)
    → ((t : Tables) → (q t).1.faults ≡ t.faults)
    → IsDiscreet (query (statement q))
other_table q e f = record {
  keeps = λ h k.
      rw (statement-quiet q h.tables k)
        (same_nodes h.tables (q h.tables).1 (f h.tables ∙ k) (e h.tables));
}

pub read_waypoint-IsDiscreet : (id : ℕ) → IsDiscreet (query (get_by_waypoint_id id))
unfolding get_by_waypoint_id
read_waypoint-IsDiscreet id = other_table _ (λ t. refl) (λ t. refl)

pub delete-IsDiscreet : (id : ℕ) → IsDiscreet (query (delete_by_id id))
unfolding delete_by_id
delete-IsDiscreet id = other_table _ (λ t. refl) (λ t. refl)

pub set_waypoint-IsDiscreet : (row : Waypoint) → IsDiscreet (query (set_waypoint row))
unfolding set_waypoint
set_waypoint-IsDiscreet row =
    other_table (write_waypoint row) (λ t. ground arith) (λ t. ground arith)

-- What a handler may learn of a node.
pub record IsHarmless (learn : MeshNodeInfo → MeshNodeInfo) : Type 0 where
  pub same_id : (row : MeshNodeInfo) → (learn row).node_id ≡ row.node_id
  pub same_key : (row : MeshNodeInfo) → (learn row).private_key ≡ row.private_key
  pub same_mark : (row : MeshNodeInfo) → (learn row).is_managed ≡ row.is_managed

learnt_keeps :
    (learn : MeshNodeInfo → MeshNodeInfo) (id : NodeId) (t : Tables) (found : Option MeshNodeInfo)
    → IsHarmless learn
    → t.faults ≡ []
    → find_node id t.nodes ≡ found
    → KeepsSecrets t (set_all (learn (row_or_new id (ok found))) t).1
learnt_keeps learn id t (some row) harmless q e = set_all_keeps (learn row) t q λ old f.
    let at : row.node_id ≡ id = find_node-id id t.nodes row e in
    let same : row ≡ old = cc (e, f, at, harmless.same_id row) in
    (
      harmless.same_key row ∙ ap (λ (r : MeshNodeInfo). r.private_key) same,
      harmless.same_mark row ∙ ap (λ (r : MeshNodeInfo). r.is_managed) same,
    )
learnt_keeps learn id t none harmless q e =
    set_all_keeps (learn (record new_mesh_node_info { node_id = id })) t q
      λ old f. cc (e, f, harmless.same_id (record new_mesh_node_info { node_id = id }))

-- A row is read, written back with what was learnt, and the rest follows.
pub learn-IsDiscreet :
    {A : Type 0} (learn : MeshNodeInfo → MeshNodeInfo) (id : NodeId) (k : MeshNodeInfo → Task A)
    → IsHarmless learn
    → ((row : MeshNodeInfo) → IsDiscreet (k row))
    → IsDiscreet (
        query (get_by_node_id id) >>= λ found.
        query (set_all (learn (row_or_new id found))) >>= λ _. k (row_or_new id found))
unfolding get_by_node_id ◌>>=◌
learn-IsDiscreet learn id k harmless rest = record {
  keeps = λ h q.
      let row : MeshNodeInfo = row_or_new id (ok (find_node id h.tables.nodes)) in
      let first = learnt_keeps learn id h.tables _ harmless q refl in
      let after : Hub = record h { tables = (set_all (learn row) h.tables).1 } in
      rw (statement-quiet _ h.tables q) (then_kept first ((rest row).keeps after first.quiet));
}
