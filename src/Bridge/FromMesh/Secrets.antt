-- ===== src/Bridge/FromMesh/Secrets.antt =====
-- What the handlers of mesh events (pkg/connector/handle_meshtastic.go) leave alone in the node table.
pub mod Answers
pub mod Tasks
use matrix_meshtastic.Prelude.{
  ℕ, ◌≡◌, refl, sym, ap, ◌∙◌, subst, arith, inl, inr, Bool, true, false, List, [], ◌∷◌, Option,
  none, some, Bytes, Result, ok, err, Bool-cases, Option-cases, nat_beq, nat_beq_iff, if◌then◌else◌,
}
use matrix_meshtastic.MeshId.Ids.{NodeId}
use matrix_meshtastic.Mesh.Events.{MeshEvent, MeshNodeInfoEvent, MeshMapReportEvent, Event}
use matrix_meshtastic.Bridge.Database.{
  MeshNodeInfo, Waypoint, Tables, Query, find_node, put_node, merged, write_node, admits_node,
  get_by_node_id, set_all, set_last_seen, get_by_waypoint_id, set_waypoint, delete_by_id, statement,
}
use matrix_meshtastic.Bridge.Database.Rows.{find_node-put_node, statement-quiet}
use matrix_meshtastic.Bridge.Hub.{Outside, Ghost, Hub, Task, ◌>>=◌, ◌>>◌, query}

-- The row of a node is still there, with the private key and the mark that it had.
pub record HasSecrets (row : MeshNodeInfo) (id : NodeId) (nodes : List MeshNodeInfo) : Type 0 where
  pub now : MeshNodeInfo
  pub found : find_node id nodes ≡ some now
  pub same_key : now.private_key ≡ row.private_key
  pub same_mark : now.is_managed ≡ row.is_managed

pub record KeepsSecrets (t t' : Tables) : Type 0 where
  pub quiet : t'.faults ≡ []
  pub secrets :
      (id : NodeId) (row : MeshNodeInfo)
      → find_node id t.nodes ≡ some row
      → HasSecrets row id t'.nodes

-- A task that keeps the secrets, when no statement fails.
pub record IsDiscreet {A : Type 0} (m : Task A) : Type 0 where
  pub keeps : (h : Hub) → h.tables.faults ≡ [] → KeepsSecrets h.tables (m h).1.tables

pub same_nodes : (t t' : Tables) → t'.faults ≡ [] → t'.nodes ≡ t.nodes → KeepsSecrets t t'
same_nodes t t' q e = record {
  quiet = q;
  secrets = λ id row f. record {
    now = row;
    found = ap (find_node id) e ∙ f;
    same_key = refl;
    same_mark = refl;
  };
}

pub then_kept : {s t u : Tables} → KeepsSecrets s t → KeepsSecrets t u → KeepsSecrets s u
then_kept {s} {t} {u} k l = record {
  quiet = l.quiet;
  secrets = λ id row f.
      let first = k.secrets id row f in
      let second = l.secrets id first.now first.found in
      record {
        now = second.now;
        found = second.found;
        same_key = second.same_key ∙ first.same_key;
        same_mark = second.same_mark ∙ first.same_mark;
      };
}

put_keeps :
    (new : MeshNodeInfo) (merge : MeshNodeInfo → MeshNodeInfo) (nodes : List MeshNodeInfo)
    → ((row : MeshNodeInfo)
        → find_node new.node_id nodes ≡ some row
        → ((merge row).private_key ≡ row.private_key) × ((merge row).is_managed ≡ row.is_managed))
    → ((row : MeshNodeInfo) → row.node_id ≡ new.node_id → (merge row).node_id ≡ new.node_id)
    → (id : NodeId) (row : MeshNodeInfo) → find_node id nodes ≡ some row
    → HasSecrets row id (put_node new merge nodes)
put_keeps new merge nodes keep same id row f = elim (Bool-cases (nat_beq new.node_id id)) [
  | inl e ↦
      let at : new.node_id ≡ id = (nat_beq_iff new.node_id id).0 e in
      let kept = keep row (ap (λ (n : NodeId). find_node n nodes) at ∙ f) in
      record {
        now = merge row;
        found = rw (find_node-put_node new merge id same nodes, e, f);
        same_key = kept.0;
        same_mark = kept.1;
      }
  | inr e ↦ record {
    now = row;
    found = rw (find_node-put_node new merge id same nodes, e, f);
    same_key = refl;
    same_mark = refl;
  }
]

-- A write keeps the secrets if what it makes of the row that is there does.
pub write_keeps :
    (new : MeshNodeInfo) (merge : MeshNodeInfo → MeshNodeInfo) (t : Tables)
    → t.faults ≡ []
    → ((row : MeshNodeInfo)
        → find_node new.node_id t.nodes ≡ some row
        → ((merge row).private_key ≡ row.private_key) × ((merge row).is_managed ≡ row.is_managed))
    → ((row : MeshNodeInfo) → row.node_id ≡ new.node_id → (merge row).node_id ≡ new.node_id)
    → KeepsSecrets t (write_node new merge t).1
write_keeps new merge t q keep same =
    elim (Bool-cases (admits_node (merged new merge (find_node new.node_id t.nodes)) t.nodes)) [
      | inl e ↦ rw e (record { quiet = q; secrets = put_keeps new merge t.nodes keep same })
      | inr e ↦ rw e (same_nodes t t q refl)
    ]

pub set_last_seen_keeps :
    (id : NodeId) (d : Bool) (now : ℕ) (t : Tables)
    → t.faults ≡ []
    → KeepsSecrets t (set_last_seen id d now t).1
unfolding set_last_seen
set_last_seen_keeps id d now t q =
    rw (statement-quiet _ t q) (write_keeps _ _ t q (λ row f. (refl, refl)) (λ row e. e))

-- A row is written as a handler has read it, but for what it learns.
pub set_all_keeps :
    (row : MeshNodeInfo) (t : Tables)
    → t.faults ≡ []
    → ((old : MeshNodeInfo)
        → find_node row.node_id t.nodes ≡ some old
        → (row.private_key ≡ old.private_key) × (row.is_managed ≡ old.is_managed))
    → KeepsSecrets t (set_all row t).1
unfolding set_all
set_all_keeps row t q keep = rw (statement-quiet _ t q) (write_keeps _ _ t q keep (λ old e. refl))
