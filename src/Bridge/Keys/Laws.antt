-- ===== src/Bridge/Keys/Laws.antt =====
-- The keys that are stored and returned (`getGhostPublicKey`, `getGhostPrivateKey` of
-- pkg/connector/handle_matrix.go).
use matrix_meshtastic.Prelude.{
  ℕ, suc, ◌≡◌, refl, ap, ◌∙◌, arith, Bool, true, [], ◌∷◌, some, Bytes, Result, ok, nat_beq_iff,
  Error, if◌then◌else◌,
}
use matrix_meshtastic.MeshId.Ids.{NodeId}
use matrix_meshtastic.Bridge.Database.{MeshNodeInfo, find_node, put_node, admits_node}
use matrix_meshtastic.Bridge.Database.Rows.{
  find_node-id, find_node-put_node, set_all_lem, get_by_node_id_lem,
}
use matrix_meshtastic.Bridge.Hub.{Outside, Hub, Task, ◌>>=◌}
use matrix_meshtastic.Bridge.Keys.{
  generated, key_or_generate, get_ghost_public_key, get_ghost_private_key,
}

-- The row of a node with a pair of keys.
abbrev pub with_keys : MeshNodeInfo → Bytes → Bytes → MeshNodeInfo
with_keys row public private = record row { public_key = public; private_key = private }

-- The connector after a pair was made and stored.
abbrev pub with_pair : MeshNodeInfo → Bytes → Bytes → Hub → Hub
with_pair row public private h = record h {
  key_draws = suc h.key_draws;
  tables = record h.tables {
    nodes =
        put_node (with_keys row public private) (λ old. with_keys row public private)
          h.tables.nodes;
  };
}

when_true : {A : Type 0} (b : Bool) (x y : A) → b ≡ true → (if b then x else y) ≡ x
when_true b x y e = rw e refl

module _ (o : Outside) where
  made_if_managed :
      (key : Bytes) (missing : Error) (row : MeshNodeInfo) (h : Hub)
      → key ≡ []
      → row.is_managed ≡ true
      → key_or_generate o key missing row h ≡ generated o row h
  made_if_managed key missing row h e m =
      ap (λ (k : Bytes). key_or_generate o k missing row h) e
      ∙ ap (λ (task : Task (Result Bytes)). task h) (when_true row.is_managed _ _ m)

  -- A managed node that lacks a key, a pair for it, and a database that does as it is told.
  pub record IsReady (node : NodeId) (row : MeshNodeInfo) (public private : Bytes) (h : Hub)
      : Type 0 where
    pub quiet : h.tables.faults ≡ []
    pub stored : find_node node h.tables.nodes ≡ some row
    pub managed : row.is_managed ≡ true
    pub made : o.generate_key_pair h.key_draws ≡ ok (public, private)
    pub admitted : admits_node (with_keys row public private) h.tables.nodes ≡ true

  generated_lem :
      (node : NodeId) (row : MeshNodeInfo) (public private : Bytes) (h : Hub)
      → IsReady node row public private h
      → generated o row h ≡ (some (ok public), with_pair row public private h)
  unfolding ◌>>=◌
  generated_lem node row public private h r =
      rw (r.made, set_all_lem (with_keys row public private) h.tables r.quiet r.admitted) refl

  found_pair :
      (node : NodeId) (row : MeshNodeInfo) (public private : Bytes) (h : Hub)
      → IsReady node row public private h
      → find_node node (with_pair row public private h).tables.nodes
        ≡ some (with_keys row public private)
  found_pair node row public private h r =
      find_node-put_node (with_keys row public private) (λ old. with_keys row public private) node
        (λ old e. refl) h.tables.nodes
      ∙ rw r.stored (
          ground
            (arith, nat_beq_iff row.node_id node, find_node-id node h.tables.nodes row r.stored))

  -- Whatever the row holds, an existing key is returned, and nothing changes.
  public_of_row :
      (node : NodeId) (row : MeshNodeInfo) (b : ℕ) (key : Bytes) (h : Hub)
      → h.tables.faults ≡ []
      → find_node node h.tables.nodes ≡ some row
      → row.public_key ≡ b ∷ key
      → get_ghost_public_key o node h ≡ (some (ok (b ∷ key)), h)
  unfolding get_ghost_public_key ◌>>=◌
  public_of_row node row b key h q f e = rw (get_by_node_id_lem node h.tables q, f, e) refl

  private_of_row :
      (node : NodeId) (row : MeshNodeInfo) (b : ℕ) (key : Bytes) (h : Hub)
      → h.tables.faults ≡ []
      → find_node node h.tables.nodes ≡ some row
      → row.private_key ≡ b ∷ key
      → get_ghost_private_key o node h ≡ (some (ok (b ∷ key)), h)
  unfolding get_ghost_private_key ◌>>=◌
  private_of_row node row b key h q f e = rw (get_by_node_id_lem node h.tables q, f, e) refl

  public_generated :
      (node : NodeId) (row : MeshNodeInfo) (public private : Bytes) (h : Hub)
      → IsReady node row public private h
      → row.public_key ≡ []
      → get_ghost_public_key o node h ≡ (some (ok public), with_pair row public private h)
  unfolding get_ghost_public_key ◌>>=◌
  public_generated node row public private h r e =
      rw (get_by_node_id_lem node h.tables r.quiet, r.stored)
        (made_if_managed _ _ row h e r.managed ∙ generated_lem node row public private h r)

  private_generated :
      (node : NodeId) (row : MeshNodeInfo) (public private : Bytes) (h : Hub)
      → IsReady node row public private h
      → row.private_key ≡ []
      → get_ghost_private_key o node h ≡ (some (ok public), with_pair row public private h)
  unfolding get_ghost_private_key ◌>>=◌
  private_generated node row public private h r e =
      rw (get_by_node_id_lem node h.tables r.quiet, r.stored)
        (made_if_managed _ _ row h e r.managed ∙ generated_lem node row public private h r)

  -- When a managed node has no public key, a pair is made for it and stored: the call returns the
  -- public half, and afterwards the keys that are returned are the two halves of that pair and nothing
  -- is made again.
  pub public_key_settles :
      (node : NodeId) (row : MeshNodeInfo) (b c : ℕ) (public private : Bytes) (h : Hub)
      → IsReady node row (b ∷ public) (c ∷ private) h
      → row.public_key ≡ []
      → let after = with_pair row (b ∷ public) (c ∷ private) h in
        (get_ghost_public_key o node h ≡ (some (ok (b ∷ public)), after))
        × (get_ghost_public_key o node after ≡ (some (ok (b ∷ public)), after))
        × (get_ghost_private_key o node after ≡ (some (ok (c ∷ private)), after))
  public_key_settles node row b c public private h r e =
      let after : Hub = with_pair row (b ∷ public) (c ∷ private) h in
      let found = found_pair node row (b ∷ public) (c ∷ private) h r in
      (
        public_generated node row _ _ h r e,
        public_of_row node (with_keys row (b ∷ public) (c ∷ private)) b public after r.quiet found
            refl,
        private_of_row node (with_keys row (b ∷ public) (c ∷ private)) c private after r.quiet found
            refl,
      )

  -- When a managed node has no private key, the call that makes a pair for it returns the public half
  -- as the private key; the calls after it return the private half.
  pub private_key_is_public_at_first :
      (node : NodeId) (row : MeshNodeInfo) (c : ℕ) (public private : Bytes) (h : Hub)
      → IsReady node row public (c ∷ private) h
      → row.private_key ≡ []
      → let after = with_pair row public (c ∷ private) h in
        (get_ghost_private_key o node h ≡ (some (ok public), after))
        × (get_ghost_private_key o node after ≡ (some (ok (c ∷ private)), after))
  private_key_is_public_at_first node row c public private h r e = (
    private_generated node row _ _ h r e,
    private_of_row node (with_keys row public (c ∷ private)) c private
        (with_pair row public (c ∷ private) h) r.quiet
        (found_pair node row public (c ∷ private) h r) refl,
  )
