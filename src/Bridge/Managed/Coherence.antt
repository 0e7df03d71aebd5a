-- ===== src/Bridge/Managed/Coherence.antt =====
-- The cache of `IsManagedNode` (pkg/connector/connector.go) against what the framework says.
use matrix_meshtastic.Prelude.{
  ◌≡◌, refl, sym, ap, ◌∙◌, subst, arith, inl, inr, Bool, true, false, List, [], ◌∷◌, Bytes, Option,
  none, some, Result, ok, err, Option-cases, Bool-cases, nat_beq, nat_beq_iff, nat_eq, lookup,
  insert, lookup-insert, if◌then◌else◌,
}
use matrix_meshtastic.MeshId.Ids.{NodeId, mxid_to_node_id, make_user_id}
use matrix_meshtastic.Bridge.Hub.{Outside, Ghost, Hub, ◌>>=◌}
use matrix_meshtastic.Bridge.Managed.{
  has_user, get_base_node_id, is_managed_node, not_cached, by_ghost, remember,
}

-- A Matrix user with a nonempty ID.
abbrev pub names_user : Option Bytes → Bool
names_user none = false
names_user (some []) = false
names_user (some (b ∷ mxid)) = true

-- What the framework's answer teaches: nothing when it fails, no for a ghost that it does not know.
abbrev pub learnt : Result (Option Ghost) → Option Bool
learnt (err e) = none
learnt (ok none) = some false
learnt (ok (some ghost)) = some (names_user ghost.user_mxid)

abbrev pub or_no : Option Bool → Bool
or_no none = false
or_no (some v) = v

has_user_lem : (user : Option Bytes) → has_user user ≡ names_user user
has_user_lem none = refl
has_user_lem (some []) = refl
has_user_lem (some (b ∷ mxid)) = refl

-- What is new: nothing about a node that is in the cache.
abbrev pub news : Option Bool → Option Bool → Option Bool
news (some v) found = none
news none found = found

abbrev pub noted : NodeId → Option Bool → List (NodeId × Bool) → List (NodeId × Bool)
noted node none cache = cache
noted node (some v) cache = insert node v cache

module _ (o : Outside) where
  abbrev pub base_of : Hub → NodeId
  base_of h = if nat_beq h.base_node_id 0 then mxid_to_node_id o.bot_mxid else h.base_node_id

  abbrev pub learnt_now : Hub → NodeId → Option Bool
  learnt_now h node =
      if nat_beq node (base_of h)
      then some true
      else learnt (o.get_existing_ghost_by_id h.calls (make_user_id node))

  -- The bridge's own node, and the node of a ghost with a Matrix user.
  abbrev pub managed_now : Hub → NodeId → Bool
  managed_now h node = or_no (learnt_now h node)

  abbrev pub news_now : Hub → NodeId → Option Bool
  news_now h node = news (lookup node h.managed_node_cache) (learnt_now h node)

  pub record IsCoherent (h : Hub) : Type 0 where
    pub agrees :
        (node : NodeId) (v : Bool)
        → lookup node h.managed_node_cache ≡ some v
        → v ≡ managed_now h node

  -- What changes when a node is looked up: the cache, and the ID of the bridge's node.
  abbrev pub looked_up : Hub → Hub → Hub
  looked_up h h' = record h {
    base_node_id = h'.base_node_id;
    managed_node_cache = h'.managed_node_cache;
  }

  pub record Answered (h : Hub) (node : NodeId) (r : Option Bool × Hub) : Type 0 where
    pub answers : r.0 ≡ some (managed_now h node)
    pub remembers : r.1.managed_node_cache ≡ noted node (news_now h node) h.managed_node_cache
    pub coherent : IsCoherent r.1
    pub frame : r.1 ≡ looked_up h r.1
    pub same_base : base_of r.1 ≡ base_of h

  insert-IsCoherent :
      (h : Hub) (node : NodeId) (b : NodeId)
      → IsCoherent h
      → base_of (record h { base_node_id = b }) ≡ base_of h
      → IsCoherent (record h {
        base_node_id = b;
        managed_node_cache = insert node (managed_now h node) h.managed_node_cache;
      })
  insert-IsCoherent h node b c same = record {
    agrees = λ other v. ground (
      arith,
      lookup-insert node other (managed_now h node) h.managed_node_cache,
      nat_beq_iff node other,
      c.agrees other v,
    );
  }

  pub got_base :
      (h : Hub) → get_base_node_id o h ≡ (some (base_of h), record h { base_node_id = base_of h })
  unfolding get_base_node_id
  got_base h = ground arith

  base_of-base : (h : Hub) → base_of (record h { base_node_id = base_of h }) ≡ base_of h
  base_of-base h = ground arith

  remembered :
      (h : Hub) (node : NodeId) (v : Bool)
      → IsCoherent h
      → v ≡ managed_now h node
      → news_now h node ≡ some v
      → Answered h node (remember node v (record h { base_node_id = base_of h }))
  remembered h node v c e n = record {
    answers = ap some e;
    remembers = rw n refl;
    coherent =
        subst (λ (b : Bool). IsCoherent (remember node b (record h { base_node_id = base_of h })).1)
          (sym e) (insert-IsCoherent h node (base_of h) c (base_of-base h));
    frame = refl;
    same_base = base_of-base h;
  }

  unknown :
      (h : Hub) (node : NodeId)
      → IsCoherent h
      → managed_now h node ≡ false
      → news_now h node ≡ none
      → Answered h node (some false, record h { base_node_id = base_of h })
  unknown h node c e n = record {
    answers = ap some (sym e);
    remembers = rw n refl;
    coherent = record { agrees = λ other v. ground (arith, c.agrees other v) };
    frame = refl;
    same_base = base_of-base h;
  }

  by_ghost_lem :
      (h : Hub) (node : NodeId) (found : Result (Option Ghost))
      → IsCoherent h
      → or_no (learnt found) ≡ managed_now h node
      → news_now h node ≡ learnt found
      → Answered h node (by_ghost o node found (record h { base_node_id = base_of h }))
  by_ghost_lem h node (err e) c same n = unknown h node c (sym same) n
  by_ghost_lem h node (ok none) c same n = remembered h node false c same n
  by_ghost_lem h node (ok (some ghost)) c same n =
      let u = has_user_lem ghost.user_mxid in
      remembered h node (has_user ghost.user_mxid) c (u ∙ same) (n ∙ ap some (sym u))

  not_cached_lem :
      (h : Hub) (node : NodeId)
      → IsCoherent h
      → lookup node h.managed_node_cache ≡ none
      → Answered h node (not_cached o node (base_of h) (record h { base_node_id = base_of h }))
  unfolding ◌>>=◌
  not_cached_lem h node c missing = elim (Bool-cases (nat_beq node (base_of h))) [
    | inl e ↦ rw e (remembered h node true c (rw e refl) (rw (missing, e) refl))
    | inr e ↦ rw e (by_ghost_lem h node _ c (rw e refl) (rw (missing, e) refl))
  ]

  -- As long as the cache agrees with what the framework says now, the answer of IsManagedNode, cached
  -- or not, is yes for the bridge's own node and for a node whose ghost has a Matrix user with a
  -- nonempty ID, and no for every other, also when the framework fails. The answer is remembered, unless
  -- the framework failed. The cache still agrees then, and nothing but the cache and the ID of the
  -- bridge's own node has changed.
  pub is_managed_node-Answered :
      (h : Hub) (node : NodeId) → IsCoherent h → Answered h node (is_managed_node o node h)
  unfolding is_managed_node ◌>>=◌
  is_managed_node-Answered h node c = elim (Option-cases (lookup node h.managed_node_cache)) [
    | inl e ↦ rw (e, got_base h) (not_cached_lem h node c e)
    | inr (v, e) ↦ rw e (record {
      answers = ap some (c.agrees node v e);
      remembers = rw e refl;
      coherent = c;
      frame = refl;
      same_base = refl;
    })
  ]
