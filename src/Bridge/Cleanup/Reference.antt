-- ===== src/Bridge/Cleanup/Reference.antt =====
-- Which members leave, as a filter (pkg/connector/background_tasks.go).
use matrix_meshtastic.Prelude.{
  ℕ, ◌≡◌, refl, sym, ap, ◌∙◌, Bool, true, false, not, ◌&&◌, ◌||◌, List, [], ◌∷◌, ◌++◌, append-nil,
  Option, none, some, Bytes, Error, is_some, ok, err, Result, leb, ◌+◌, arith, Option-cases, inl,
  inr, if◌then◌else◌,
}
use matrix_meshtastic.MeshId.Ids.{NodeId, IdError, make_user_id, parse_user_id}
use matrix_meshtastic.Bridge.Hub.{Outside, PortalKey, Portal, BridgeCall, left_room, Hub, ◌>>=◌}
use matrix_meshtastic.Bridge.Managed.Coherence.{IsCoherent, managed_now, base_of, looked_up}
use matrix_meshtastic.Bridge.Cleanup.{known_time, latest, is_active, left}

-- Something that happened at most `limit` ago, as far as the query gives a time.
abbrev pub is_recent : ℕ → ℕ → Result (Option ℕ) → Bool
is_recent now limit (err e) = false
is_recent now limit (ok none) = false
is_recent now limit (ok (some t)) = leb now (t + limit)

pub active_lem :
    (now limit : ℕ) (message reaction : Result (Option ℕ))
    → is_active now limit (latest (known_time message) (known_time reaction))
      ≡ (is_recent now limit message || is_recent now limit reaction)
active_lem now limit (err e) (err f) = refl
active_lem now limit (err e) (ok none) = refl
active_lem now limit (err e) (ok (some t)) = refl
active_lem now limit (ok none) (err f) = refl
active_lem now limit (ok none) (ok none) = refl
active_lem now limit (ok none) (ok (some t)) = refl
active_lem now limit (ok (some m)) (err f) = ground arith
active_lem now limit (ok (some m)) (ok none) = ground arith
active_lem now limit (ok (some m)) (ok (some t)) = ground arith

module _ (o : Outside) where
  -- That a member leaves a room changes no answer that the cleanup looks at.
  pub record IsSteady : Type 0 where
    pub ghosts :
        (calls : List BridgeCall) (m r id : Bytes)
        → o.get_existing_ghost_by_id (calls ++ left_room m r ∷ []) id
          ≡ o.get_existing_ghost_by_id calls id
    pub messages :
        (calls : List BridgeCall) (m r : Bytes) (key : PortalKey) (id : Bytes)
        → o.last_message (calls ++ left_room m r ∷ []) key id ≡ o.last_message calls key id
    pub reactions :
        (calls : List BridgeCall) (m r : Bytes) (key : PortalKey) (id : Bytes)
        → o.last_reaction (calls ++ left_room m r ∷ []) key id ≡ o.last_reaction calls key id

  -- What a ghost has done in a portal, one of the two within the limit.
  abbrev pub was_active : ℕ → ℕ → Hub → PortalKey → Bytes → Bool
  was_active now limit h key ghost =
      is_recent now limit (o.last_message h.calls key ghost)
      || is_recent now limit (o.last_reaction h.calls key ghost)

  abbrev pub node_should_leave : ℕ → ℕ → Portal → Hub → Bytes → NodeId × Option IdError → Bool
  node_should_leave now limit portal h ghost (node, some e) = false
  node_should_leave now limit portal h ghost (node, none) =
      not (managed_now o h node) && not (was_active now limit h portal.key ghost)

  abbrev pub ghost_should_leave : ℕ → ℕ → Portal → Hub → Option Bytes → Bool
  ghost_should_leave now limit portal h none = false
  ghost_should_leave now limit portal h (some ghost) =
      node_should_leave now limit portal h ghost (parse_user_id ghost)

  -- A member should leave if it is the ghost of a node that is not managed and not active.
  abbrev pub should_leave : ℕ → ℕ → Portal → Hub → Bytes → Bool
  should_leave now limit portal h member =
      ghost_should_leave now limit portal h (o.parse_ghost_mxid member)

  -- Two states in which the cleanup gets the same answers.
  pub record Same (h h' : Hub) : Type 0 where
    pub base : base_of o h' ≡ base_of o h
    pub ghosts :
        (id : Bytes)
        → o.get_existing_ghost_by_id h'.calls id ≡ o.get_existing_ghost_by_id h.calls id
    pub messages :
        (key : PortalKey) (id : Bytes)
        → o.last_message h'.calls key id ≡ o.last_message h.calls key id
    pub reactions :
        (key : PortalKey) (id : Bytes)
        → o.last_reaction h'.calls key id ≡ o.last_reaction h.calls key id

  pub unchanged_answers : (h h' : Hub) → base_of o h' ≡ base_of o h → h'.calls ≡ h.calls → Same h h'
  unchanged_answers h h' b e = record {
    base = b;
    ghosts = λ id. ap (λ c. o.get_existing_ghost_by_id c id) e;
    messages = λ key id. ap (λ c. o.last_message c key id) e;
    reactions = λ key id. ap (λ c. o.last_reaction c key id) e;
  }

  pub managed_in :
      (h h' : Hub) → Same h h' → (node : NodeId) → managed_now o h' node ≡ managed_now o h node
  managed_in h h' s node = rw (s.base, s.ghosts (make_user_id node)) refl

  node_in :
      (now limit : ℕ) (portal : Portal) (h h' : Hub) (ghost : Bytes)
      (node : NodeId × Option IdError)
      → Same h h'
      → node_should_leave now limit portal h' ghost node
        ≡ node_should_leave now limit portal h ghost node
  node_in now limit portal h h' ghost (node, some e) s = refl
  node_in now limit portal h h' ghost (node, none) s =
      rw (managed_in h h' s node, s.messages portal.key ghost, s.reactions portal.key ghost) refl

  pub ghost_in :
      (now limit : ℕ) (portal : Portal) (h h' : Hub) (ghost : Option Bytes)
      → Same h h'
      → ghost_should_leave now limit portal h' ghost ≡ ghost_should_leave now limit portal h ghost
  ghost_in now limit portal h h' none s = refl
  ghost_in now limit portal h h' (some ghost) s =
      node_in now limit portal h h' ghost (parse_user_id ghost) s

  abbrev pub left_of : Bool → Bytes → Bytes → List BridgeCall
  left_of true member room = left_room member room ∷ []
  left_of false member room = []

  -- Those that the framework lets out of a room, asked one after the other.
  unfoldable pub leave_in_order : Bytes → List BridgeCall → List Bytes → List Bytes
  leave_in_order room calls [] = []
  leave_in_order room calls (member ∷ members) = elim (o.leave_room calls member room) [
    | none ↦ member ∷ leave_in_order room (calls ++ left_room member room ∷ []) members
    | some e ↦ leave_in_order room calls members
  ]

  -- The first of them: it leaves if it is asked to and the framework lets it.
  pub leave_turn :
      (asked : Bool) (room : Bytes) (calls : List BridgeCall) (member : Bytes)
      (members : List Bytes)
      → let gone = asked && not (is_some (o.leave_room calls member room)) in
        let rest = leave_in_order room (calls ++ left_of gone member room) members in
        leave_in_order room calls (if asked then member ∷ members else members)
        ≡ (if gone then member ∷ rest else rest)
  unfolding leave_in_order
  leave_turn false room calls member members =
      ap (λ (c : List BridgeCall). leave_in_order room c members) (sym (append-nil calls))
  leave_turn true room calls member members = elim (Option-cases (o.leave_room calls member room)) [
    | inl e ↦ rw e refl
    | inr (f, e) ↦
        rw e (ap (λ (c : List BridgeCall). leave_in_order room c members) (sym (append-nil calls)))
  ]

  -- What one member's turn comes to.
  pub record Stepped (h : Hub) (member room : Bytes) (b : Bool) (r : Option Bool × Hub)
      : Type 0 where
    pub result : r.0 ≡ some b
    pub coherent : IsCoherent o r.1
    pub same : Same h r.1
    pub calls : r.1.calls ≡ h.calls ++ left_of b member room

  pub stays :
      (h k : Hub) (member room : Bytes)
      → IsCoherent o (looked_up o h k)
      → base_of o (looked_up o h k) ≡ base_of o h
      → Stepped h member room false (some false, looked_up o h k)
  stays h k member room c b = record {
    result = refl;
    coherent = c;
    same = unchanged_answers h (looked_up o h k) b refl;
    calls = sym (append-nil h.calls);
  }

  pub left_lem :
      (h k : Hub) (member room : Bytes) (failure : Option Error)
      → IsSteady
      → IsCoherent o (looked_up o h k)
      → base_of o (looked_up o h k) ≡ base_of o h
      → Stepped h member room (not (is_some failure)) (left o member room failure (looked_up o h k))
  unfolding ◌>>=◌
  left_lem h k member room (some e) s c b = stays h k member room c b
  left_lem h k member room none s c b = record {
    result = refl;
    coherent = record {
      agrees = λ node v f.
          c.agrees node v f ∙ rw (s.ghosts h.calls member room (make_user_id node)) refl;
    };
    same = record {
      base = b;
      ghosts = s.ghosts h.calls member room;
      messages = s.messages h.calls member room;
      reactions = s.reactions h.calls member room;
    };
    calls = refl;
  }
