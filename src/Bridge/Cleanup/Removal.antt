-- ===== src/Bridge/Cleanup/Removal.antt =====
-- The cleanup of a portal removes what the reference says (pkg/connector/background_tasks.go).
use matrix_meshtastic.Prelude.{
  ℕ, ◌≡◌, refl, sym, ap, ◌∙◌, subst, Bool, true, false, not, ◌&&◌, List, [], ◌∷◌, ◌++◌, append-nil,
  append_assoc, map, Option, none, some, Bytes, length, filter_by, is_some, ok, bytes_beq,
  if◌then◌else◌,
}
use matrix_meshtastic.MeshId.Ids.{NodeId, IdError, parse_user_id}
use matrix_meshtastic.Bridge.Hub.{
  Outside, Portal, BridgeCall, left_room, Hub, continue, ◌>>=◌, return,
}
use matrix_meshtastic.Bridge.Managed.{is_managed_node}
use matrix_meshtastic.Bridge.Managed.Coherence.{
  IsCoherent, managed_now, base_of, looked_up, is_managed_node-Answered,
}
use matrix_meshtastic.Bridge.Cleanup.{
  known_time, latest, is_active, get_last_activity_in_portal, leave_unless_active, leave_if_idle,
  node_leaves, member_leaves, counted, cleanup_members, cleanup_portal_inactive_members,
}
use matrix_meshtastic.Bridge.Cleanup.Reference.{
  IsSteady, was_active, active_lem, leave_in_order, leave_turn, node_should_leave,
  ghost_should_leave, should_leave, Same, Stepped, stays, left_lem, left_of, ghost_in,
}

module _ (o : Outside) (now limit : ℕ) (portal : Portal) where
  unless_active_lem :
      (h k : Hub) (member : Bytes) (active : Bool)
      → IsSteady o
      → IsCoherent o (looked_up o h k)
      → base_of o (looked_up o h k) ≡ base_of o h
      → Stepped o h member portal.mxid
          (not active && not (is_some (o.leave_room h.calls member portal.mxid)))
          (leave_unless_active o member portal.mxid active (looked_up o h k))
  unfolding ◌>>=◌
  unless_active_lem h k member true s c b = stays o h k member portal.mxid c b
  unless_active_lem h k member false s c b = left_lem o h k member portal.mxid _ s c b

  idle_lem :
      (h k : Hub) (member ghost : Bytes) (managed : Bool)
      → IsSteady o
      → IsCoherent o (looked_up o h k)
      → base_of o (looked_up o h k) ≡ base_of o h
      → Stepped o h member portal.mxid
          ((not managed && not (was_active o now limit h portal.key ghost))
            && not (is_some (o.leave_room h.calls member portal.mxid)))
          (leave_if_idle o now limit member portal ghost managed (looked_up o h k))
  unfolding ◌>>=◌ get_last_activity_in_portal
  idle_lem h k member ghost true s c b = stays o h k member portal.mxid c b
  idle_lem h k member ghost false s c b =
      let m = o.last_message h.calls portal.key ghost in
      let r = o.last_reaction h.calls portal.key ghost in
      let active = is_active now limit (latest (known_time m) (known_time r)) in
      subst
        (λ v.
          Stepped o h member portal.mxid
            (not v && not (is_some (o.leave_room h.calls member portal.mxid)))
            (leave_unless_active o member portal.mxid active (looked_up o h k)))
        (active_lem now limit m r) (unless_active_lem h k member active s c b)

  node_lem :
      (h : Hub) (member ghost : Bytes) (node : NodeId × Option IdError)
      → IsSteady o
      → IsCoherent o h
      → Stepped o h member portal.mxid
          (node_should_leave o now limit portal h ghost node
            && not (is_some (o.leave_room h.calls member portal.mxid)))
          (node_leaves o now limit member portal ghost node h)
  unfolding ◌>>=◌
  node_lem h member ghost (node, some e) s c = stays o h h member portal.mxid c refl
  node_lem h member ghost (node, none) s c =
      let a = is_managed_node-Answered o h node c in
      let m = managed_now o h node in
      let b =
        (not m && not (was_active o now limit h portal.key ghost))
        && not (is_some (o.leave_room h.calls member portal.mxid)) in
      let g = (is_managed_node o node h).1 in
      let f = leave_if_idle o now limit member portal ghost in
      subst (λ (p : Option Bool). Stepped o h member portal.mxid b (continue p f g)) (sym a.answers)
        (subst (λ (x : Hub). Stepped o h member portal.mxid b (f m x)) (sym a.frame)
          (idle_lem h g member ghost m s (subst (IsCoherent o) a.frame a.coherent)
            (ap (base_of o) (sym a.frame) ∙ a.same_base)))

  member_lem :
      (h : Hub) (member : Bytes) (ghost : Option Bytes)
      → IsSteady o
      → IsCoherent o h
      → Stepped o h member portal.mxid
          (ghost_should_leave o now limit portal h ghost
            && not (is_some (o.leave_room h.calls member portal.mxid)))
          (member_leaves o now limit portal member ghost h)
  member_lem h member none s c = stays o h h member portal.mxid c refl
  member_lem h member (some ghost) s c = node_lem h member ghost (parse_user_id ghost) s c

  abbrev left_all : List Bytes → List BridgeCall
  left_all = map (λ member. left_room member portal.mxid)

  filter_in :
      (h h' : Hub) (members : List Bytes)
      → Same o h h'
      → filter_by (should_leave o now limit portal h') members
        ≡ filter_by (should_leave o now limit portal h) members
  filter_in h h' [] s = refl
  filter_in h h' (member ∷ members) s =
      rw (ghost_in o now limit portal h h' (o.parse_ghost_mxid member) s, filter_in h h' members s)
        refl

  -- Those that leave, in a state.
  abbrev leavers_of : Hub → List Bytes → List Bytes
  leavers_of h members =
      leave_in_order o portal.mxid h.calls (filter_by (should_leave o now limit portal h) members)

  abbrev turn_of : Hub → Bytes → Bool
  turn_of h member =
      should_leave o now limit portal h member
      && not (is_some (o.leave_room h.calls member portal.mxid))

  -- What the turns of some members come to.
  record Cleaned (h : Hub) (members : List Bytes) (r : Option ℕ × Hub) : Type 0 where
    gone : r.0 ≡ some (length (leavers_of h members))
    coherent : IsCoherent o r.1
    calls : r.1.calls ≡ h.calls ++ left_all (leavers_of h members)

  counted-length :
      (b : Bool) (member : Bytes) (xs : List Bytes)
      → counted o b (length xs) ≡ length (if b then member ∷ xs else xs)
  counted-length true member xs = refl
  counted-length false member xs = refl

  calls_of :
      (b : Bool) (member : Bytes) (xs : List Bytes) (calls : List BridgeCall)
      → (calls ++ left_of o b member portal.mxid) ++ left_all xs
        ≡ calls ++ left_all (if b then member ∷ xs else xs)
  calls_of true member xs calls = append_assoc calls _ _
  calls_of false member xs calls = ap (λ (c : List BridgeCall). c ++ left_all xs) (append-nil calls)

  -- Those that leave after the turn of the first member, seen from before it.
  leavers_after :
      (h : Hub) (member : Bytes) (members : List Bytes) (r : Option Bool × Hub)
      → Stepped o h member portal.mxid (turn_of h member) r
      → leavers_of r.1 members
        ≡ leave_in_order o portal.mxid
            (h.calls ++ left_of o (turn_of h member) member portal.mxid)
            (filter_by (should_leave o now limit portal h) members)
  leavers_after h member members r s = rw (filter_in h r.1 members s.same, s.calls) refl

  counted_lem :
      (h : Hub) (member : Bytes) (members : List Bytes) (r : Option Bool × Hub)
      → Stepped o h member portal.mxid (turn_of h member) r
      → Cleaned r.1 members (cleanup_members o now limit portal members r.1)
      → Cleaned h (member ∷ members) (
          (continue r.0 (λ gone.
              cleanup_members o now limit portal members >>= λ n. return (counted o gone n)))
            r.1)
  unfolding ◌>>=◌
  counted_lem h member members r s k =
      let b = turn_of h member in
      let q = cleanup_members o now limit portal members r.1 in
      let xs = filter_by (should_leave o now limit portal h) members in
      let rest = leave_in_order o portal.mxid (h.calls ++ left_of o b member portal.mxid) xs in
      let after = leavers_after h member members r s in
      let whole : leavers_of h (member ∷ members) ≡ (if b then member ∷ rest else rest) =
        leave_turn o (should_leave o now limit portal h member) portal.mxid h.calls member xs in
      subst
        (λ (p : Option Bool). Cleaned h (member ∷ members) (
          continue p
            (λ gone. cleanup_members o now limit portal members >>= λ n. return (counted o gone n))
            r.1))
        (sym s.result)
        (subst
          (λ (p : Option ℕ).
            Cleaned h (member ∷ members) (continue p (λ n. return (counted o b n)) q.1))
          (sym k.gone)
          (record {
            gone =
                ap (λ (ys : List Bytes). some (counted o b (length ys))) after
                ∙ ap some (counted-length b member rest)
                ∙ ap (λ (ys : List Bytes). some (length ys)) (sym whole);
            coherent = k.coherent;
            calls =
                k.calls
                ∙ ap (λ (ys : List Bytes). r.1.calls ++ left_all ys) after
                ∙ ap (λ (c : List BridgeCall). c ++ left_all rest) s.calls
                ∙ calls_of b member rest h.calls
                ∙ ap (λ (ys : List Bytes). h.calls ++ left_all ys) (sym whole);
          }))

  cleaned :
      (members : List Bytes) (h : Hub)
      → IsSteady o
      → IsCoherent o h
      → Cleaned h members (cleanup_members o now limit portal members h)
  unfolding cleanup_members ◌>>=◌ leave_in_order
  cleaned [] h s c = record { gone = refl; coherent = c; calls = sym (append-nil h.calls) }
  cleaned (member ∷ members) h s c =
      let first = member_lem h member (o.parse_ghost_mxid member) s c in
      counted_lem h member members _ first (cleaned members _ s first.coherent)

  -- The cleanup of a portal with a room asks the framework to remove the ghosts of nodes that are not
  -- managed (neither the bridge's own node nor one whose ghost has a Matrix user) and whose last message
  -- and last reaction in the portal are both unknown or older than the limit, one after the other in the
  -- order in which the framework lists the members, and no other member; those that the framework lets
  -- out leave the room, and they are counted. The state looked at is the one before; it is assumed that
  -- the framework lists the members, that the cache of managed nodes agrees with it, and that a member
  -- that leaves changes neither the ghosts nor the times of messages and reactions.
  pub cleanup_portal_removes :
      (h : Hub) (members : List Bytes)
      → IsSteady o
      → IsCoherent o h
      → bytes_beq portal.mxid [] ≡ false
      → o.joined_members h.calls portal.mxid ≡ ok members
      → let inactive = filter_by (should_leave o now limit portal h) members in
        let leavers = leave_in_order o portal.mxid h.calls inactive in
        let r = cleanup_portal_inactive_members o now limit portal h in
        (r.0 ≡ some (ok (length leavers)))
        × (r.1.calls ≡ h.calls ++ map (λ member. left_room member portal.mxid) leavers)
  unfolding cleanup_portal_inactive_members ◌>>=◌ leave_in_order
  cleanup_portal_removes h members s c n j =
      let k = cleaned members h s c in rw (n, j) (rw k.gone (refl, k.calls))
