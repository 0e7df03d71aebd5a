-- ===== src/Bridge/Command/Spacing.antt =====
-- How often traceroutes are sent (pkg/connector/commands.go and pkg/connector/traceroute.go).
use matrix_meshtastic.Prelude.{
  ℕ, ◌+◌, ◌≤◌, ◌<◌, ◌≡◌, ◌≢◌, inl, inr, sym, ap, subst, true, false, List, [], ◌∷◌, Option, Bytes,
  Bool-cases, nat_beq, nat_beq_iff, ltb, not, ◌&&◌, ◌∙◌, arith,
}
use matrix_meshtastic.External.{Libraries}
use matrix_meshtastic.MeshId.Ids.{NodeId, mxid_to_node_id}
use matrix_meshtastic.Bridge.Tracker.{
  traceroute_timeout, TracerouteRequest, TracerouteTracker, can_send_traceroute, add_request,
  cleanup_expired,
}
use matrix_meshtastic.Bridge.Tracker.Laws.{can_send-cleanup, can_send-add, can_send-add_other}
use matrix_meshtastic.Bridge.Command.{Command, request_sent, Desk, fn_traceroute}
use matrix_meshtastic.Bridge.Command.Cases.{fn_traceroute_cases}

-- From one time on and before another, no traceroute may be sent.
abbrev pub IsBlocked : NodeId → NodeId → ℕ → ℕ → TracerouteTracker → Type 0
IsBlocked from to since until t =
    (now : ℕ) → since ≤ now → now < until → (can_send_traceroute from to now t).0 ≡ false

add-IsBlocked :
    (from to : NodeId) (since until : ℕ) (req : TracerouteRequest) (t : TracerouteTracker)
    → since ≤ req.timestamp
    → (can_send_traceroute req.from_node req.target_node req.timestamp t).0 ≡ true
    → IsBlocked from to since until t
    → IsBlocked from to req.timestamp until (add_request req t)
add-IsBlocked from to since until req t later allowed blocked now after early =
    elim (Bool-cases (nat_beq from req.from_node && nat_beq to req.target_node)) [
      | inl same ↦
          let e : from ≡ req.from_node = ground (arith, nat_beq_iff from req.from_node) in
          let f : to ≡ req.target_node = ground (arith, nat_beq_iff to req.target_node) in
          let held : req.timestamp < until
              → (can_send_traceroute req.from_node req.target_node req.timestamp t).0 ≡ false =
            λ soon.
              subst (λ n. (can_send_traceroute n req.target_node req.timestamp t).0 ≡ false) e
                (subst (λ n. (can_send_traceroute from n req.timestamp t).0 ≡ false) f
                  (blocked req.timestamp later soon)) in
          rw (e, f, can_send-add req now t) (ground (arith, held, allowed))
      | inr other ↦
          ap (λ p. p.0)
            (can_send-add_other from to req now t (λ e f.
              ground (arith, nat_beq_iff from req.from_node, nat_beq_iff to req.target_node)))
          ∙ blocked now (omega (arith, later, after)) early
    ]

-- What happens at the bridge, with its time: a command, or a clean-up of the tracker.
pub data Happening : Type 0 where
  commands : ℕ → Command → Happening
  cleans : ℕ → Happening

abbrev pub time_of : Happening → ℕ
time_of (commands at c) = at
time_of (cleans at) = at

abbrev pub at_time : ℕ → Desk → Desk
at_time now d = record d { world = record d.world { now = now } }

-- The times never go back.
abbrev pub IsInOrder : ℕ → List Happening → ℕ → Type 0
IsInOrder since [] now = since ≤ now
IsInOrder since (e ∷ es) now = (since ≤ time_of e) × IsInOrder (time_of e) es now

module _ (lib : Libraries) (parse_ghost : Bytes → Option Bytes) where
  abbrev pub happen : Happening → Desk → Desk
  happen (commands at c) d = (fn_traceroute lib parse_ghost c (at_time at d)).1
  happen (cleans at) d = record d { tracker = cleanup_expired at d.tracker }

  pub happen_all : List Happening → Desk → Desk
  happen_all [] d = d
  happen_all (e ∷ es) d = happen_all es (happen e d)

  command-IsBlocked :
      (from to : NodeId) (since until at : ℕ) (c : Command) (d : Desk)
      → since ≤ at
      → IsBlocked from to since until d.tracker
      → IsBlocked from to at until (fn_traceroute lib parse_ghost c (at_time at d)).1.tracker
  unfolding fn_traceroute
  command-IsBlocked from to since until at c d later blocked =
      elim (fn_traceroute_cases lib parse_ghost c c.args (at_time at d)) [
        | inl untracked ↦
            subst (IsBlocked from to at until) (sym untracked.0)
              (λ now after early. blocked now (omega (arith, later, after)) early)
        | inr t ↦ subst (IsBlocked from to at until) (sym t.added) (
            subst (λ time. IsBlocked from to time until (add_request t.request d.tracker)) t.at_once
              (add-IsBlocked from to since until t.request d.tracker
                (subst (λ time. since ≤ time) (sym t.at_once) later)
                (subst
                  (λ time.
                    (can_send_traceroute t.request.from_node t.request.target_node time d.tracker).0
                    ≡ true)
                  (sym t.at_once) t.allowed)
                blocked))
      ]

  happen-IsBlocked :
      (from to : NodeId) (since until : ℕ) (e : Happening) (d : Desk)
      → since ≤ time_of e
      → IsBlocked from to since until d.tracker
      → IsBlocked from to (time_of e) until (happen e d).tracker
  unfolding fn_traceroute
  happen-IsBlocked from to since until (cleans at) d later blocked = λ now after early.
      ap (λ p. p.0) (can_send-cleanup from to at now d.tracker after)
      ∙ blocked now (omega (arith, later, after)) early
  happen-IsBlocked from to since until (commands at c) d later blocked =
      command-IsBlocked from to since until at c d later blocked

  happen_all-IsBlocked :
      (from to : NodeId) (since until now : ℕ) (es : List Happening) (d : Desk)
      → IsInOrder since es now
      → IsBlocked from to since until d.tracker
      → IsBlocked from to now until (happen_all es d).tracker
  unfolding happen_all
  happen_all-IsBlocked from to since until now [] d order blocked at after early =
      blocked at (omega (arith, order, after)) early
  happen_all-IsBlocked from to since until now (e ∷ es) d order blocked at after early =
      happen_all-IsBlocked from to (time_of e) until now es (happen e d) order.1
        (happen-IsBlocked from to since until e d order.0 blocked) at after early

  sent_blocks :
      (c : Command) (d : Desk) (target : NodeId)
      → (fn_traceroute lib parse_ghost c d).0 ≡ request_sent target
      → IsBlocked
          (mxid_to_node_id c.user_mxid)
          target
          d.world.now
          (d.world.now + traceroute_timeout)
          (fn_traceroute lib parse_ghost c d).1.tracker
  unfolding fn_traceroute
  sent_blocks c d target sent now after early =
      elim (fn_traceroute_cases lib parse_ghost c c.args d) [
        | inl untracked ↦ absurd (untracked.1 target sent)
        | inr t ↦
            let e : target ≡ t.request.target_node = cc (sent, t.says) in
            let limit = can_send-add t.request now d.tracker in
            let b : (can_send_traceroute (mxid_to_node_id c.user_mxid) target now
                  (fn_traceroute lib parse_ghost c d).1.tracker).0
                ≡ not (ltb now (t.request.timestamp + traceroute_timeout)) =
              cc (limit, e, t.by_user, t.added) in
            ground (arith, b, t.at_once)
      ]

  -- A user who was told that a traceroute to a node is sent is not told so again for that node within
  -- 30 seconds, whatever commands and clean-ups come in between in the order of their times.
  pub traceroutes_are_spaced :
      (c again : Command) (d : Desk) (target : NodeId) (es : List Happening) (now : ℕ)
      → again.user_mxid ≡ c.user_mxid
      → (fn_traceroute lib parse_ghost c d).0 ≡ request_sent target
      → IsInOrder d.world.now es now
      → now < d.world.now + traceroute_timeout
      → let later = at_time now (happen_all es (fn_traceroute lib parse_ghost c d).1) in
        (fn_traceroute lib parse_ghost again later).0 ≢ request_sent target
  unfolding fn_traceroute
  traceroutes_are_spaced c again d target es now same sent order early twice =
      let later = at_time now (happen_all es (fn_traceroute lib parse_ghost c d).1) in
      elim (fn_traceroute_cases lib parse_ghost again again.args later) [
        | inl untracked ↦ untracked.1 target twice
        | inr t ↦
            let e : target ≡ t.request.target_node = cc (twice, t.says) in
            let blocked =
              happen_all-IsBlocked (mxid_to_node_id c.user_mxid) target d.world.now
                (d.world.now + traceroute_timeout) now es (fn_traceroute lib parse_ghost c d).1
                order (sent_blocks c d target sent) now (omega arith) early in
            absurd (cc (blocked, t.allowed, e, t.by_user, ap mxid_to_node_id same))
      ]
