-- ===== src/Bridge/Tracker/Laws.antt =====
-- What the tracker keeps (pkg/connector/traceroute.go).
use matrix_meshtastic.Prelude.{
  ℕ, ◌+◌, ◌≤◌, ◌≡◌, ◌≢◌, refl, sym, ap, subst, not, List, [], ◌∷◌, Option, none, some, Option-cases,
  Bool-cases, inl, inr, All, ltb, nat_beq_iff, nat_eq, lookup, delete, lookup-insert, lookup-delete,
  lookup-delete_if, arith,
}
use matrix_meshtastic.MeshId.Ids.{NodeId}
use matrix_meshtastic.Bridge.Tracker.{
  traceroute_timeout, traceroute_response_timeout, TracerouteRequest, TracerouteKey, key_eq,
  key_beq, key_beq_iff, TracerouteTracker, wait_left, can_send_traceroute, add_request,
  get_and_remove_request, is_expired, is_old, cleanup_expired,
}

-- Dropping old times never lets a traceroute be sent earlier, nor changes how long to wait, from the
-- time of the clean-up on.
pub can_send-cleanup :
    (from to : NodeId) (now later : ℕ) (t : TracerouteTracker)
    → now ≤ later
    → can_send_traceroute from to later (cleanup_expired now t)
      ≡ can_send_traceroute from to later t
unfolding can_send_traceroute cleanup_expired
can_send-cleanup from to now later t after =
    let key : TracerouteKey = record { from = from; to = to } in
    rw (lookup-delete_if (is_old now) key t.last_traceroute)
      (elim (Option-cases (lookup key t.last_traceroute)) [
        | inl missing ↦ rw missing
        | inr (last, found) ↦ rw found (unfold wait_left is_old in ground arith)
      ])

-- After a request is added, none for the same pair may be sent until 30 seconds after it, and then
-- one may.
pub can_send-add :
    (req : TracerouteRequest) (now : ℕ) (t : TracerouteTracker)
    → (can_send_traceroute req.from_node req.target_node now (add_request req t)).0
      ≡ not (ltb now (req.timestamp + traceroute_timeout))
unfolding can_send_traceroute add_request
can_send-add req now t =
    let key : TracerouteKey = record { from = req.from_node; to = req.target_node } in
    rw (lookup-insert key key req.timestamp t.last_traceroute, (key_beq_iff key key).1 refl)
      (unfold wait_left in ground arith)

-- A request for one pair changes nothing for another.
pub can_send-add_other :
    (from to : NodeId) (req : TracerouteRequest) (now : ℕ) (t : TracerouteTracker)
    → ((from ≡ req.from_node) → (to ≡ req.target_node) → ⊥)
    → can_send_traceroute from to now (add_request req t) ≡ can_send_traceroute from to now t
unfolding can_send_traceroute add_request
can_send-add_other from to req now t other =
    let key : TracerouteKey = record { from = req.from_node; to = req.target_node } in
    let asked : TracerouteKey = record { from = from; to = to } in
    elim (Bool-cases (key_beq key asked)) [
      | inl same ↦
          let e : key ≡ asked = (key_beq_iff key asked).0 same in
          absurd (other (sym (ap (λ k. k.from) e)) (sym (ap (λ k. k.to) e)))
      | inr differs ↦ rw (lookup-insert key asked req.timestamp t.last_traceroute, differs)
    ]

-- What happens to a tracker between a request and its answer.
pub data Use : Type 0 where
  adds : TracerouteRequest → Use
  takes : ℕ → Use
  cleans : ℕ → Use

pub use_once : Use → TracerouteTracker → TracerouteTracker
use_once (adds req) t = add_request req t
use_once (takes packet_id) t = (get_and_remove_request packet_id t).1
use_once (cleans now) t = cleanup_expired now t

pub use_all : List Use → TracerouteTracker → TracerouteTracker
unfolding use_once
use_all [] t = t
use_all (u ∷ us) t = use_all us (use_once u t)

-- It is for other packets, and a clean-up comes before the request has expired.
abbrev pub Spares : TracerouteRequest → Use → Type 0
Spares req (adds other) = other.packet_id ≢ req.packet_id
Spares req (takes packet_id) = packet_id ≢ req.packet_id
Spares req (cleans now) = now ≤ req.timestamp + traceroute_response_timeout

get_present :
    (packet_id : ℕ) (req : TracerouteRequest) (t : TracerouteTracker)
    → lookup packet_id t.pending_requests ≡ some req
    → get_and_remove_request packet_id t
      ≡ (some req, record t { pending_requests = delete packet_id t.pending_requests })
unfolding get_and_remove_request
get_present packet_id req t held = rw (get_and_remove_request, held)

get_missing :
    (packet_id : ℕ) (t : TracerouteTracker)
    → lookup packet_id t.pending_requests ≡ none
    → get_and_remove_request packet_id t ≡ (none, t)
unfolding get_and_remove_request
get_missing packet_id t missing = rw (get_and_remove_request, missing)

use_once-lookup :
    (req : TracerouteRequest) (u : Use) (t : TracerouteTracker)
    → Spares req u
    → lookup req.packet_id t.pending_requests ≡ some req
    → lookup req.packet_id (use_once u t).pending_requests ≡ some req
unfolding use_once add_request cleanup_expired
use_once-lookup req (adds other) t spared held =
    rw (lookup-insert other.packet_id req.packet_id other t.pending_requests)
      (ground (arith, nat_beq_iff other.packet_id req.packet_id))
use_once-lookup req (takes packet_id) t spared held =
    let goal = λ (r : Option TracerouteRequest × TracerouteTracker).
      lookup req.packet_id r.1.pending_requests ≡ some req in
    elim (Option-cases (lookup packet_id t.pending_requests)) [
      | inl missing ↦ subst goal (sym (get_missing packet_id t missing)) held
      | inr (other, found) ↦ subst goal (sym (get_present packet_id other t found)) (
          rw (lookup-delete packet_id req.packet_id t.pending_requests)
            (ground (arith, nat_beq_iff packet_id req.packet_id)))
    ]
use_once-lookup req (cleans now) t spared held =
    rw (lookup-delete_if (is_expired now) req.packet_id t.pending_requests, held)
      (unfold is_expired in ground arith)

added :
    (req : TracerouteRequest) (t : TracerouteTracker)
    → lookup req.packet_id (add_request req t).pending_requests ≡ some req
unfolding add_request
added req t = rw (
  lookup-insert req.packet_id req.packet_id req t.pending_requests,
  (nat_beq_iff req.packet_id req.packet_id).1 refl,
)

use_all-lookup :
    (req : TracerouteRequest) (us : List Use) (t : TracerouteTracker)
    → All (Spares req) us
    → lookup req.packet_id t.pending_requests ≡ some req
    → lookup req.packet_id (use_all us t).pending_requests ≡ some req
unfolding use_all
use_all-lookup req [] t spared held = held
use_all-lookup req (u ∷ us) t spared held =
    use_all-lookup req us (use_once u t) spared.1 (use_once-lookup req u t spared.0 held)

-- The answer to a request finds it, whatever requests for other packets came in between and were
-- answered, if every clean-up in between came within 60 seconds of the request; and then a second
-- answer to the same packet finds none.
pub answer_finds_request :
    (req : TracerouteRequest) (us : List Use) (t : TracerouteTracker)
    → All (Spares req) us
    → let r = get_and_remove_request req.packet_id (use_all us (add_request req t)) in
      (r.0 ≡ some req) × ((get_and_remove_request req.packet_id r.1).0 ≡ none)
answer_finds_request req us t spared =
    let held = use_all-lookup req us (add_request req t) spared (added req t) in
    let later = use_all us (add_request req t) in
    let gone : lookup req.packet_id (delete req.packet_id later.pending_requests) ≡ none = rw (
      lookup-delete req.packet_id req.packet_id later.pending_requests,
      (nat_beq_iff req.packet_id req.packet_id).1 refl,
    ) in
    rw (get_present req.packet_id req later held)
      (refl, ap (λ r. r.0) (get_missing req.packet_id _ gone))
