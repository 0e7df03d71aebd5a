-- ===== src/Bridge/Tracker.antt =====
-- The traceroutes that wait for an answer, and how often one may be sent
-- (`TracerouteTracker` of pkg/connector/traceroute.go). Times are in nanoseconds.
pub mod Laws
use matrix_meshtastic.Prelude.{
  ℕ, ◌+◌, ◌-◌, ◌*◌, ◌≡◌, ◌↔◌, ap, Bool, true, false, ◌&&◌, List, [], Option, none, some, Bytes, ltb,
  nat_beq, nat_beq_iff, nat_eq, Comparable, lookup, insert, delete, delete_if, arith, if◌then◌else◌,
}
use matrix_meshtastic.MeshId.Ids.{NodeId}
use matrix_meshtastic.MeshId.Channel.{ChannelDef}
use matrix_meshtastic.Mesh.World.{second}

abbrev pub traceroute_timeout : ℕ
traceroute_timeout = 30 * second

abbrev pub traceroute_response_timeout : ℕ
traceroute_response_timeout = 60 * second

pub record TracerouteRequest : Type 0 where
  pub packet_id : ℕ
  pub from_node : NodeId
  pub target_node : NodeId
  pub room_id : Bytes
  pub timestamp : ℕ
  pub channel : ChannelDef

-- From and to.
pub record TracerouteKey : Type 0 where
  pub from : NodeId
  pub to : NodeId

abbrev pub key_beq : TracerouteKey → TracerouteKey → Bool
key_beq j k = nat_beq j.from k.from && nat_beq j.to k.to

pub key_beq_iff : (j k : TracerouteKey) → (key_beq j k ≡ true) ↔ (j ≡ k)
key_beq_iff j k = (
  λ h. ground (arith, nat_beq_iff j.from k.from, nat_beq_iff j.to k.to),
  λ h. ground (arith, nat_beq_iff j.from k.from, nat_beq_iff j.to k.to),
)

instance abbrev pub key_eq : Comparable TracerouteKey
key_eq = record { equals = key_beq; equals_iff = key_beq_iff }

pub record TracerouteTracker : Type 0 where
  pub pending_requests : List (ℕ × TracerouteRequest)
  pub last_traceroute : List (TracerouteKey × ℕ)

abbrev pub new_traceroute_tracker : TracerouteTracker
new_traceroute_tracker = record { pending_requests = []; last_traceroute = [] }

wait_left : Option ℕ → ℕ → Bool × ℕ
wait_left none now = (true, 0)
wait_left (some last) now =
    if ltb now (last + traceroute_timeout)
    then (false, last + traceroute_timeout - now)
    else (true, 0)

-- Whether a traceroute may be sent at a time, and how long to wait if not.
unfoldable pub can_send_traceroute : NodeId → NodeId → ℕ → TracerouteTracker → Bool × ℕ
unfolding wait_left
can_send_traceroute from to now t =
    wait_left (lookup (record { from = from; to = to }) t.last_traceroute) now

pub add_request : TracerouteRequest → TracerouteTracker → TracerouteTracker
add_request req t = record {
  pending_requests = insert req.packet_id req t.pending_requests;
  last_traceroute =
      insert (record { from = req.from_node; to = req.target_node }) req.timestamp
        t.last_traceroute;
}

pub get_and_remove_request : ℕ → TracerouteTracker → Option TracerouteRequest × TracerouteTracker
get_and_remove_request packet_id t = elim (lookup packet_id t.pending_requests) [
  | none ↦ (none, t)
  | some req ↦ (some req, record t { pending_requests = delete packet_id t.pending_requests })
]

is_expired : ℕ → TracerouteRequest → Bool
is_expired now req = ltb (req.timestamp + traceroute_response_timeout) now

is_old : ℕ → ℕ → Bool
is_old now last = ltb (last + traceroute_timeout * 2) now

pub cleanup_expired : ℕ → TracerouteTracker → TracerouteTracker
unfolding is_expired is_old
cleanup_expired now t = record {
  pending_requests = delete_if (is_expired now) t.pending_requests;
  last_traceroute = delete_if (is_old now) t.last_traceroute;
}
