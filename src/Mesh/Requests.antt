-- ===== src/Mesh/Requests.antt =====
-- Requests for telemetry and for neighbours, and how often they are answered
-- (pkg/mesh/data_requests.go).
pub mod Frame
pub mod Laws
use matrix_meshtastic.Prelude.{
  ℕ, ◌+◌, Bool, true, false, not, ◌&&◌, Error, List, [], ◌∷◌, Option, none, some, Bytes, codes,
  lookup, insert, ltb, nat_beq, bytes_beq, nat_eq, if◌then◌else◌,
}
use matrix_meshtastic.Prelude.Int.{int_beq, pos}
use matrix_meshtastic.External.{
  Telemetry, device_metrics, host_metrics, other_metrics, no_metrics, Neighbor, NeighborInfo,
  Libraries, TelemetryVariant,
}
use matrix_meshtastic.MeshId.Ids.{NodeId}
use matrix_meshtastic.MeshId.Channel.{new_channel_def, ChannelDef}
use matrix_meshtastic.Mesh.Events.{NetworkMeshPacket}
use matrix_meshtastic.Mesh.World.{
  RequestThrottle, MeshtasticClient, Action, ◌>>=◌, ◌>>◌, return, skip, the_client, read_clock,
  put_client,
}
use matrix_meshtastic.Mesh.Send.{EncryptionType, psk_encryption, pki_encryption}
use matrix_meshtastic.Mesh.Outgoing.{send_telemetry_response, send_host_metrics_response}
use matrix_meshtastic.Mesh.Reports.{send_neighbor_info_response}
use matrix_meshtastic.Mesh.Traceroute.{or_nil}

abbrev pub new_request_throttle : ℕ → RequestThrottle
new_request_throttle period = record {
  last_telemetry = [];
  last_neighbor = [];
  throttle_period = period;
}

-- `time.Since(last) < period` at the time `now`.
abbrev pub is_recent : Option ℕ → ℕ → ℕ → Bool
is_recent none period now = false
is_recent (some last) period now = ltb now (last + period)

pub can_respond_telemetry : NodeId → ℕ → RequestThrottle → Bool × RequestThrottle
can_respond_telemetry node now t =
    if is_recent (lookup node t.last_telemetry) t.throttle_period now
    then (false, t)
    else (true, record t { last_telemetry = insert node now t.last_telemetry })

pub can_respond_neighbor : NodeId → ℕ → RequestThrottle → Bool × RequestThrottle
can_respond_neighbor node now t =
    if is_recent (lookup node t.last_neighbor) t.throttle_period now
    then (false, t)
    else (true, record t { last_neighbor = insert node now t.last_neighbor })

-- One of the two, on the client's throttle at the time of the call.
ask_throttle : (NodeId → ℕ → RequestThrottle → Bool × RequestThrottle) → NodeId → Action Bool
ask_throttle can_respond node = do
  c ← the_client
  now ← read_clock
  let answer = can_respond node now c.request_throttle
  put_client (record c { request_throttle = answer.1 })
  return answer.0

encryption_of : Bytes → EncryptionType
encryption_of channel_name =
    if bytes_beq channel_name (codes "PKI") then pki_encryption else psk_encryption

-- A single neighbour without an ID and a signal strength.
pub is_dummy : List Neighbor → Bool
is_dummy [] = false
is_dummy (n ∷ []) = nat_beq n.node_id 0 && int_beq n.snr (pos 0)
is_dummy (n ∷ m ∷ ns) = false

abbrev provided : Option (NodeId → List NodeId) → NodeId → List NodeId
provided none node = []
provided (some provider) node = provider node

-- `ptr.Val`
abbrev val : Option ℕ → ℕ
val none = 0
val (some n) = n

module _ (lib : Libraries) where
  request_channel : NetworkMeshPacket → Option ChannelDef
  request_channel packet = or_nil (new_channel_def lib.radio packet.channel_name packet.channel_key)

  answer_telemetry : NetworkMeshPacket → TelemetryVariant → Action (Option Error)
  unfolding encryption_of request_channel
  answer_telemetry packet (device_metrics level uptime) =
      send_telemetry_response lib packet.to packet.from (request_channel packet)
        (encryption_of packet.channel_name) packet.id
  answer_telemetry packet (host_metrics metrics) =
      send_host_metrics_response lib packet.to packet.from (request_channel packet)
        (encryption_of packet.channel_name) packet.id
  answer_telemetry packet other_metrics = return none
  answer_telemetry packet no_metrics =
      send_telemetry_response lib packet.to packet.from (request_channel packet)
        (encryption_of packet.channel_name) packet.id

  telemetry_unless_throttled : NetworkMeshPacket → Telemetry → Action (Unit {0})
  unfolding ask_throttle answer_telemetry can_respond_telemetry
  telemetry_unless_throttled packet telemetry = do
    may ← ask_throttle can_respond_telemetry packet.to
    if may then (λ w. (tt, (answer_telemetry packet telemetry.variant w).1)) else skip

  pub handle_telemetry_request : NetworkMeshPacket → Telemetry → Action (Unit {0})
  unfolding telemetry_unless_throttled
  handle_telemetry_request packet telemetry = do
    c ← the_client
    if c.managed_node_func packet.to then telemetry_unless_throttled packet telemetry else skip

  answer_neighbors : NetworkMeshPacket → Action (Option Error)
  unfolding encryption_of request_channel
  answer_neighbors packet = do
    c ← the_client
    send_neighbor_info_response lib packet.to packet.from (provided c.neighbor_provider packet.to)
        (val c.neighbor_broadcast_interval) (request_channel packet)
        (encryption_of packet.channel_name) packet.id

  neighbors_unless_throttled : NetworkMeshPacket → Action (Unit {0})
  unfolding ask_throttle answer_neighbors can_respond_neighbor
  neighbors_unless_throttled packet = do
    may ← ask_throttle can_respond_neighbor packet.to
    if may then (λ w. (tt, (answer_neighbors packet w).1)) else skip

  pub handle_neighbor_info_request : NetworkMeshPacket → NeighborInfo → Action (Unit {0})
  unfolding neighbors_unless_throttled is_dummy
  handle_neighbor_info_request packet info = do
    c ← the_client
    if not (c.managed_node_func packet.to)
        then skip
        else if is_dummy info.neighbors
        then skip
        else neighbors_unless_throttled packet
