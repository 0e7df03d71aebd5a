-- ===== src/External/Calls.antt =====
-- The libraries as records of operations: `radio` of meshtastic-go, and `proto`.
use matrix_meshtastic.Prelude.{ℕ, Bool, Option, Bytes, Result, Error}
use matrix_meshtastic.External.Pb.{
  Data, MeshPacket, Message, User, Position, MapReport, Waypoint, Telemetry, NeighborInfo,
  RouteDiscovery,
}

-- github.com/meshnet-gophers/meshtastic-go/radio
pub record Radio : Type 0 where
  pub default_key : Bytes
  pub parse_key : Bytes → Result Bytes
  pub channel_hash : Bytes → Bytes → ℕ × Option Error
  pub xor : Bytes → Bytes → ℕ → ℕ → Result Bytes
  pub encrypt_curve25519 : Bytes → Bytes → Bytes → ℕ → ℕ → Result Bytes
  pub try_decode : MeshPacket → Bytes → Option Data × Option Error
  pub try_decode_pki : MeshPacket → Bytes → Bytes → Option Data × Option Error

-- google.golang.org/protobuf/proto. `Unmarshal` leaves what it has read in the message, beside its
-- error.
pub record Proto : Type 0 where
  pub marshal : Message → Result Bytes
  pub unmarshal_user : Bytes → User × Option Error
  pub unmarshal_position : Bytes → Position × Option Error
  pub unmarshal_map_report : Bytes → MapReport × Option Error
  pub unmarshal_route_discovery : Bytes → RouteDiscovery × Option Error
  pub unmarshal_telemetry : Bytes → Telemetry × Option Error
  pub unmarshal_neighbor_info : Bytes → NeighborInfo × Option Error
  pub unmarshal_waypoint : Bytes → Waypoint × Option Error
  pub unmarshal_other : Bytes → Option Error

-- A cache of github.com/jellydator/ttlcache, seen through `Has`: the answer for a key at a time.
abbrev pub PacketCache : Type 0
PacketCache = ℕ → ℕ → Bool

-- github.com/shirou/gopsutil: free memory, the three load averages in hundredths, the uptime in
-- seconds and the free space of the disk.
pub record Host : Type 0 where
  pub virtual_memory : Result ℕ
  pub load_avg : Result (ℕ × ℕ × ℕ)
  pub uptime : Result ℕ
  pub disk_usage : Result ℕ

pub record Libraries : Type 0 where
  pub radio : Radio
  pub proto : Proto
  pub cache_set : PacketCache → ℕ → ℕ → PacketCache
  pub data_payload_len : ℕ
  pub host : Host
  pub modem_preset : Bytes → Option ℕ  -- the preset named like a channel, in screaming snake case
