-- ===== src/External/Pb.antt =====
-- The protobuf messages (package `meshtastic` of meshtastic-go) with the fields that are used.
use matrix_meshtastic.Prelude.{ℕ, Bool, Option, List, Bytes}
use matrix_meshtastic.Prelude.Int.{ℤ}

pub data PortNum : Type 0 where
  text_message_app nodeinfo_app position_app map_report_app traceroute_app telemetry_app : PortNum
  neighborinfo_app store_forward_app store_forward_plusplus_app routing_app waypoint_app : PortNum
  admin_app : PortNum
  other_app : ℕ → PortNum

pub record Data : Type 0 where
  pub portnum : PortNum
  pub payload : Bytes
  pub want_response : Bool
  pub request_id : ℕ
  pub reply_id : ℕ
  pub emoji : ℕ
  pub bitfield : ℕ

pub data Priority : Type 0 where
  default reliable ack high response : Priority

pub data PayloadVariant : Type 0 where
  decoded : Data → PayloadVariant
  encrypted : Bytes → PayloadVariant
  no_payload : PayloadVariant

-- The signal to noise ratio is a float of quarter decibels; it stands as the number of quarters.
pub record MeshPacket : Type 0 where
  pub id : ℕ
  pub to : ℕ
  pub from : ℕ
  pub hop_limit : ℕ
  pub hop_start : ℕ
  pub via_mqtt : Bool
  pub want_ack : Bool
  pub rx_time : ℕ
  pub rx_snr : ℤ
  pub channel : ℕ
  pub priority : Priority
  pub relay_node : ℕ
  pub pki_encrypted : Bool
  pub payload_variant : PayloadVariant

pub record RouteDiscovery : Type 0 where
  pub route : List ℕ
  pub snr_towards : List ℤ
  pub route_back : List ℕ
  pub snr_back : List ℤ

pub data Role : Type 0 where
  client client_mute client_base router router_late router_client repeater tracker sensor : Role
  tak tak_tracker client_hidden lost_and_found : Role

pub record User : Type 0 where
  pub id : Bytes
  pub long_name : Bytes
  pub short_name : Bytes
  pub role : Role
  pub public_key : Bytes
  pub macaddr : Bytes
  pub is_licensed : Bool
  pub is_unmessagable : Option Bool

-- Coordinates in units of 1e-7 degrees.
pub record Position : Type 0 where
  pub latitude_i : Option ℤ
  pub longitude_i : Option ℤ
  pub altitude : Option ℤ
  pub precision_bits : ℕ
  pub time : ℕ
  pub timestamp : ℕ
  pub ground_speed : Option ℕ
  pub ground_track : Option ℕ

pub record MapReport : Type 0 where
  pub long_name : Bytes
  pub short_name : Bytes
  pub role : Role
  pub firmware_version : Bytes
  pub has_default_channel : Bool
  pub modem_preset : Option ℕ
  pub latitude_i : ℤ
  pub longitude_i : ℤ
  pub altitude : ℤ
  pub position_precision : ℕ
  pub num_online_local_nodes : ℕ

pub record Waypoint : Type 0 where
  pub latitude_i : Option ℤ
  pub longitude_i : Option ℤ
  pub expire : ℕ
  pub locked_to : ℕ
  pub name : Bytes
  pub description : Bytes
  pub icon : ℕ

pub record HostMetrics : Type 0 where
  pub uptime_seconds : ℕ
  pub load1 : ℕ
  pub load5 : ℕ
  pub load15 : ℕ
  pub freemem_bytes : ℕ
  pub diskfree1_bytes : ℕ

pub data TelemetryVariant : Type 0 where
  device_metrics : ℕ → ℕ → TelemetryVariant  -- battery level, uptime in seconds; 5.0 volts
  host_metrics : HostMetrics → TelemetryVariant
  other_metrics : TelemetryVariant
  no_metrics : TelemetryVariant

pub record Telemetry : Type 0 where
  pub time : ℕ
  pub variant : TelemetryVariant

pub record Neighbor : Type 0 where
  pub node_id : ℕ
  pub snr : ℤ

pub record NeighborInfo : Type 0 where
  pub node_id : ℕ
  pub neighbors : List Neighbor
  pub last_sent_by_id : ℕ
  pub node_broadcast_interval_secs : ℕ

pub data RoutingError : Type 0 where
  routing_none got_nak : RoutingError

-- What the program marshals.
pub data Message : Type 0 where
  data_message : Data → Message
  user_message : User → Message
  position_message : Position → Message
  map_report_message : MapReport → Message
  telemetry_message : Telemetry → Message
  neighbor_info_message : NeighborInfo → Message
  route_discovery_message : RouteDiscovery → Message
  routing_message : RoutingError → Message
