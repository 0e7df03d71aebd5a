-- ===== src/Mesh/Events.antt =====
-- pkg/mesh/events.go and the packet types of pkg/mesh/connectors/connector.go.
use matrix_meshtastic.Prelude.{ℕ, Bool, Option, List, Bytes}
use matrix_meshtastic.Prelude.Int.{ℤ}
use matrix_meshtastic.External.{MeshPacket, Role}
use matrix_meshtastic.MeshId.Ids.{NodeId}

pub data PacketSource : Type 0 where
  mqtt_source udp_source radio_source : PacketSource

pub data ListenerEvent : Type 0 where
  event_started event_restarted event_connection_lost : ListenerEvent

pub record NetworkMeshPacket : Type 0 where
  pub mesh_packet : MeshPacket
  pub open mesh_packet use *
  pub channel_name : Bytes
  pub channel_key : Option Bytes
  pub gateway_node : NodeId
  pub source : PacketSource

pub record MeshEvent : Type 0 where
  pub channel_name : Bytes
  pub channel_key : Option Bytes
  pub from : NodeId
  pub to : NodeId
  pub via : NodeId
  pub timestamp : ℕ
  pub packet_id : ℕ
  pub want_ack : Bool
  pub want_response : Bool
  pub is_neighbor : Bool

pub record MeshMessageEvent : Type 0 where
  pub event : MeshEvent
  pub message : Bytes
  pub is_dm : Bool
  pub reply_id : ℕ

pub record MeshReactionEvent : Type 0 where
  pub event : MeshEvent
  pub emoji : Bytes
  pub is_dm : Bool
  pub reply_id : ℕ

-- `meshid.GeoURI` as the mesh fills it: degrees in units of 1e-7, metres.
pub record Location : Type 0 where
  pub latitude : ℤ
  pub longitude : ℤ
  pub altitude : Option ℤ
  pub uncertainty : Option ℕ

pub record MeshLocationEvent : Type 0 where
  pub event : MeshEvent
  pub location : Location
  pub ground_speed : Option ℕ
  pub ground_track : Option ℕ

pub record MeshWaypointEvent : Type 0 where
  pub event : MeshEvent
  pub waypoint_id : ℕ
  pub is_delete : Bool
  pub name : Bytes
  pub description : Bytes
  pub latitude : ℤ
  pub longitude : ℤ
  pub icon : ℕ  -- one rune
  pub locked_to : Option NodeId
  pub expires : Option ℕ  -- seconds

pub record MeshNodeInfoEvent : Type 0 where
  pub event : MeshEvent
  pub user_id : Bytes
  pub short_name : Bytes
  pub long_name : Bytes
  pub role : Role
  pub public_key : Bytes
  pub is_licensed : Bool
  pub is_unmessagable : Bool

pub record MeshChannelJoined : Type 0 where
  pub channel_id : Bytes
  pub channel_key : Bytes

pub record MeshMapReportEvent : Type 0 where
  pub event : MeshEvent
  pub location : Location
  pub short_name : Bytes
  pub long_name : Bytes
  pub role : Role
  pub is_unmessagable_role : Bool
  pub firmware_version : Bytes
  pub online_local_nodes : ℕ

pub record MeshTracerouteEvent : Type 0 where
  pub event : MeshEvent
  pub route : List ℕ
  pub snr_towards : List ℤ
  pub route_back : List ℕ
  pub snr_back : List ℤ
  pub request_id : ℕ

-- The values that `notifyEvent` passes on, as `any`. A `MeshEvent` and a pointer to one are two
-- types for the handlers' type switches.
pub data Event : Type 0 where
  plain : MeshEvent → Event
  plain_pointer : MeshEvent → Event
  message : MeshMessageEvent → Event
  reaction : MeshReactionEvent → Event
  location : MeshLocationEvent → Event
  waypoint : MeshWaypointEvent → Event
  node_info : MeshNodeInfoEvent → Event
  channel_joined : MeshChannelJoined → Event
  map_report : MeshMapReportEvent → Event
  traceroute : MeshTracerouteEvent → Event
