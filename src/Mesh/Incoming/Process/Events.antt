-- ===== src/Mesh/Incoming/Process/Events.antt =====
-- What the handlers are told of a packet (pkg/mesh/incoming_messages.go).
use matrix_meshtastic.Prelude.{
  ℕ, ◌≡◌, ◌≢◌, ◌↔◌, ◌⊎◌, ◌/◌, ◌%◌, ◌∙◌, ap, refl, true, false, List, [], ◌∷◌, ◌++◌, All,
  append_assoc, Bool-cases, inl, inr, Option, none, some, nat_beq, nat_beq_iff, arith,
}
use matrix_meshtastic.Prelude.Int.{ℤ}
use matrix_meshtastic.External.{
  PortNum, text_message_app, nodeinfo_app, position_app, map_report_app, traceroute_app,
  telemetry_app, neighborinfo_app, store_forward_app, store_forward_plusplus_app, routing_app,
  waypoint_app, admin_app, other_app, Data, Position, Waypoint, Libraries,
}
use matrix_meshtastic.Mesh.Events.{
  NetworkMeshPacket, PacketSource, mqtt_source, udp_source, radio_source, MeshEvent, Event, plain,
  plain_pointer, message, reaction, location, waypoint, node_info, channel_joined, map_report,
  traceroute,
}
use matrix_meshtastic.Mesh.World.{World, Effect, notified, IsSent}
use matrix_meshtastic.Mesh.Incoming.Content.{
  is_mqtt, mesh_event, text_event, user_event, position_event, report_event, route_event,
  waypoint_event,
}
use matrix_meshtastic.Mesh.Incoming.Process.{
  is_request, process_traceroute, process_port, process_data, process_message,
}
use matrix_meshtastic.Mesh.Incoming.Process.Frame.{process_port-OnlySends}

-- The envelope of an event that is not a pointer to a bare envelope.
abbrev pub envelope : Event → Option MeshEvent
envelope (plain env) = some env
envelope (plain_pointer env) = none
envelope (message e) = some e.event
envelope (reaction e) = some e.event
envelope (location e) = some e.event
envelope (waypoint e) = some e.event
envelope (node_info e) = some e.event
envelope (channel_joined e) = none
envelope (map_report e) = some e.event
envelope (traceroute e) = some e.event

not_mqtt : (source : PacketSource) → (is_mqtt source ≡ false) ↔ (source ≢ mqtt_source)
not_mqtt mqtt_source = (λ e. absurd cc, λ other. absurd (other refl))
not_mqtt udp_source = ((λ e f. absurd cc), λ other. refl)
not_mqtt radio_source = ((λ e f. absurd cc), λ other. refl)

-- What an envelope says of a packet and its data, at a time in nanoseconds.
pub record IsAbout (packet : NetworkMeshPacket) (d : Data) (now : ℕ) (env : MeshEvent)
    : Type 0 where
  pub channel : env.channel_name ≡ packet.channel_name
  pub key : env.channel_key ≡ packet.channel_key
  pub sender : env.from ≡ packet.from
  pub receiver : env.to ≡ packet.to
  pub gateway : env.via ≡ packet.gateway_node
  pub id : env.packet_id ≡ packet.id
  pub received :
      ((packet.rx_time ≢ 0) × (env.timestamp ≡ packet.rx_time))
      ⊎ ((packet.rx_time ≡ 0) × (env.timestamp ≡ now / 1_000_000_000 % 4_294_967_296))
  pub acknowledged : env.want_ack ≡ packet.want_ack
  pub answered : env.want_response ≡ d.want_response
  pub neighbor : (env.is_neighbor ≡ true) ↔ (
      (packet.source ≢ mqtt_source)
      × (packet.hop_start ≡ packet.hop_limit)
      × (packet.via_mqtt ≡ false))

mesh_event-IsAbout :
    (packet : NetworkMeshPacket) (d : Data) (now : ℕ)
    → IsAbout packet d now (mesh_event packet d now)
unfolding mesh_event
mesh_event-IsAbout packet d now = record {
  channel = refl;
  key = refl;
  sender = refl;
  receiver = refl;
  gateway = refl;
  id = refl;
  received = elim (Bool-cases (nat_beq packet.rx_time 0)) [
    | inl unset ↦ rw unset (inr (ground (arith, nat_beq_iff packet.rx_time 0), refl))
    | inr set ↦ rw set (inl (ground (arith, nat_beq_iff packet.rx_time 0), refl))
  ];
  acknowledged = refl;
  answered = refl;
  neighbor =
      let source = not_mqtt packet.source in
      (
        (λ near. (
          source.0 (ground arith),
          ground (arith, nat_beq_iff packet.hop_start packet.hop_limit),
          ground arith,
        )),
        λ (other, hops, direct).
            rw (source.1 other, direct, (nat_beq_iff packet.hop_start packet.hop_limit).1 hops)
              refl,
      );
}

text_envelope :
    (env : MeshEvent) (packet : NetworkMeshPacket) (d : Data)
    → envelope (text_event env packet d) ≡ some env
unfolding text_event
text_envelope env packet d = elim (Bool-cases (nat_beq d.emoji 0)) [
  | inl text ↦ rw text
  | inr react ↦ rw react
]

position_envelope :
    (env : MeshEvent) (p : Position) (lat lon : Option ℤ)
    → envelope (position_event env p lat lon) ≡ some env
unfolding position_event
position_envelope env p (some lat) (some lon) = refl
position_envelope env p (some lat) none = refl
position_envelope env p none lon = refl

waypoint_envelope :
    (env : MeshEvent) (wp : Waypoint) (now : ℕ) (lat lon : Option ℤ)
    → envelope (waypoint_event env wp now lat lon) ≡ some env
unfolding waypoint_event
waypoint_envelope env wp now (some lat) (some lon) = refl
waypoint_envelope env wp now (some lat) none = refl
waypoint_envelope env wp now none lon = refl

module _ (lib : Libraries) where
  envelope-process_port :
      (packet : NetworkMeshPacket) (d : Data) (env : MeshEvent) (now : ℕ) (port : PortNum)
      (w : World)
      → envelope (process_port lib packet d env now port w).0.0 ≡ some env
  unfolding process_port process_traceroute user_event report_event route_event
  envelope-process_port packet d env now text_message_app w = text_envelope env packet d
  envelope-process_port packet d env now nodeinfo_app w = refl
  envelope-process_port packet d env now position_app w =
      let p = (lib.proto.unmarshal_position d.payload).0 in
      position_envelope env p p.latitude_i p.longitude_i
  envelope-process_port packet d env now map_report_app w = refl
  envelope-process_port packet d env now traceroute_app w =
      elim (Bool-cases (nat_beq d.request_id 0)) [
        | inl request ↦ rw request
        | inr answer ↦ rw answer
      ]
  envelope-process_port packet d env now telemetry_app w = elim (Bool-cases (is_request packet d)) [
    | inl asked ↦ rw asked
    | inr told ↦ rw told
  ]
  envelope-process_port packet d env now neighborinfo_app w =
      elim (Bool-cases (is_request packet d)) [ inl asked ↦ rw asked | inr told ↦ rw told ]
  envelope-process_port packet d env now store_forward_app w = refl
  envelope-process_port packet d env now store_forward_plusplus_app w = refl
  envelope-process_port packet d env now routing_app w = refl
  envelope-process_port packet d env now waypoint_app w =
      let p = (lib.proto.unmarshal_waypoint d.payload).0 in
      waypoint_envelope env p now p.latitude_i p.longitude_i
  envelope-process_port packet d env now admin_app w = refl
  envelope-process_port packet d env now (other_app n) w = refl

  -- First answers are sent, then the handlers are told of one event with this envelope, which says of
  -- the packet what it should.
  pub record TellsOnce (packet : NetworkMeshPacket) (d : Data) (env : MeshEvent) (w w' : World)
      : Type 0 where
    pub replies : List Effect
    pub event : Event
    pub told : w'.effects ≡ w.effects ++ (replies ++ notified event ∷ [])
    pub only_sent : All IsSent replies
    pub about : envelope event ≡ some env
    pub says : IsAbout packet d w.now env

  -- A packet with data, from a sender with an ID that the bridge does not manage, makes the client
  -- tell its handlers of exactly one event, after the answers, if any, that it sends. The event holds
  -- the packet's channel and key, sender, receiver, gateway, ID and wish for an acknowledgement, the
  -- data's wish for a response, the packet's time of reception, or the present second if that is not
  -- set, and that the sender is a neighbour exactly when the packet did not come over MQTT, at any of
  -- its hops, and has made no hop; it is never a pointer to a bare `MeshEvent`.
  pub process_message-TellsOnce :
      (packet : NetworkMeshPacket) (d : Data) (w : World)
      → packet.from ≢ 0
      → w.client.managed_node_func packet.from ≡ false
      → TellsOnce packet d (mesh_event packet d w.now) w (process_message lib packet (some d) w).1
  unfolding process_message process_data
  process_message-TellsOnce packet d w real other =
      let r = process_port lib packet d (mesh_event packet d w.now) w.now d.portnum w in
      let s = process_port-OnlySends lib packet d (mesh_event packet d w.now) w.now d.portnum w in
      let from_some : nat_beq packet.from 0 ≡ false = ground (arith, nat_beq_iff packet.from 0) in
      rw (from_some, other)
        (record {
          replies = s.replies;
          event = r.0.0;
          told =
              ap (λ (xs : List Effect). xs ++ notified r.0.0 ∷ []) s.appended
              ∙ append_assoc w.effects s.replies (notified r.0.0 ∷ []);
          only_sent = s.are_sent;
          about = envelope-process_port packet d _ w.now d.portnum w;
          says = mesh_event-IsAbout packet d w.now;
        })
