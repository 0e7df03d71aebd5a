-- ===== src/Mesh/Send.antt =====
-- Sending a packet (pkg/mesh/mesh_client.go): packet IDs, priorities, encryption and the hand-over to
-- every connector. A nil channel makes the program panic; here it is the error `nil_channel`.
pub mod PacketId
pub mod Delivery
pub mod Frame
pub mod Errors
use Prim.Native.Nat.{bit_or}
use matrix_meshtastic.Prelude.{
  ℕ, suc, ◌+◌, ◌-◌, ◌*◌, ◌%◌, ◌/◌, ◌^◌, Bool, true, false, not, ◌&&◌, List, [], ◌∷◌, map, Option,
  none, some, Bytes, Error, not_managed, message_too_large, unknown_encryption, no_key_handler,
  no_key, nil_channel, Result, ok, err, length, filter_by, ltb, nat_beq, if◌then◌else◌,
}
use matrix_meshtastic.Prelude.Int.{pos}
use matrix_meshtastic.External.{
  PortNum, text_message_app, nodeinfo_app, position_app, traceroute_app, routing_app, admin_app,
  Data, Priority, default, reliable, ack, high, response, MeshPacket, PayloadVariant, decoded,
  encrypted, no_payload, Message, data_message, Libraries,
}
use matrix_meshtastic.MeshId.Ids.{NodeId, broadcast_id}
use matrix_meshtastic.MeshId.Channel.{ChannelDef}
use matrix_meshtastic.Mesh.World.{
  second, MeshConnector, MeshtasticClient, Effect, sent, Action, ◌>>=◌, ◌>>◌, return, emit_all,
  draw, the_client, read_clock, put_client,
}

pub data EncryptionType : Type 0 where
  no_encryption psk_encryption pki_encryption other_encryption : EncryptionType

pub record PacketInfo : Type 0 where
  pub port_num : PortNum
  pub encryption : EncryptionType
  pub from : NodeId
  pub to : NodeId
  pub request_id : ℕ
  pub reply_id : ℕ
  pub want_response : Bool
  pub emoji : Bool

-- The lowest ten bits count up; the others are random. The masks are remainders of powers of two.
unfoldable pub next_packet_id : ℕ → ℕ → ℕ
next_packet_id rolling r = bit_or ((rolling + 1) % 2 ^ 32 % 2 ^ 10) (r * 2 ^ 10 % 2 ^ 32)

pub generate_packet_id : Action ℕ
generate_packet_id = do
  c ← the_client
  rolling ← if nat_beq c.current_packet_id 0 then draw else return c.current_packet_id
  r ← draw
  let id = next_packet_id rolling r
  put_client (record c { current_packet_id = id })
  return id

get_last_byte_of_node_num : ℕ → ℕ
get_last_byte_of_node_num num = if nat_beq (num % 256) 0 then 0xff else num % 256

by_request : Data → Priority → Priority
by_request d otherwise =
    if not (nat_beq d.request_id 0)
    then response
    else if d.want_response
    then reliable
    else otherwise

by_port : PortNum → Data → Priority → Priority
unfolding by_request
by_port routing_app d p = ack
by_port text_message_app d p = high
by_port admin_app d p = high
by_port _ d p = by_request d p

pub get_priority : Data → Bool → Priority
unfolding by_port
get_priority d want_ack = by_port d.portnum d (if want_ack then reliable else default)

answers_requests : PortNum → Bool
answers_requests nodeinfo_app = true
answers_requests position_app = true
answers_requests traceroute_app = true
answers_requests _ = false

is_traceroute : PortNum → Bool
is_traceroute traceroute_app = true
is_traceroute _ = false

abbrev bitfield_ok_to_mqtt : ℕ
bitfield_ok_to_mqtt = 1

abbrev bitfield_want_response : ℕ
bitfield_want_response = 2

wants_response : PacketInfo → Bool
unfolding answers_requests
wants_response info =
    info.want_response && not (nat_beq info.to broadcast_id) && answers_requests info.port_num

data_of : Bytes → PacketInfo → Data
unfolding wants_response
data_of raw_info info = record {
  portnum = info.port_num;
  payload = raw_info;
  want_response = wants_response info;
  request_id = info.request_id;
  reply_id = info.reply_id;
  emoji = if info.emoji then 1 else 0;
  bitfield =
      if wants_response info
      then bit_or bitfield_ok_to_mqtt bitfield_want_response
      else bitfield_ok_to_mqtt;
}

-- The packet before its payload is put in.
packet_of : MeshtasticClient → ℕ → ℕ → ℕ → PacketInfo → Data → MeshPacket
unfolding get_priority is_traceroute get_last_byte_of_node_num
packet_of c msg_time id channel_hash info d =
    let want_ack = is_traceroute info.port_num && info.want_response in
    record {
      id = id;
      to = info.to;
      from = info.from;
      hop_limit = c.hop_limit;
      hop_start = if nat_beq info.from c.node_id then c.hop_limit else c.hop_limit + 1;
      via_mqtt = false;
      want_ack = want_ack;
      rx_time = msg_time;
      rx_snr = pos 0;
      channel = channel_hash;
      priority = get_priority d want_ack;
      relay_node = get_last_byte_of_node_num c.node_id;
      pki_encrypted = false;
      payload_variant = no_payload;
    }

-- A refusal carries the packet ID that is returned with the error.
pub data Prepared : Type 0 where
  refused : ℕ → Error → Prepared
  ready : MeshPacket → Prepared

abbrev ready_or : ℕ → (Bytes → MeshPacket) → Result Bytes → Prepared
ready_or id f (ok bytes) = ready (f bytes)
ready_or id f (err e) = refused id e

abbrev with_bytes : ℕ → Result Bytes → (Bytes → Prepared) → Prepared
with_bytes id (ok bytes) f = f bytes
with_bytes id (err e) f = refused id e

abbrev parse_requested : Libraries → Option Bytes → Result Bytes
parse_requested lib none = err no_key
parse_requested lib (some []) = err no_key
parse_requested lib (some (c ∷ s)) = lib.radio.parse_key (c ∷ s)

pub request_key : Libraries → NodeId → Option (NodeId → Option Bytes) → Result Bytes
request_key lib node none = err no_key_handler
request_key lib node (some handler) = parse_requested lib (handler node)

prepare :
    Libraries
    → MeshtasticClient
    → Bytes
    → Data
    → MeshPacket
    → PacketInfo
    → Bytes
    → EncryptionType
    → Prepared
unfolding request_key
prepare lib c raw_data d pkt info key no_encryption =
    ready (record pkt { channel = 0; payload_variant = decoded d })
prepare lib c raw_data d pkt info key psk_encryption =
    ready_or pkt.id (λ bytes. record pkt { payload_variant = encrypted bytes })
      (lib.radio.xor raw_data key pkt.id info.from)
prepare lib c raw_data d pkt info key pki_encryption =
    with_bytes pkt.id (request_key lib info.from c.priv_key_request_handler) λ priv.
      with_bytes pkt.id (request_key lib info.to c.pub_key_request_handler) λ pub_key.
        ready_or pkt.id
          (λ bytes. record pkt {
            pki_encrypted = true;
            channel = 0;
            payload_variant = encrypted bytes;
          })
          (lib.radio.encrypt_curve25519 raw_data priv pub_key pkt.id info.from)
prepare lib c raw_data d pkt info key other_encryption = refused 0 unknown_encryption

-- The errors of the connectors, in their order.
send_errors : Bytes → MeshPacket → List MeshConnector → List Error
send_errors name pkt [] = []
send_errors name pkt (h ∷ hs) =
    let rest = send_errors name pkt hs in
    elim (h.send_packet name pkt) [ none ↦ rest | some e ↦ e ∷ rest ]

-- `errors.Join`: nil if there is no error. The first stands for all.
abbrev pub join_errors : List Error → Option Error
join_errors [] = none
join_errors (e ∷ es) = some e

-- Every connector is given the packet at the same time, by a goroutine of its own.
pub deliver : Bytes → MeshPacket → Action (ℕ × Option Error)
unfolding send_errors
deliver name pkt = do
  c ← the_client
  emit_all (map (λ (h : MeshConnector). sent h.ident name pkt) c.mesh_connectors)
  let errs = send_errors name pkt c.mesh_connectors
  return
      (pkt.id, if nat_beq (length errs) (length c.mesh_connectors) then join_errors errs else none)

transmit : Bytes → Prepared → Action (ℕ × Option Error)
unfolding deliver
transmit name (refused id e) = return (id, some e)
transmit name (ready pkt) = deliver name pkt

-- Behind the checks: a packet ID is drawn, the data is marshalled, the packet is made.
send_marshalled :
    Libraries → Option ChannelDef → Data → PacketInfo → ℕ → Result Bytes → Action (ℕ × Option Error)
unfolding packet_of prepare transmit
send_marshalled lib channel d info id (err e) = return (0, some e)
send_marshalled lib none d info id (ok raw_data) = return (0, some nil_channel)
send_marshalled lib (some channel) d info id (ok raw_data) = do
  c ← the_client
  now ← read_clock
  let channel_hash = (lib.radio.channel_hash channel.name channel.key_bytes).0
  let pkt = packet_of c (now / second % 2 ^ 32) id channel_hash info d
  transmit channel.name (prepare lib c raw_data d pkt info channel.key_bytes info.encryption)

send_admitted : Libraries → Option ChannelDef → PacketInfo → Data → Action (ℕ × Option Error)
unfolding generate_packet_id send_marshalled
send_admitted lib channel info d = do
  id ← generate_packet_id
  send_marshalled lib channel d info id (lib.proto.marshal (data_message d))

unfoldable pub send_bytes :
    Libraries → Option ChannelDef → Bytes → PacketInfo → Action (ℕ × Option Error)
unfolding data_of send_admitted
send_bytes lib channel raw_info info = do
  c ← the_client
  if not (c.managed_node_func info.from)
      then return (0, some not_managed)
      else if ltb (lib.data_payload_len - 1) (length raw_info)
      then return (0, some message_too_large)
      else send_admitted lib channel info (data_of raw_info info)

marshalled : Libraries → Option ChannelDef → PacketInfo → Result Bytes → Action (ℕ × Option Error)
unfolding send_bytes
marshalled lib channel info (err e) = return (0, some e)
marshalled lib channel info (ok raw_info) = send_bytes lib channel raw_info info

unfoldable pub send_proto_message :
    Libraries → Option ChannelDef → Message → PacketInfo → Action (ℕ × Option Error)
unfolding marshalled
send_proto_message lib channel message info =
    marshalled lib channel info (lib.proto.marshal message)
