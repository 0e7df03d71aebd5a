-- ===== src/Mesh/Incoming.antt =====
-- Packets that come from the mesh: duplicates and keys (pkg/mesh/incoming_messages.go). What the
-- packet says is for Mesh/Incoming/Process. The gateway of a packet is only logged.
pub mod Content
pub mod Process
pub mod Replay
pub mod Keys
use matrix_meshtastic.Prelude.{
  ℕ, ◌*◌, ◌^◌, ◌<◌, Bool, true, false, not, ◌&&◌, List, [], ◌∷◌, Option, none, some, Bytes, codes,
  Error, unknown_channel_hash, Result, ok, err, ltb, nat_beq, bytes_beq, is_some, if◌then◌else◌,
}
use Prim.Native.Nat.{bit_or}
use matrix_meshtastic.External.{
  Data, MeshPacket, PayloadVariant, decoded, encrypted, no_payload, Libraries,
}
use matrix_meshtastic.MeshId.Ids.{NodeId, broadcast_id}
use matrix_meshtastic.MeshId.Channel.{ChannelDef, get_key_string}
use matrix_meshtastic.Mesh.Events.{NetworkMeshPacket}
use matrix_meshtastic.Mesh.World.{
  ChannelRef, MeshtasticClient, Action, ◌>>=◌, ◌>>◌, skip, the_client, read_clock, put_client,
}
use matrix_meshtastic.Mesh.Send.{request_key}
use Process.{process_message}

-- `uint64(from) << 32 | uint64(id)`
unfoldable pub cache_key : MeshPacket → ℕ
cache_key packet = bit_or packet.id (packet.from * 2 ^ 32)

unfoldable pub is_duplicate_packet : MeshtasticClient → MeshPacket → ℕ → Bool
unfolding cache_key
is_duplicate_packet c packet now =
    if nat_beq packet.id 0 then false else c.packet_cache (cache_key packet) now

pub should_use_pki_decryption : MeshtasticClient → MeshPacket → Bool
should_use_pki_decryption c packet =
    nat_beq packet.channel 0
    && ltb 0 packet.to
    && not (nat_beq packet.to broadcast_id)
    && c.managed_node_func packet.to

-- `GetDecoded`
abbrev pub get_decoded : PayloadVariant → Option Data
get_decoded (decoded d) = some d
get_decoded (encrypted bytes) = none
get_decoded no_payload = none

-- A packet and the data found in it, with the error of the last attempt.
abbrev pub Attempt : Type 0
Attempt = NetworkMeshPacket × (Option Data × Option Error)

abbrev pub is_read : Option Data × Option Error → Bool
is_read (some d, none) = true
is_read (some d, some e) = false
is_read (none, e) = false

module _ (lib : Libraries) where
  is_hash_of : ℕ → ChannelDef → Bool
  is_hash_of id_hash channel =
      let (hash, e) = lib.radio.channel_hash channel.name channel.key_bytes in
      not (is_some e) && nat_beq hash id_hash

  pub get_channel_name_from_hash : List ChannelRef → ℕ → Bytes
  unfolding is_hash_of
  get_channel_name_from_hash [] id_hash = []
  get_channel_name_from_hash (v ∷ vs) id_hash =
      let rest = get_channel_name_from_hash vs id_hash in
      if is_hash_of id_hash v.channel then v.channel.name else rest

  cache_packet : NetworkMeshPacket → Action (Unit {0})
  cache_packet packet = do
    c ← the_client
    now ← read_clock
    put_client (record c {
      packet_cache = lib.cache_set c.packet_cache (cache_key packet.mesh_packet) now;
    })

  abbrev decode_pki : NetworkMeshPacket → Result Bytes → Result Bytes → Attempt
  decode_pki packet (err e) pub_key = (packet, (none, some e))
  decode_pki packet (ok priv) (err e) = (packet, (none, some e))
  decode_pki packet (ok priv) (ok pub_key) = (
    record packet { channel_name = codes "PKI" },
    lib.radio.try_decode_pki packet.mesh_packet pub_key priv,
  )

  try_decrypt_pki : MeshtasticClient → NetworkMeshPacket → Attempt
  try_decrypt_pki c packet =
      decode_pki packet (request_key lib packet.to c.priv_key_request_handler)
        (request_key lib packet.from c.pub_key_request_handler)

  -- Every definition of the name that has a key is tried, until one reads the packet.
  try_channels : NetworkMeshPacket → List ChannelRef → Option Data × Option Error → Attempt
  try_channels packet [] last = (packet, last)
  try_channels packet (v ∷ vs) last =
      let fits =
        bytes_beq v.channel.name packet.channel_name
        && not (bytes_beq (get_key_string v.channel) []) in
      let result =
        if fits then lib.radio.try_decode packet.mesh_packet v.channel.key_bytes else last in
      let rest = try_channels packet vs result in
      if fits && is_read result
      then (record packet { channel_key = some (get_key_string v.channel) }, result)
      else rest

  unfoldable pub try_decrypt_psk : MeshtasticClient → NetworkMeshPacket → Attempt
  unfolding get_channel_name_from_hash try_channels
  try_decrypt_psk c packet =
      let named = record packet {
        channel_name = get_channel_name_from_hash c.channels packet.channel;
      } in
      if bytes_beq named.channel_name []
      then (named, (none, some unknown_channel_hash))
      else try_channels named c.channels (none, none)

  -- The error of an attempt with the private key is only logged.
  decrypt : MeshtasticClient → NetworkMeshPacket → Attempt
  unfolding should_use_pki_decryption try_decrypt_pki try_decrypt_psk
  decrypt c packet =
      let tried =
        if should_use_pki_decryption c packet.mesh_packet
        then try_decrypt_pki c packet
        else (packet, (none, none)) in
      if is_some tried.1.0 then (tried.0, (tried.1.0, none)) else try_decrypt_psk c tried.0

  abbrev read_data : MeshtasticClient → NetworkMeshPacket → Option Data → Attempt
  read_data c packet (some d) = (packet, (some d, none))
  read_data c packet none = decrypt c packet

  process_read : Attempt → Action (Unit {0})
  process_read (packet, (d, some e)) w = (tt, w)
  process_read (packet, (d, none)) w = (tt, (process_message lib packet d w).1)

  handle_new_packet : NetworkMeshPacket → Action (Unit {0})
  unfolding cache_packet decrypt process_read
  handle_new_packet packet = do
    cache_packet packet
    c ← the_client
    if c.managed_node_func packet.from
        then skip
        else process_read (read_data c packet (get_decoded packet.payload_variant))

  pub handle_mesh_packet : NetworkMeshPacket → Action (Unit {0})
  unfolding is_duplicate_packet handle_new_packet
  handle_mesh_packet packet = do
    c ← the_client
    now ← read_clock
    if is_duplicate_packet c packet.mesh_packet now then skip else handle_new_packet packet
