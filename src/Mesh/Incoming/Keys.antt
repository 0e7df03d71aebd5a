-- ===== src/Mesh/Incoming/Keys.antt =====
-- Which key a packet is read with (pkg/mesh/incoming_messages.go).
use mathlib.Core.List.{Mem, mem-cons_self, mem-cons_of_mem}
use matrix_meshtastic.Prelude.{
  ℕ, ◌≡◌, ◌≢◌, refl, ap, Bool, true, false, not, ◌&&◌, List, [], ◌∷◌, Option, none, some, Bytes,
  Error, Bool-cases, inl, inr, is_some, nat_beq, nat_beq_iff, bytes_beq, bytes_beq_iff, arith,
}
use matrix_meshtastic.External.{Data, Libraries}
use matrix_meshtastic.MeshId.Channel.{ChannelDef, get_key_string}
use matrix_meshtastic.Mesh.Events.{NetworkMeshPacket}
use matrix_meshtastic.Mesh.World.{ChannelRef, MeshtasticClient}
use matrix_meshtastic.Mesh.Incoming.{
  is_read, is_hash_of, get_channel_name_from_hash, try_channels, try_decrypt_psk,
}

module _ (lib : Libraries) where
  -- The data is read with the key of a channel that has the packet's name, which the result keeps.
  pub record ReadWith (packet : NetworkMeshPacket) (channels : List ChannelRef) (d : Data)
      (named : NetworkMeshPacket) : Type 0 where
    pub used : ChannelRef
    pub is_joined : Mem used channels
    pub has_name : used.channel.name ≡ packet.channel_name
    pub keeps_name : named.channel_name ≡ packet.channel_name
    pub has_key : get_key_string used.channel ≢ []
    pub says_key : named.channel_key ≡ some (get_key_string used.channel)
    pub decodes : lib.radio.try_decode packet.mesh_packet used.channel.key_bytes ≡ (some d, none)

  weaken :
      (packet named : NetworkMeshPacket) (v : ChannelRef) (vs : List ChannelRef) (d : Data)
      → ReadWith packet vs d named
      → ReadWith packet (v ∷ vs) d named
  weaken packet named v vs d r = record {
    used = r.used;
    is_joined = mem-cons_of_mem v r.is_joined;
    has_name = r.has_name;
    keeps_name = r.keeps_name;
    has_key = r.has_key;
    says_key = r.says_key;
    decodes = r.decodes;
  }

  abbrev fits_name : NetworkMeshPacket → ChannelRef → Bool
  fits_name packet v =
      bytes_beq v.channel.name packet.channel_name && not (bytes_beq (get_key_string v.channel) [])

  abbrev decoded_by : NetworkMeshPacket → ChannelRef → Option Data × Option Error
  decoded_by packet v = lib.radio.try_decode packet.mesh_packet v.channel.key_bytes

  unread_found :
      (r : Option Data × Option Error) (d : Data) → is_read r ≡ false → r ≡ (some d, none) → ⊥
  unread_found r d unread found = cc

  try_channels-ReadWith :
      (packet : NetworkMeshPacket) (vs : List ChannelRef) (last : Option Data × Option Error)
      (d : Data)
      → is_read last ≡ false
      → (try_channels lib packet vs last).1 ≡ (some d, none)
      → ReadWith packet vs d (try_channels lib packet vs last).0
  unfolding try_channels
  try_channels-ReadWith packet [] last d unread = λ found. absurd (unread_found last d unread found)
  try_channels-ReadWith packet (v ∷ vs) last d unread = elim (Bool-cases (fits_name packet v)) [
    | inl fits ↦ elim (Bool-cases (is_read (decoded_by packet v))) [
      | inl read ↦
          rw (fits, read)
            λ found. record {
              used = v;
              is_joined = mem-cons_self;
              has_name = ground (arith, bytes_beq_iff v.channel.name packet.channel_name);
              keeps_name = refl;
              has_key =
                  λ empty. absurd (ground (arith, bytes_beq_iff (get_key_string v.channel) []));
              says_key = refl;
              decodes = found;
            }
      | inr not_read ↦
          rw (fits, not_read)
            λ found.
              weaken packet _ v vs d
                (try_channels-ReadWith packet vs (decoded_by packet v) d not_read found)
    ]
    | inr misfit ↦
        rw misfit
          λ found. weaken packet _ v vs d (try_channels-ReadWith packet vs last d unread found)
  ]

  -- A channel of the client has the name, and the hash of its name and key is this one.
  pub record NamedByHash (name : Bytes) (id_hash : ℕ) (channels : List ChannelRef) : Type 0 where
    pub owner : ChannelRef
    pub is_joined : Mem owner channels
    pub has_name : owner.channel.name ≡ name
    pub has_hash :
        lib.radio.channel_hash owner.channel.name owner.channel.key_bytes ≡ (id_hash, none)

  hash_found :
      (id_hash : ℕ) (channel : ChannelDef)
      → is_hash_of lib id_hash channel ≡ true
      → lib.radio.channel_hash channel.name channel.key_bytes ≡ (id_hash, none)
  unfolding is_hash_of
  hash_found id_hash channel found =
      decide_hash (lib.radio.channel_hash channel.name channel.key_bytes) found
    where
      decide_hash :
          (r : ℕ × Option Error)
          → (not (is_some r.1) && nat_beq r.0 id_hash) ≡ true
          → r ≡ (id_hash, none)
      decide_hash (hash, none) h = ap (λ n. (n, none)) ((nat_beq_iff hash id_hash).0 h)
      decide_hash (hash, some e) h = absurd cc

  name-NamedByHash :
      (vs : List ChannelRef) (id_hash : ℕ)
      → get_channel_name_from_hash lib vs id_hash ≢ []
      → NamedByHash (get_channel_name_from_hash lib vs id_hash) id_hash vs
  unfolding get_channel_name_from_hash
  name-NamedByHash [] id_hash = λ named. absurd (named refl)
  name-NamedByHash (v ∷ vs) id_hash = elim (Bool-cases (is_hash_of lib id_hash v.channel)) [
    | inl is_its ↦ rw is_its λ named. record {
      owner = v;
      is_joined = mem-cons_self;
      has_name = refl;
      has_hash = hash_found id_hash v.channel is_its;
    }
    | inr is_not ↦ rw is_not λ named.
        let r = name-NamedByHash vs id_hash named in
        record {
          owner = r.owner;
          is_joined = mem-cons_of_mem v r.is_joined;
          has_name = r.has_name;
          has_hash = r.has_hash;
        }
  ]

  -- When `tryDecryptPSK` reads a packet, the result has the name of a joined channel whose hash is the
  -- packet's, and the key of a joined channel of that same name, and that channel's key decodes it.
  pub try_decrypt_psk-ReadWith :
      (c : MeshtasticClient) (packet : NetworkMeshPacket) (d : Data)
      → (try_decrypt_psk lib c packet).1 ≡ (some d, none)
      → let name = get_channel_name_from_hash lib c.channels packet.channel in
        NamedByHash name packet.channel c.channels
        × ReadWith
            (record packet { channel_name = name })
            c.channels
            d
            (try_decrypt_psk lib c packet).0
  unfolding try_decrypt_psk
  try_decrypt_psk-ReadWith c packet d =
      let name = get_channel_name_from_hash lib c.channels packet.channel in
      elim (Bool-cases (bytes_beq name [])) [
        | inl unknown ↦ rw unknown λ found. absurd cc
        | inr known ↦ rw known λ found. (
          name-NamedByHash c.channels packet.channel
              (λ blank. ground (arith, bytes_beq_iff name [])),
          try_channels-ReadWith (record packet { channel_name = name }) c.channels (none, none) d
              refl found,
        )
      ]
