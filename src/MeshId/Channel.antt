-- ===== src/MeshId/Channel.antt =====
-- pkg/meshid/channel_def.go: channels and the short form of their keys. The library's `ParseKey` and
-- `DefaultKey` are parameters.
pub mod Canonical
use matrix_meshtastic.Prelude.{
  ℕ, ◌+◌, ◌-◌, ◌%◌, ◌&&◌, [], ◌∷◌, ◌⊎◌, inl, inr, Option, none, some, Bytes, Result, ok, err,
  length, take, drop, bytes_beq, nat_beq, if◌then◌else◌,
}
use matrix_meshtastic.External.{Radio}
use matrix_meshtastic.Golang.Base64.{encode_to_string}
use matrix_meshtastic.MeshId.Ids.{parse_portal_id, IdError}

pub record ChannelDef : Type 0 where
  pub name : Bytes
  pub key : Option Bytes
  pub key_bytes : Bytes

unfoldable pub get_key_string : ChannelDef → Bytes
get_key_string c = elim c.key [ none ↦ [] | some key ↦ key ]

-- `psk[len(psk)-1] += d` on bytes.
bump_last : ℕ → Bytes → Bytes
bump_last d [] = []
bump_last d (b ∷ []) = ((b + d) % 256) ∷ []
bump_last d (b ∷ c ∷ s) = b ∷ bump_last d (c ∷ s)

module _ (radio : Radio) where
  -- Index 0 means that encryption is off.
  expand_short_psk : Bytes → Bytes
  unfolding bump_last
  expand_short_psk (index ∷ []) =
      if nat_beq index 0 then [] else bump_last (index - 1) radio.default_key
  expand_short_psk _ = []

  -- The bytes of a key that its text spells: the last one alone, if the others are the default
  -- key's.
  unfoldable pub encoded_key : Bytes → Bytes
  encoded_key key_bytes =
      if nat_beq (length key_bytes) (length radio.default_key)
        && bytes_beq (take (length key_bytes - 1) key_bytes)
            (take (length radio.default_key - 1) radio.default_key)
      then drop (length key_bytes - 1) key_bytes
      else key_bytes

  try_compact_key : Bytes → Option Bytes
  unfolding encoded_key
  try_compact_key [] = none
  try_compact_key (b ∷ s) = some (encode_to_string (encoded_key (b ∷ s)))

  expanded : Bytes → Bytes
  unfolding expand_short_psk
  expanded key_bytes =
      if nat_beq (length key_bytes) 1 then expand_short_psk key_bytes else key_bytes

  channel_of : Bytes → Bytes → ChannelDef
  unfolding try_compact_key
  channel_of name key_bytes = record {
    name = name;
    key = try_compact_key key_bytes;
    key_bytes = key_bytes;
  }

  parsed_channel : Bytes → Result Bytes → Result ChannelDef
  unfolding channel_of expanded
  parsed_channel name (err e) = err e
  parsed_channel name (ok key_bytes) = ok (channel_of name (expanded key_bytes))

  unfoldable pub new_channel_def : Bytes → Option Bytes → Result ChannelDef
  unfolding parsed_channel
  new_channel_def name none = ok (channel_of name [])
  new_channel_def name (some []) = ok (channel_of name [])
  new_channel_def name (some (c ∷ s)) = parsed_channel name (radio.parse_key (c ∷ s))

  portal_channel : Bytes × Bytes × Option IdError → Result ChannelDef ⊎ IdError
  unfolding new_channel_def
  portal_channel (name, key, some e) = inr e
  portal_channel (name, key, none) = inl (new_channel_def name (some key))

  unfoldable pub channel_def_from_portal_id : Bytes → Result ChannelDef ⊎ IdError
  unfolding portal_channel
  channel_def_from_portal_id portal_id = portal_channel (parse_portal_id portal_id)
