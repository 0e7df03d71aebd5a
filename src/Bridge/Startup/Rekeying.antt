-- ===== src/Bridge/Startup/Rekeying.antt =====
-- The IDs of portals once their keys have been spelt anew (`onMeshConnected` of
-- pkg/connector/connector.go).
use matrix_meshtastic.Prelude.{
  ℕ, ◌<◌, ◌≡◌, ◌≢◌, refl, [], ◌∷◌, ◌++◌, Option, some, Bytes, ok, All, Lacks, bytes_beq_iff,
}
use matrix_meshtastic.MeshId.Ids.{make_portal_id}
use matrix_meshtastic.MeshId.Ids.RoundTrip.{parse_portal_id-make_portal_id}
use matrix_meshtastic.MeshId.Channel.{ChannelDef, get_key_string, encoded_key, new_channel_def}
use matrix_meshtastic.MeshId.Channel.Canonical.{new_channel_def-get_key_string}
use matrix_meshtastic.Mesh.Connection.{add_channel_def}
use matrix_meshtastic.Bridge.Hub.{Outside, Portal, Hub, ◌>>=◌, mesh}
use matrix_meshtastic.Bridge.Startup.{rejoin_portals, move_portal}

-- A portal under the ID that spells its channel's key.
abbrev pub under_key : Portal → Bytes → ChannelDef → Portal
under_key p name channel = record p {
  key = record p.key { id = make_portal_id name (some (get_key_string channel)) };
}

module _ (o : Outside) where
  -- A library that reads back the key's text, and texts that a portal ID can hold.
  pub record IsSpellable (prefix name : Bytes) (channel : ChannelDef) : Type 0 where
    pub default_key : o.lib.radio.default_key ≡ prefix ++ 1 ∷ []
    pub longer : prefix ≢ []
    pub reads_back :
        o.lib.radio.parse_key (get_key_string channel)
        ≡ ok (encoded_key o.lib.radio channel.key_bytes)
    pub of_bytes : All (λ b. b < 256) channel.key_bytes
    pub not_zero : encoded_key o.lib.radio channel.key_bytes ≢ 0 ∷ []
    pub plain_name : Lacks b'|' name
    pub plain_key : Lacks b'|' (get_key_string channel)

  unmoved :
      (p : Portal) (name : Bytes) (channel : ChannelDef) (h : Hub)
      → move_portal o p name (get_key_string channel) channel h ≡ (some tt, h)
  unmoved p name channel h =
      rw ((bytes_beq_iff (get_key_string channel) (get_key_string channel)).1 refl) refl

  -- A portal whose ID spells its channel's key in the form that the program gives it is not moved
  -- again: its channel is made as before and joined. The conditions are that NewChannelDef made the
  -- channel from its name and a key, that the library's default key ends in byte 1 and is longer than
  -- that, that the library reads the text of the channel's key back as its bytes, which are bytes and not
  -- the single byte 0 when spelt, and that neither the name nor the text of the key has a `|`.
  pub rekeyed_portal_stays :
      (prefix name : Bytes) (key : Option Bytes) (channel : ChannelDef) (p : Portal) (address : ℕ)
      (h : Hub)
      → new_channel_def o.lib.radio name key ≡ ok channel
      → IsSpellable prefix name channel
      → rejoin_portals o address (under_key p name channel ∷ []) h
        ≡ mesh (add_channel_def (record { address = address; channel = channel })) h
  unfolding rejoin_portals ◌>>=◌
  rekeyed_portal_stays prefix name key channel p address h made s =
      rw
        (
          parse_portal_id-make_portal_id name (get_key_string channel) s.plain_name s.plain_key,
          new_channel_def-get_key_string o.lib.radio prefix s.default_key s.longer name key channel
              made s.reads_back s.of_bytes s.not_zero,
          unmoved (under_key p name channel) name channel h,
        )
        refl
