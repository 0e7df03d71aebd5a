-- ===== src/Tests/Channels.antt =====
-- The text of a channel's key at concrete values (pkg/meshid/channel_def.go).
use matrix_meshtastic.Prelude.{
  ◌≡◌, refl, sym, ap, if◌then◌else◌, bytes_beq, [], ◌∷◌, none, some, codes, arith, ok,
}
use matrix_meshtastic.Golang.Base64.{encode_to_string}
use matrix_meshtastic.External.{Radio}
use matrix_meshtastic.MeshId.Channel.{ChannelDef, encoded_key, new_channel_def, get_key_string}
use matrix_meshtastic.MeshId.Channel.Canonical.{
  new_channel_def-get_key_string, new_channel_def-get_key_string_zero,
}
use matrix_meshtastic.Tests.Fixture.{the_radio}

-- Every text spells a key of three bytes that is not the default one.
abbrev long_radio : Radio
long_radio = record the_radio { parse_key = λ s. ok (1 ∷ 2 ∷ 3 ∷ []) }

abbrev long_channel : ChannelDef
long_channel = record { name = codes "Lo"; key = some (codes "AQID"); key_bytes = 1 ∷ 2 ∷ 3 ∷ [] }

made_long : new_channel_def long_radio (codes "Lo") (some (codes "AQID")) ≡ ok long_channel
unfolding new_channel_def encoded_key encode_to_string
made_long = refl

encoded_long : encoded_key long_radio (1 ∷ 2 ∷ 3 ∷ []) ≡ 1 ∷ 2 ∷ 3 ∷ []
unfolding encoded_key
encoded_long = refl

new_channel_def-get_key_string_example :
    new_channel_def long_radio (codes "Lo") (some (get_key_string long_channel)) ≡ ok long_channel
new_channel_def-get_key_string_example =
    new_channel_def-get_key_string long_radio (7 ∷ 9 ∷ []) refl (λ e. cc) (codes "Lo")
      (some (codes "AQID")) long_channel made_long (ap ok (sym encoded_long))
      (omega arith, (omega arith, (omega arith, tt))) (λ e. cc (e, encoded_long))

-- One text spells the default key with a last byte of 0, all others the single byte 0.
abbrev zero_radio : Radio
zero_radio = record the_radio {
  parse_key = λ s. if bytes_beq s (codes "BwkA") then ok (7 ∷ 9 ∷ 0 ∷ []) else ok (0 ∷ []);
}

abbrev zero_channel : ChannelDef
zero_channel = record { name = codes "Lo"; key = some (codes "AA=="); key_bytes = 7 ∷ 9 ∷ 0 ∷ [] }

made_zero : new_channel_def zero_radio (codes "Lo") (some (codes "BwkA")) ≡ ok zero_channel
unfolding new_channel_def encoded_key encode_to_string
made_zero = refl

encoded_zero : encoded_key zero_radio (7 ∷ 9 ∷ 0 ∷ []) ≡ 0 ∷ []
unfolding encoded_key
encoded_zero = refl

new_channel_def-get_key_string_zero_example :
    new_channel_def zero_radio (codes "Lo") (some (get_key_string zero_channel))
    ≡ ok (record { name = codes "Lo"; key = none; key_bytes = [] })
unfolding get_key_string
new_channel_def-get_key_string_zero_example =
    new_channel_def-get_key_string_zero zero_radio (7 ∷ 9 ∷ []) refl (λ e. cc) (codes "Lo")
      (some (codes "BwkA")) zero_channel made_zero refl (ap ok (sym encoded_zero))
