-- ===== src/Mesh/Connection/Joining.antt =====
-- What the connectors are told of the channels that the client joins (pkg/mesh/mesh_client.go).
use matrix_meshtastic.Prelude.{
  ℕ, ◌+◌, ◌≡◌, subst, Bool, true, false, ◌&&◌, List, [], ◌∷◌, ◌++◌, map, Option-cases, Bytes,
  Bool-cases, inl, inr, nat_beq, bytes_beq, bytes_beq_iff, is_some, arith, if◌then◌else◌,
}
use matrix_meshtastic.MeshId.Channel.{get_key_string}
use matrix_meshtastic.Mesh.Events.{channel_joined}
use matrix_meshtastic.Mesh.World.{
  MeshConnector, ChannelRef, Effect, sent, listens, started, stopped, notified, on_connect,
  on_disconnect, World,
}
use matrix_meshtastic.Mesh.Connection.{same_name, append_channel, join_channel, add_channel_def}

-- How often the connector is told to listen to a channel.
is_told : ℕ → Bytes → Effect → Bool
is_told ident name (listens i n) = nat_beq i ident && bytes_beq n name
is_told ident name (sent i n packet) = false
is_told ident name (started i) = false
is_told ident name (stopped i) = false
is_told ident name (notified e) = false
is_told ident name (on_connect again) = false
is_told ident name on_disconnect = false

unfoldable pub times_told : ℕ → Bytes → List Effect → ℕ
unfolding is_told
times_told ident name [] = 0
times_told ident name (e ∷ es) =
    let rest = times_told ident name es in if is_told ident name e then 1 + rest else rest

-- How often the connector is in the list.
pub times_added : ℕ → List MeshConnector → ℕ
times_added ident [] = 0
times_added ident (h ∷ hs) =
    let rest = times_added ident hs in if nat_beq h.ident ident then 1 + rest else rest

times_told-append :
    (ident : ℕ) (name : Bytes) (es fs : List Effect)
    → times_told ident name (es ++ fs) ≡ times_told ident name es + times_told ident name fs
unfolding times_told
times_told-append ident name [] fs = omega arith
times_told-append ident name (e ∷ es) fs = ground (arith, times_told-append ident name es fs)

times_told_all :
    (ident : ℕ) (name told : Bytes) (hs : List MeshConnector)
    → times_told ident name (map (λ (h : MeshConnector). listens h.ident told) hs)
      ≡ (if bytes_beq told name then times_added ident hs else 0)
unfolding times_told times_added is_told
times_told_all ident name told [] = ground arith
times_told_all ident name told (h ∷ hs) = ground (arith, times_told_all ident name told hs)

is_known : Bytes → List ChannelRef → Bool
is_known name channels = is_some (same_name name channels)

known-append :
    (name : Bytes) (vs : List ChannelRef) (v : ChannelRef)
    → is_known name (vs ++ v ∷ [])
      ≡ (if is_known name vs then true else bytes_beq v.channel.name name)
unfolding is_known same_name
known-append name [] v = ground arith
known-append name (u ∷ vs) v = ground (arith, known-append name vs v)

-- Every connector was told once, each time that it is in the list, to listen to each channel that
-- the client has joined, and to no other.
unfoldable pub IsTold : World → Type 0
IsTold w =
    (ident : ℕ) (name : Bytes)
    → times_told ident name w.effects ≡ (
        if is_some (same_name name w.client.channels)
        then times_added ident w.client.mesh_connectors
        else 0)

told_of_known :
    (def : ChannelRef) (name : Bytes) (vs : List ChannelRef)
    → is_known def.channel.name vs ≡ true
    → is_known name (vs ++ def ∷ []) ≡ is_known name vs
told_of_known def name vs known = elim (Bool-cases (bytes_beq def.channel.name name)) [
  | inl same ↦
      let e : def.channel.name ≡ name = (bytes_beq_iff def.channel.name name).0 same in
      ground (arith, known-append name vs def, subst (λ n. is_known n vs ≡ true) e known)
  | inr other ↦ ground (arith, known-append name vs def)
]

told_of_new :
    (def : ChannelRef) (name : Bytes) (vs : List ChannelRef) (n : ℕ)
    → is_known def.channel.name vs ≡ false
    → (if is_known name (vs ++ def ∷ []) then n else 0)
      ≡ (if is_known name vs then n else 0) + (if bytes_beq def.channel.name name then n else 0)
told_of_new def name vs n new = elim (Bool-cases (bytes_beq def.channel.name name)) [
  | inl same ↦
      let e : def.channel.name ≡ name = (bytes_beq_iff def.channel.name name).0 same in
      ground (arith, known-append name vs def, subst (λ n. is_known n vs ≡ false) e new)
  | inr other ↦ ground (arith, known-append name vs def)
]

-- Joining a channel keeps this: every connector was told once, each time that it is in the list, to
-- listen to each channel that the client has joined, and to no other.
pub add_channel_def-IsTold :
    (def : ChannelRef) (w : World) → IsTold w → IsTold (add_channel_def def w).1
unfolding IsTold add_channel_def join_channel append_channel is_known times_told is_told
add_channel_def-IsTold def w told ident name =
    let vs = w.client.channels in
    let hs = w.client.mesh_connectors in
    let joined =
      channel_joined
        (record { channel_id = def.channel.name; channel_key = get_key_string def.channel }) in
    let note = times_told-append ident name w.effects (notified joined ∷ []) in
    elim (Option-cases (same_name def.channel.name vs)) [
      | inl new ↦ rw new (
          ground (
            arith,
            note,
            times_told-append ident name (w.effects ++ notified joined ∷ [])
                (map (λ (h : MeshConnector). listens h.ident def.channel.name) hs),
            times_told_all ident name def.channel.name hs,
            told_of_new def name vs (times_added ident hs) (rw new),
            told ident name,
          ))
      | inr (v, found) ↦ elim (Bool-cases (nat_beq v.address def.address)) [
        | inl same ↦ rw (found, same) (ground (arith, note, told ident name))
        | inr other ↦
            rw (found, other, told_of_known def name vs (rw found))
              (ground (arith, note, told ident name))
      ]
    ]
