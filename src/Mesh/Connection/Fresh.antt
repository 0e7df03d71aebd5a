-- ===== src/Mesh/Connection/Fresh.antt =====
-- A client that is set up (`SetPrimaryChannel` and `Connect` of pkg/mesh/mesh_client.go).
use matrix_meshtastic.Prelude.{◌≡◌, refl, ap, ◌∙◌, List, [], ◌∷◌, Option, none, some, Bytes, ok, ℕ}
use matrix_meshtastic.External.{Libraries}
use matrix_meshtastic.MeshId.Channel.{ChannelDef, new_channel_def}
use matrix_meshtastic.Mesh.World.{World, MeshConnector, MeshtasticClient}
use matrix_meshtastic.Mesh.Connection.{
  add_channel_def, same_name, join_channel, append_channel, set_primary, set_primary_channel,
  connect, connect_with, start_all,
}

-- The client with one channel, its primary one.
abbrev pub with_primary : ℕ → ChannelDef → MeshtasticClient → MeshtasticClient
with_primary address channel c = record c {
  channels = record { address = address; channel = channel } ∷ [];
  primary_channel = some channel;
}

-- A client that has joined no channel yet.
abbrev pub channelless : MeshtasticClient → World → World
channelless c w = record w { client = record c { channels = [] } }

set_primary_lem :
    (address : ℕ) (channel : ChannelDef) (c : MeshtasticClient) (w : World)
    → (w' : World) × (set_primary address (ok channel) (channelless c w) ≡ some w')
      × (w'.client ≡ with_primary address channel c)
unfolding set_primary add_channel_def same_name join_channel append_channel
set_primary_lem address channel c w = (_, refl, refl)

pub set_primary_channel_lem :
    (lib : Libraries) (address : ℕ) (name key : Bytes) (channel : ChannelDef) (c : MeshtasticClient)
    (w : World)
    → new_channel_def lib.radio name (some key) ≡ ok channel
    → (w' : World) × (set_primary_channel lib address name key (channelless c w) ≡ some w')
      × (w'.client ≡ with_primary address channel c)
unfolding set_primary_channel
set_primary_channel_lem lib address name key channel c w made =
    let (w', e, same) = set_primary_lem address channel c w in
    (w', ap (λ def. set_primary address def (channelless c w)) made ∙ e, same)

connected_client :
    (primary : Option ChannelDef) (hs : List MeshConnector) (w : World)
    → (connect_with primary hs w).1.client ≡ w.client
unfolding connect_with start_all
connected_client none hs w = refl
connected_client (some channel) hs w = refl

pub connect-client : (w : World) → (connect w).1.client ≡ w.client
unfolding connect
connect-client w = connected_client w.client.primary_channel w.client.mesh_connectors w
