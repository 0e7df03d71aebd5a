-- ===== src/Mesh/World.antt =====
-- The state of `MeshtasticClient` (pkg/mesh/mesh_client.go) and what its methods do to the world
-- outside, as a state monad. Time is in nanoseconds and reads the same during one call.
use matrix_meshtastic.Prelude.{
  ℕ, suc, ◌*◌, ◌≤◌, ◌≡◌, ◌∙◌, refl, sym, ap, append-nil, append_assoc, All, All-append, Bool, List,
  [], ◌∷◌, ◌++◌, Option, Bytes, Error,
}
use matrix_meshtastic.External.{MeshPacket, PacketCache}
use matrix_meshtastic.MeshId.Ids.{NodeId}
use matrix_meshtastic.MeshId.Channel.{ChannelDef}
use matrix_meshtastic.Mesh.Events.{Event}

abbrev pub second : ℕ
second = 1_000_000_000

abbrev pub minute : ℕ
minute = 60 * second

-- What the client sees of a connector (pkg/mesh/connectors/connector.go), with how its `Start` and
-- `SendPacket` end. `ident` stands for the pointer.
pub record MeshConnector : Type 0 where
  pub ident : ℕ
  pub connected : Bool
  pub start : Option Error
  pub send_packet : Bytes → MeshPacket → Option Error

-- A channel definition behind its pointer, by which definitions are compared.
pub record ChannelRef : Type 0 where
  pub address : ℕ
  pub channel : ChannelDef

-- pkg/mesh/data_requests.go
pub record RequestThrottle : Type 0 where
  pub last_telemetry : List (NodeId × ℕ)
  pub last_neighbor : List (NodeId × ℕ)
  pub throttle_period : ℕ

pub record MeshtasticClient : Type 0 where
  pub start_time : ℕ
  pub node_id : NodeId
  pub channels : List ChannelRef
  pub current_packet_id : ℕ
  pub primary_channel : Option ChannelDef
  pub hop_limit : ℕ
  pub previously_connected : Bool
  pub managed_node_func : NodeId → Bool
  pub has_connect_handler : Bool
  pub has_disconnect_handler : Bool
  pub pub_key_request_handler : Option (NodeId → Option Bytes)
  pub priv_key_request_handler : Option (NodeId → Option Bytes)
  pub packet_cache : PacketCache
  pub node_info_send_cache : List (NodeId × ℕ)
  pub mesh_connectors : List MeshConnector
  pub request_throttle : RequestThrottle
  pub neighbor_provider : Option (NodeId → List NodeId)
  pub neighbor_broadcast_interval : Option ℕ

-- What a method does outside the client, in order.
pub data Effect : Type 0 where
  sent : ℕ → Bytes → MeshPacket → Effect  -- SendPacket of the connector
  listens : ℕ → Bytes → Effect  -- AddChannel of the connector
  started : ℕ → Effect  -- Start of the connector
  stopped : ℕ → Effect  -- Stop of the connector
  notified : Event → Effect  -- every event handler is called
  on_connect : Bool → Effect  -- the connect handler is called
  on_disconnect : Effect  -- the disconnect handler is called

pub record World : Type 0 where
  pub client : MeshtasticClient
  pub now : ℕ
  pub random : ℕ → ℕ  -- the results of `rand.Uint32`, in order
  pub drawn : ℕ
  pub effects : List Effect

abbrev pub Action : Type 0 → Type 0
Action A = World → A × World

infixl 5 ◌>>=◌ ◌>>◌
abbrev pub ◌>>=◌ : {A B : Type 0} → Action A → (A → Action B) → Action B
◌>>=◌ m f w = let (a, w') = m w in f a w'

abbrev pub ◌>>◌ : {B : Type 0} → Action (Unit {0}) → Action B → Action B
◌>>◌ m k w = k (m w).1

abbrev pub return : {A : Type 0} → A → Action A
return a w = (a, w)

abbrev pub skip : Action (Unit {0})
skip w = (tt, w)

abbrev pub emit : Effect → Action (Unit {0})
emit e w = (tt, record w { effects = w.effects ++ e ∷ [] })

abbrev pub emit_all : List Effect → Action (Unit {0})
emit_all es w = (tt, record w { effects = w.effects ++ es })

abbrev pub draw : Action ℕ
draw w = (w.random w.drawn, record w { drawn = suc w.drawn })

abbrev pub the_client : Action MeshtasticClient
the_client w = (w.client, w)

abbrev pub read_clock : Action ℕ
read_clock w = (w.now, w)

abbrev pub put_client : MeshtasticClient → Action (Unit {0})
put_client c w = (tt, record w { client = c })

-- What of a client never changes while it sends and answers: all but the last packet ID and the
-- times of the throttle.
abbrev pub settings : MeshtasticClient → MeshtasticClient
settings c = record c {
  current_packet_id = 0;
  request_throttle = record { last_telemetry = []; last_neighbor = []; throttle_period = 0 };
}

abbrev pub IsSent : Effect → Type 0
IsSent (sent ident name packet) = Unit
IsSent (listens ident name) = 1 ≤ 0
IsSent (started ident) = 1 ≤ 0
IsSent (stopped ident) = 1 ≤ 0
IsSent (notified e) = 1 ≤ 0
IsSent (on_connect again) = 1 ≤ 0
IsSent on_disconnect = 1 ≤ 0

-- The settings are as before, and all that happened outside is that packets were sent.
pub record HasOnlySent (w w' : World) : Type 0 where
  pub same_settings : settings w'.client ≡ settings w.client
  pub replies : List Effect
  pub appended : w'.effects ≡ w.effects ++ replies
  pub are_sent : All IsSent replies

pub nothing_sent : (w : World) → HasOnlySent w w
nothing_sent w = record {
  same_settings = refl;
  replies = [];
  appended = sym (append-nil w.effects);
  are_sent = tt;
}

pub then_sent : {u v w : World} → HasOnlySent u v → HasOnlySent v w → HasOnlySent u w
then_sent {u} h k = record {
  same_settings = k.same_settings ∙ h.same_settings;
  replies = h.replies ++ k.replies;
  appended =
      k.appended
      ∙ ap (λ (xs : List Effect). xs ++ k.replies) h.appended
      ∙ append_assoc u.effects h.replies k.replies;
  are_sent = All-append IsSent h.replies k.replies h.are_sent k.are_sent;
}

-- Only the client has changed, and not in its settings.
pub client_changed :
    (w : World) (c : MeshtasticClient)
    → settings c ≡ settings w.client
    → (n : ℕ) → HasOnlySent w (record w { client = c; drawn = n })
client_changed w c h n = record {
  same_settings = h;
  replies = [];
  appended = sym (append-nil w.effects);
  are_sent = tt;
}

abbrev pub OnlySends : {A : Type 0} → Action A → Type 0
OnlySends m = (w : World) → HasOnlySent w (m w).1
