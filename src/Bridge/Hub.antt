-- ===== src/Bridge/Hub.antt =====
-- The state of `MeshtasticConnector` (pkg/connector/connector.go) with the tables and the client of the
-- mesh, as a state monad in which code may panic. The bridge framework (maunium.net/go/mautrix) is a
-- parameter: what it answers is a function of the calls made to it so far.
pub mod Offline
use matrix_meshtastic.Prelude.{
  ℕ, suc, ◌/◌, Bool, List, [], ◌∷◌, ◌++◌, Option, none, some, Bytes, Error, Result,
}
use matrix_meshtastic.External.{Libraries}
use matrix_meshtastic.MeshId.Ids.{NodeId}
use matrix_meshtastic.Mesh.Events.{MeshMessageEvent}
use matrix_meshtastic.Mesh.World.{second, Action, World}
use matrix_meshtastic.Bridge.Database.{Tables, Query}
use matrix_meshtastic.Bridge.Tracker.{TracerouteTracker}

-- pkg/connector/config.go
pub record Config : Type 0 where
  pub long_name : Bytes
  pub short_name : Bytes
  pub hop_limit : ℕ
  pub udp : Bool
  pub mqtt_enabled : Bool
  pub primary_name : Bytes  -- of the primary channel
  pub primary_key : Bytes
  pub inactivity_threshold : ℕ  -- days; 0 stands for every value that is not positive

-- A ghost of the framework. Its user is `none` when the metadata is not a `GhostMetadata`.
pub record Ghost : Type 0 where
  pub id : Bytes
  pub name : Bytes
  pub name_set : Bool
  pub user_mxid : Option Bytes

pub record PortalKey : Type 0 where
  pub id : Bytes
  pub receiver : Bytes

pub data RoomType : Type 0 where
  default_room dm_room other_room : RoomType

pub record Portal : Type 0 where
  pub key : PortalKey
  pub mxid : Bytes
  pub room_type : RoomType

pub record EventSender : Type 0 where
  pub is_from_me : Bool
  pub sender : Bytes
  pub sender_login : Bytes

pub data RemoteEvent : Type 0 where
  remote_message : PortalKey → RoomType → EventSender → ℕ → Bytes → MeshMessageEvent → RemoteEvent
  remote_reaction : PortalKey → EventSender → ℕ → Bytes → Bytes → RemoteEvent

-- A call of the framework that changes something in it.
pub data BridgeCall : Type 0 where
  got_ghost : Bytes → BridgeCall  -- GetGhostByID makes the ghost that is missing
  updated_info : Bytes → Bytes → Option Bytes → BridgeCall  -- UpdateInfo: the name, the user
  queued : Bytes → RemoteEvent → BridgeCall  -- QueueRemoteEvent of a login
  info_changed : Bytes → PortalKey → Option Bytes → BridgeCall  -- a login is told a portal's new name
  left_room : Bytes → Bytes → BridgeCall  -- LeaveRoom of a member
  noticed : Bytes → Bytes → BridgeCall  -- a notice in a room
  re_keyed : PortalKey → PortalKey → BridgeCall  -- ReIDPortal
  room_created : Bytes → PortalKey → Option Bytes → Bytes → BridgeCall  -- for a login; name, topic

-- What the connector asks the framework and the key generator.
pub record Outside : Type 0 where
  pub lib : Libraries
  pub generate_key_pair : ℕ → Result (Bytes × Bytes)  -- public and private, at a draw
  pub bot_mxid : Bytes
  pub split_portals : Bool
  pub get_existing_ghost_by_id : List BridgeCall → Bytes → Result (Option Ghost)
  pub get_ghost_by_id : List BridgeCall → Bytes → Result Ghost
  pub updated_ghost : Ghost → Bytes → Ghost  -- after UpdateInfo with a name
  pub get_user_logins_in_portal : List BridgeCall → PortalKey → Result (List Bytes)
  pub get_dm_portals_with : List BridgeCall → Bytes → List PortalKey  -- none beside an error
  pub get_all_portals_with_mxid : List BridgeCall → Result (List Portal)
  pub joined_members : List BridgeCall → Bytes → Result (List Bytes)
  pub parse_ghost_mxid : Bytes → Option Bytes
  pub leave_room : List BridgeCall → Bytes → Bytes → Option Error
  -- the last message and the last reaction of a sender in a portal, in nanoseconds
  pub last_message : List BridgeCall → PortalKey → Bytes → Result (Option ℕ)
  pub last_reaction : List BridgeCall → PortalKey → Bytes → Result (Option ℕ)

pub record Hub : Type 0 where
  pub config : Config
  pub world : World
  pub tables : Tables
  pub base_node_id : NodeId  -- 0 until it is asked for
  pub managed_node_cache : List (NodeId × Bool)
  pub tracker : TracerouteTracker
  pub calls : List BridgeCall
  pub key_draws : ℕ
  pub requested : List Bytes  -- ghosts whose `requestGhostNodeInfo` was started as a goroutine

-- `none`: the code has panicked. What it has done before stays done.
abbrev pub Task : Type 0 → Type 0
Task A = Hub → Option A × Hub

abbrev pub continue : {A B : Type 0} → Option A → (A → Task B) → Task B
continue none f h = (none, h)
continue (some a) f h = f a h

infixl 5 ◌>>=◌ ◌>>◌
unfoldable pub ◌>>=◌ : {A B : Type 0} → Task A → (A → Task B) → Task B
◌>>=◌ m f h = let (a, h') = m h in continue a f h'

abbrev pub ◌>>◌ : {A B : Type 0} → Task A → Task B → Task B
m >> k = m >>= λ _. k

abbrev pub return : {A : Type 0} → A → Task A
return a h = (some a, h)

abbrev pub skip : Task (Unit {0})
skip h = (some tt, h)

abbrev pub panic : {A : Type 0} → Task A
panic h = (none, h)

-- A method of the mesh client.
abbrev pub mesh : {A : Type 0} → Action A → Task A
mesh m h = let (a, w) = m h.world in (some a, record h { world = w })

-- A statement on the tables.
abbrev pub query : {A : Type 0} → Query A → Task (Result A)
query q h = let (r, t) = q h.tables in (some r, record h { tables = t })

-- A question to the framework.
abbrev pub ask : {A : Type 0} → (List BridgeCall → A) → Task A
ask f h = (some (f h.calls), h)

abbrev pub tell : BridgeCall → Task (Unit {0})
tell c h = (some tt, record h { calls = h.calls ++ c ∷ [] })

-- `time.Now().Unix()`
abbrev pub now_seconds : Task ℕ
now_seconds h = (some (h.world.now / second), h)

abbrev pub the_config : Task Config
the_config h = (some h.config, h)

module _ (o : Outside) where
  abbrev pub key_pair : Task (Result (Bytes × Bytes))
  key_pair h = (some (o.generate_key_pair h.key_draws), record h { key_draws = suc h.key_draws })

  -- `GetGhostByID`, which makes a ghost that is missing.
  abbrev pub ghost_by_id : Bytes → Task (Result Ghost)
  ghost_by_id id h =
      (some (o.get_ghost_by_id h.calls id), record h { calls = h.calls ++ got_ghost id ∷ [] })
