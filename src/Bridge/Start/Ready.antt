-- ===== src/Bridge/Start/Ready.antt =====
-- The client that the connector starts with (`Start` of pkg/connector/connector.go and
-- `ValidateConfig` of pkg/connector/config.go).
use matrix_meshtastic.Prelude.{
  ℕ, ◌<◌, ◌≡◌, refl, sym, subst, ap, ◌∙◌, arith, ◌⊎◌, inl, inr, Bool, true, false, List, [], ◌∷◌,
  ◌++◌, Option, none, some, ok, length, nat_beq, if◌then◌else◌,
}
use matrix_meshtastic.MeshId.Ids.{NodeId, mxid_to_node_id}
use matrix_meshtastic.MeshId.Channel.{ChannelDef, new_channel_def}
use matrix_meshtastic.Mesh.World.{MeshConnector, MeshtasticClient, World}
use matrix_meshtastic.Mesh.Connection.{new_meshtastic_client, connect}
use matrix_meshtastic.Mesh.Connection.Fresh.{
  with_primary, channelless, set_primary_channel_lem, connect-client,
}
use matrix_meshtastic.Bridge.Hub.{
  Config, Outside, Hub, Task, continue, ◌>>=◌, ◌>>◌, mesh, skip, the_config,
}
use matrix_meshtastic.Bridge.Managed.{get_base_node_id}
use matrix_meshtastic.Bridge.Startup.{validate_config}
use matrix_meshtastic.Bridge.Startup.Validation.{validate_config-IsUsable}
use matrix_meshtastic.Bridge.Start.{
  Handlers, handlers_of, with_handlers, with_providers, in_world, make_client, join_primary,
  change_client, set_up, start,
}

connectors_there :
    (udp mqtt : Bool) (a b : MeshConnector)
    → (udp ≡ true) ⊎ (mqtt ≡ true)
    → 0 < length ((if udp then a ∷ [] else []) ++ (if mqtt then b ∷ [] else []))
connectors_there true true a b h = omega arith
connectors_there true false a b h = omega arith
connectors_there false true a b h = omega arith
connectors_there false false a b (inl e) = cc
connectors_there false false a b (inr e) = cc

abbrev pub switched_on : Bool → Bool → Handlers → List MeshConnector
switched_on true true k = k.udp_handler ∷ k.mqtt_handler ∷ []
switched_on true false k = k.udp_handler ∷ []
switched_on false true k = k.mqtt_handler ∷ []
switched_on false false k = []

switched_on_lem :
    (udp mqtt : Bool) (k : Handlers)
    → (if udp then k.udp_handler ∷ [] else []) ++ (if mqtt then k.mqtt_handler ∷ [] else [])
      ≡ switched_on udp mqtt k
switched_on_lem true true k = refl
switched_on_lem true false k = refl
switched_on_lem false true k = refl
switched_on_lem false false k = refl

module _ (o : Outside) where
  -- The new client with its hop limit and its handlers.
  abbrev equipped : NodeId → Config → Handlers → World → MeshtasticClient
  equipped base c k w =
      with_handlers c k
        (record (new_meshtastic_client base w.now k.managed) { hop_limit = c.hop_limit })

  made_lem :
      (base : NodeId) (c : Config) (k : Handlers) (h : Hub)
      → validate_config c ≡ none
      → make_client o base c k h
        ≡ (some tt, record h { world = channelless (equipped base c k h.world) h.world })
  unfolding ◌>>=◌
  made_lem base c k h valid =
      let w : World = record h.world {
        client = new_meshtastic_client base h.world.now k.managed;
      } in
      let (usable, accepted, taken) = validate_config-IsUsable c w in rw (taken valid) refl

  -- The client that `Start` leaves.
  abbrev pub ready : ℕ → ChannelDef → NodeId → Config → Handlers → World → MeshtasticClient
  ready address channel base c k w =
      with_providers k (with_primary address channel (equipped base c k w))

  abbrev connect_ready : Handlers → Task (Unit {0})
  connect_ready k = do change_client (with_providers k); mesh connect; skip

  set_up_lem :
      (address : ℕ) (channel : ChannelDef) (base : NodeId) (c : Config) (k : Handlers) (h : Hub)
      → validate_config c ≡ none
      → new_channel_def o.lib.radio c.primary_name (some c.primary_key) ≡ ok channel
      → let r = set_up o address k base c h in
        (r.0 ≡ some tt) × (r.1.world.client ≡ ready address channel base c k h.world)
  unfolding ◌>>=◌
  set_up_lem address channel base c k h valid made =
      let (w', joined, client) =
        set_primary_channel_lem o.lib address c.primary_name c.primary_key channel
          (equipped base c k h.world) h.world made in
      let with_client : Hub = record h {
        world = channelless (equipped base c k h.world) h.world;
      } in
      let first : set_up o address k base c h
          ≡ (join_primary o address c >> connect_ready k) with_client =
        ap
          (λ (r : Option (Unit {0}) × Hub).
            continue r.0 (λ (u : Unit {0}). join_primary o address c >> connect_ready k) r.1)
          (made_lem base c k h valid) in
      let second : (join_primary o address c >> connect_ready k) with_client
          ≡ connect_ready k (record with_client { world = w' }) =
        ap
          (λ (w : Option World).
            let r = in_world w with_client in continue r.0 (λ (u : Unit {0}). connect_ready k) r.1)
          joined in
      let whole = first ∙ second in
      (
        ap (λ (r : Option (Unit {0}) × Hub). r.0) whole,
        ap (λ (r : Option (Unit {0}) × Hub). r.1.world.client) whole
            ∙ connect-client _
            ∙ ap (with_providers k) client,
      )

  abbrev asked : Bool → Hub → Option NodeId × Hub
  asked unset h =
      if unset
      then (
        some (mxid_to_node_id o.bot_mxid),
        record h { base_node_id = mxid_to_node_id o.bot_mxid },
      )
      else (some h.base_node_id, h)

  asked_lem :
      (unset : Bool) (h : Hub)
      → (base : NodeId) × (h' : Hub) × (asked unset h ≡ (some base, h'))
        × (h'.config ≡ h.config)
        × (h'.world ≡ h.world)
  asked_lem true h = (
    mxid_to_node_id o.bot_mxid,
    record h { base_node_id = mxid_to_node_id o.bot_mxid },
    refl,
    refl,
    refl,
  )
  asked_lem false h = (h.base_node_id, h, refl, refl, refl)

  base_lem : (h : Hub) → get_base_node_id o h ≡ asked (nat_beq h.base_node_id 0) h
  unfolding get_base_node_id
  base_lem h = refl

  pub valid_config_starts :
      (address : ℕ) (channel : ChannelDef) (k : Handlers) (h : Hub)
      → validate_config h.config ≡ none
      → new_channel_def o.lib.radio h.config.primary_name (some h.config.primary_key) ≡ ok channel
      → let r = start o address k h in
        let client = r.1.world.client in
        (r.0 ≡ some tt)
        × (client.hop_limit ≡ h.config.hop_limit)
        × (client.primary_channel ≡ some channel)
        × (0 < length client.mesh_connectors)
        × (client.mesh_connectors ≡ switched_on h.config.udp h.config.mqtt_enabled k)
        × (client.has_connect_handler ≡ true)
        × (client.has_disconnect_handler ≡ true)
        × (client.managed_node_func ≡ k.managed)
        × (client.pub_key_request_handler ≡ some k.public_key)
        × (client.priv_key_request_handler ≡ some k.private_key)
        × (client.neighbor_provider ≡ some k.neighbors)
        × (client.neighbor_broadcast_interval ≡ some 43231)
  unfolding start ◌>>=◌
  valid_config_starts address channel k h valid made =
      let (base, h', e, config, world) = asked_lem (nat_beq h.base_node_id 0) h in
      let (done, client) =
        set_up_lem address channel base h'.config k h' (ap validate_config config ∙ valid) (
          ap (λ (c : Config). new_channel_def o.lib.radio c.primary_name (some c.primary_key))
            config
          ∙ made) in
      let first : start o address k h ≡ set_up o address k base h'.config h' =
        ap
          (λ (r : Option NodeId × Hub).
            continue r.0 (λ (n : NodeId). the_config >>= λ c. set_up o address k n c) r.1)
          (base_lem h ∙ e) in
      let (usable, accepted, taken) = validate_config-IsUsable h'.config h.world in
      let there : 0 < length (handlers_of h'.config k) =
        connectors_there h'.config.udp h'.config.mqtt_enabled k.udp_handler k.mqtt_handler
          (usable (ap validate_config config ∙ valid)).reachable in
      let result = ap (λ (r : Option (Unit {0}) × Hub). r.1.world.client) first ∙ client in
      (
        ap (λ (r : Option (Unit {0}) × Hub). r.0) first ∙ done,
        ap (λ (c : MeshtasticClient). c.hop_limit) result ∙ ap (λ (c : Config). c.hop_limit) config,
        ap (λ (c : MeshtasticClient). c.primary_channel) result,
        subst (λ n. 0 < n) (sym (ap (λ (c : MeshtasticClient). length c.mesh_connectors) result))
            there,
        ap (λ (c : MeshtasticClient). c.mesh_connectors) result
            ∙ ap (λ (c : Config). handlers_of c k) config
            ∙ switched_on_lem h.config.udp h.config.mqtt_enabled k,
        ap (λ (c : MeshtasticClient). c.has_connect_handler) result,
        ap (λ (c : MeshtasticClient). c.has_disconnect_handler) result,
        ap (λ (c : MeshtasticClient). c.managed_node_func) result,
        ap (λ (c : MeshtasticClient). c.pub_key_request_handler) result,
        ap (λ (c : MeshtasticClient). c.priv_key_request_handler) result,
        ap (λ (c : MeshtasticClient). c.neighbor_provider) result,
        ap (λ (c : MeshtasticClient). c.neighbor_broadcast_interval) result,
      )
