-- ===== src/Bridge/Startup/Validation.antt =====
-- What `ValidateConfig` of pkg/connector/config.go lets through.
use matrix_meshtastic.Prelude.{
  ◌<◌, ◌≤◌, ◌≡◌, ◌≢◌, arith, ◌⊎◌, inl, inr, Bool-cases, true, [], none, length, bytes_beq_iff,
}
use matrix_meshtastic.MeshId.Ids.{max_hops}
use matrix_meshtastic.Mesh.World.{World}
use matrix_meshtastic.Mesh.Connection.{set_hop_limit}
use matrix_meshtastic.Bridge.Hub.{Config}
use matrix_meshtastic.Bridge.Startup.{validate_config}

-- Names that fit into node info, a hop limit that the client takes, and a way to the mesh.
pub record IsUsable (c : Config) : Type 0 where
  pub named : c.long_name ≢ []
  pub short_named : c.short_name ≢ []
  pub long_fits : length c.long_name ≤ 39
  pub short_fits : length c.short_name ≤ 4
  pub hops_fit : c.hop_limit < max_hops
  pub reachable : (c.udp ≡ true) ⊎ (c.mqtt_enabled ≡ true)

usable : (c : Config) → validate_config c ≡ none → IsUsable c
unfolding validate_config
usable c e = record {
  named = λ n. ground (arith, bytes_beq_iff c.long_name []);
  short_named = λ n. ground (arith, bytes_beq_iff c.short_name []);
  long_fits = ground arith;
  short_fits = ground arith;
  hops_fit = ground arith;
  reachable = elim (Bool-cases c.udp) [
    | inl udp ↦ inl udp
    | inr no_udp ↦ elim (Bool-cases c.mqtt_enabled) [
      | inl mqtt ↦ inr mqtt
      | inr no_mqtt ↦ absurd (ground arith)
    ]
  ];
}

validated : (c : Config) → IsUsable c → validate_config c ≡ none
unfolding validate_config
validated c u =
    ground (arith, bytes_beq_iff c.long_name [], bytes_beq_iff c.short_name [], u.reachable)

-- A configuration passes exactly if both names are there and fit into node info, the hop limit is below
-- the maximum, and UDP or MQTT is on; and then the client takes the hop limit.
pub validate_config-IsUsable :
    (c : Config) (w : World)
    → (validate_config c ≡ none → IsUsable c)
      × (IsUsable c → validate_config c ≡ none)
      × (validate_config c ≡ none
          → set_hop_limit c.hop_limit w
            ≡ (none, record w { client = record w.client { hop_limit = c.hop_limit } }))
validate_config-IsUsable c w = (
  usable c,
  validated c,
  λ e. let fits = (usable c e).hops_fit in unfold set_hop_limit in ground arith,
)
