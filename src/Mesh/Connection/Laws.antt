-- ===== src/Mesh/Connection/Laws.antt =====
-- Connecting, the changes that connectors report, and the hop limit (pkg/mesh/mesh_client.go).
use matrix_meshtastic.Prelude.{
  ℕ, ◌≤◌, ◌<◌, ◌≡◌, ◌↔◌, ◌⊎◌, inl, inr, refl, true, false, List, [], ◌∷◌, ◌++◌, Option, none, some,
  Bytes, Error, All, append_assoc, length, nat_beq, nat_beq_iff, is_some, Bool-cases, arith,
}
use matrix_meshtastic.External.{Libraries}
use matrix_meshtastic.MeshId.Ids.{max_hops}
use matrix_meshtastic.MeshId.Channel.{ChannelDef}
use matrix_meshtastic.Mesh.Events.{event_started}
use matrix_meshtastic.Mesh.World.{MeshConnector, on_connect, World}
use matrix_meshtastic.Mesh.Send.{PacketInfo, send_bytes, join_errors}
use matrix_meshtastic.Mesh.Send.Delivery.{Silent, Transmission, send_bytes_cases}
use matrix_meshtastic.Mesh.Connection.{
  start_errors, start_all, connect_with, connect, connected_count, tell_connect, first_connection,
  tell_change, handle_connector_state_change, set_hop_limit,
}

start_errors-fewer : (hs : List MeshConnector) → length (start_errors hs) ≤ length hs
unfolding start_errors
start_errors-fewer [] = omega arith
start_errors-fewer (h ∷ hs) = ground (arith, start_errors-fewer hs)

abbrev pub FailsToStart : MeshConnector → Type 0
FailsToStart h = is_some h.start ≡ true

failing_starts :
    (hs : List MeshConnector) → All FailsToStart hs → length (start_errors hs) ≡ length hs
unfolding start_errors
failing_starts [] f = refl
failing_starts (h ∷ hs) f = ground (arith, failing_starts hs f.1)

starts_failing :
    (hs : List MeshConnector) → length (start_errors hs) ≡ length hs → All FailsToStart hs
unfolding start_errors
starts_failing [] e = tt
starts_failing (h ∷ hs) e = (
  ground (arith, start_errors-fewer hs),
  starts_failing hs (ground (arith, start_errors-fewer hs)),
)

joined_error : (es : List Error) → 0 < length es → is_some (join_errors es) ≡ true
joined_error [] pos = absurd (omega arith)
joined_error (e ∷ es) pos = refl

no_joined_error : (es : List Error) → is_some (join_errors es) ≡ true → 0 < length es
no_joined_error [] found = absurd (cc)
no_joined_error (e ∷ es) found = omega arith

start_fails_iff :
    (hs : List MeshConnector) (w : World)
    → (is_some (start_all hs w).0 ≡ true) ↔ ((0 < length hs) × All FailsToStart hs)
unfolding start_all
start_fails_iff hs w = elim (Bool-cases (nat_beq (length (start_errors hs)) (length hs))) [
  | inl all ↦
      let e = (nat_beq_iff (length (start_errors hs)) (length hs)).0 all in
      rw all (
        λ failed. (omega (arith, no_joined_error (start_errors hs) failed, e), starts_failing hs e),
        λ f. joined_error (start_errors hs) (omega (arith, f.0, e)),
      )
  | inr some_start ↦ rw some_start (
    λ failed. absurd (cc),
    λ f.
        absurd (
          ground
            (arith, failing_starts hs f.1, nat_beq_iff (length (start_errors hs)) (length hs))),
  )
]

fails_iff :
    (channel : Option ChannelDef) (hs : List MeshConnector) (w : World)
    → (is_some (connect_with channel hs w).0 ≡ true)
      ↔ ((is_some channel ≡ false) ⊎ ((0 < length hs) × All FailsToStart hs))
unfolding connect_with
fails_iff none hs w = (λ failed. inl refl, λ f. refl)
fails_iff (some channel) hs w =
    let iff = start_fails_iff hs w in
    (λ failed. inr (iff.0 failed), λ f. elim f [ inl unset ↦ absurd cc | inr all ↦ iff.1 all ])

-- `Connect` returns an error exactly if no primary channel is set, or there are connectors and none
-- of them starts.
pub connect_fails_iff :
    (w : World)
    → (is_some (connect w).0 ≡ true) ↔ (
        (is_some w.client.primary_channel ≡ false)
        ⊎ ((0 < length w.client.mesh_connectors) × All FailsToStart w.client.mesh_connectors))
unfolding connect connect_with start_all
connect_fails_iff w = fails_iff w.client.primary_channel w.client.mesh_connectors w

-- The first start of a connector, of a client with a connect handler that was never connected and
-- has no other connected connector, calls the handler twice.
pub first_start_connects_twice :
    (mh : MeshConnector) (w : World)
    → w.client.previously_connected ≡ false
    → w.client.has_connect_handler ≡ true
    → connected_count mh.ident w.client.mesh_connectors ≡ 0
    → (handle_connector_state_change mh event_started w).1.effects
      ≡ w.effects ++ on_connect false ∷ on_connect false ∷ []
unfolding handle_connector_state_change tell_connect first_connection tell_change
first_start_connects_twice mh w never handler alone =
    rw (
      never,
      handler,
      alone,
      append_assoc w.effects (on_connect false ∷ []) (on_connect false ∷ []),
    )

-- Whatever hop limit is asked for, one that is below the maximum stays so, and what is sent next
-- starts with at most the maximum number of hops, three bits of the packet's header.
pub sent_hops_fit :
    (lib : Libraries) (channel : Option ChannelDef) (raw : Bytes) (info : PacketInfo) (n : ℕ)
    (w : World)
    → w.client.hop_limit < max_hops
    → let w' = (set_hop_limit n w).1 in
      let r = send_bytes lib channel raw info w' in
      Silent w' r
      ⊎ ((t : Transmission lib raw info w' r) × (t.packet.hop_limit < max_hops)
          × (t.packet.hop_start ≤ max_hops))
unfolding set_hop_limit
sent_hops_fit lib channel raw info n w low =
    let w' = (set_hop_limit n w).1 in
    let still : w'.client.hop_limit < max_hops = ground arith in
    elim (send_bytes_cases lib channel raw info w') [
      | inl silent ↦ inl silent
      | inr t ↦
          inr (t, omega (arith, still, t.hops), omega (arith, still, t.hops, t.one_hop_more.1))
    ]
