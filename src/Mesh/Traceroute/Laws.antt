-- ===== src/Mesh/Traceroute/Laws.antt =====
-- Each hop of a route keeps its own signal strength.
use matrix_meshtastic.Prelude.{
  ℕ, ◌+◌, ◌-◌, ◌≡◌, ◌≢◌, inl, inr, List, [], ◌∷◌, ◌++◌, Bool, true, false, arith, length,
  length-append, length-replicate, contains, nat_beq, nat_beq_iff, nat_eq, Bool-cases, replicate,
}
use matrix_meshtastic.Prelude.Int.{ℤ, pos, min_int8}
use matrix_meshtastic.External.{MeshPacket, RouteDiscovery}
use matrix_meshtastic.MeshId.Ids.{NodeId, broadcast_id}
use matrix_meshtastic.Mesh.Events.{NetworkMeshPacket}
use matrix_meshtastic.Mesh.Traceroute.{
  route_of, snr_of, with_route, pad_route, pad_snr, insert_unknown_hops,
  add_node_to_route_if_missing, add_gateway_to_route, request_route, response_route,
}

-- There is one signal strength for each hop.
abbrev IsAligned : Bool → RouteDiscovery → Type 0
IsAligned forward disco = length (snr_of forward disco) ≡ length (route_of forward disco)

length-pad_route :
    (hops : ℕ) (route : List ℕ)
    → length (pad_route hops route) ≡ length route + (hops - length route)
unfolding pad_route
length-pad_route hops route = omega (
  arith,
  length-append route (replicate (hops - length route) broadcast_id),
  length-replicate (hops - length route) broadcast_id,
)

length-pad_snr :
    (snr : List ℤ) (route : List ℕ)
    → length (pad_snr snr route) ≡ length snr + (length route - length snr)
unfolding pad_snr
length-pad_snr snr route = omega (
  arith,
  length-append snr (replicate (length route - length snr) min_int8),
  length-replicate (length route - length snr) min_int8,
)

pad-IsAligned :
    (snr : List ℤ) (route : List ℕ) (hops : ℕ)
    → length snr ≡ length route
    → length (pad_snr snr (pad_route hops route)) ≡ length (pad_route hops route)
pad-IsAligned snr route hops h =
    omega (arith, length-pad_snr snr (pad_route hops route), length-pad_route hops route)

-- Padding one direction.
insert_unknown_hops-IsAligned :
    (packet : MeshPacket) (forward : Bool) (disco : RouteDiscovery)
    → IsAligned forward disco
    → IsAligned forward (insert_unknown_hops packet forward disco)
unfolding insert_unknown_hops
insert_unknown_hops-IsAligned packet true disco h =
    ground
      (arith, pad-IsAligned disco.snr_towards disco.route (packet.hop_start - packet.hop_limit) h)
insert_unknown_hops-IsAligned packet false disco h =
    ground
      (arith, pad-IsAligned disco.snr_back disco.route_back (packet.hop_start - packet.hop_limit) h)

add_node-IsAligned :
    (node : NodeId) (snr : ℤ) (way forward : Bool) (disco : RouteDiscovery)
    → IsAligned way disco
    → IsAligned way (add_node_to_route_if_missing node snr forward disco)
unfolding add_node_to_route_if_missing with_route
add_node-IsAligned node snr true true disco h =
    ground
      (arith, length-append disco.route (node ∷ []), length-append disco.snr_towards (snr ∷ []))
add_node-IsAligned node snr true false disco h = ground arith
add_node-IsAligned node snr false true disco h = ground arith
add_node-IsAligned node snr false false disco h =
    ground
      (arith, length-append disco.route_back (node ∷ []), length-append disco.snr_back (snr ∷ []))

add_gateway-IsAligned :
    (packet : NetworkMeshPacket) (forward : Bool) (disco : RouteDiscovery)
    → IsAligned forward disco
    → IsAligned forward (add_gateway_to_route packet forward disco)
unfolding add_gateway_to_route
add_gateway-IsAligned packet forward disco h =
    ground (arith, add_node-IsAligned packet.gateway_node packet.rx_snr forward forward disco h)

known-IsAligned :
    (packet : NetworkMeshPacket) (forward : Bool) (disco : RouteDiscovery)
    → IsAligned forward disco
    → IsAligned forward
        (add_gateway_to_route packet forward (insert_unknown_hops packet.mesh_packet forward disco))
known-IsAligned packet forward disco h =
    add_gateway-IsAligned packet forward _
      (insert_unknown_hops-IsAligned packet.mesh_packet forward disco h)

contains-append : (xs : List ℕ) (node : ℕ) → contains (xs ++ node ∷ []) node ≡ true
contains-append [] node = ground (arith, nat_beq_iff node node)
contains-append (x ∷ xs) node = ground (arith, contains-append xs node)

has_node :
    (node : NodeId) (snr : ℤ) (forward : Bool) (disco : RouteDiscovery)
    → contains (route_of forward (add_node_to_route_if_missing node snr forward disco)) node ≡ true
unfolding add_node_to_route_if_missing with_route
has_node node snr true disco = ground (arith, contains-append disco.route node)
has_node node snr false disco = ground (arith, contains-append disco.route_back node)

back_keeps_route :
    (node : NodeId) (snr : ℤ) (disco : RouteDiscovery)
    → (add_node_to_route_if_missing node snr false disco).route ≡ disco.route
unfolding add_node_to_route_if_missing with_route
back_keeps_route node snr disco = ground arith

-- The answer to a traceroute request has one signal strength for each hop of the route, and one more
-- for the destination, if the request had one for each hop.
pub request_route-IsAligned :
    (bridge : NodeId) (packet : NetworkMeshPacket) (disco : RouteDiscovery)
    → IsAligned true disco
    → let answer = request_route bridge packet disco in
      length answer.snr_towards ≡ length answer.route + 1
unfolding request_route
request_route-IsAligned bridge packet disco h =
    let known =
      add_gateway_to_route packet true (insert_unknown_hops packet.mesh_packet true disco) in
    let k = known-IsAligned packet true disco h in
    let there = add_node_to_route_if_missing bridge (pos 0) true known in
    let both = add_node_to_route_if_missing bridge (pos 0) false there in
    let b : IsAligned true both =
      add_node-IsAligned bridge (pos 0) true false there
        (add_node-IsAligned bridge (pos 0) true true known k) in
    elim (Bool-cases (nat_beq packet.to bridge)) [
      | inl self ↦ rw self (omega (arith, k, length-append known.snr_towards (pos 0 ∷ [])))
      | inr other ↦ rw other (omega (arith, b, length-append both.snr_towards (pos 0 ∷ [])))
    ]

-- The way back of an answer has one signal strength for each hop, and one more for the node it
-- reaches, if the packet had one for each hop.
pub response_route-IsAligned :
    (bridge : NodeId) (packet : NetworkMeshPacket) (disco : RouteDiscovery)
    → IsAligned false disco
    → let answer = response_route bridge packet disco in
      length answer.snr_back ≡ length answer.route_back + 1
unfolding response_route
response_route-IsAligned bridge packet disco h =
    let known =
      add_gateway_to_route packet false (insert_unknown_hops packet.mesh_packet false disco) in
    let k = known-IsAligned packet false disco h in
    let back = add_node_to_route_if_missing bridge (pos 0) false known in
    let b : IsAligned false back = add_node-IsAligned bridge (pos 0) false false known k in
    elim (Bool-cases (nat_beq packet.to bridge)) [
      | inl self ↦ rw self (omega (arith, k, length-append known.snr_back (pos 0 ∷ [])))
      | inr other ↦ rw other (omega (arith, b, length-append back.snr_back (pos 0 ∷ [])))
    ]

-- A request to another node than the bridge is answered with the bridge on the route there.
pub request_route_has_bridge :
    (bridge : NodeId) (packet : NetworkMeshPacket) (disco : RouteDiscovery)
    → packet.to ≢ bridge
    → contains (request_route bridge packet disco).route bridge ≡ true
unfolding request_route
request_route_has_bridge bridge packet disco other =
    let known =
      add_gateway_to_route packet true (insert_unknown_hops packet.mesh_packet true disco) in
    let there = add_node_to_route_if_missing bridge (pos 0) true known in
    elim (Bool-cases (nat_beq packet.to bridge)) [
      | inl self ↦ absurd (other ((nat_beq_iff packet.to bridge).0 self))
      | inr away ↦
          rw (away, back_keeps_route bridge (pos 0) there) (has_node bridge (pos 0) true known)
    ]
