-- ===== src/Mesh/Traceroute.antt =====
-- Routes of traceroute packets (pkg/mesh/traceroute.go). What is only logged is left out.
pub mod Frame
pub mod Laws
use matrix_meshtastic.Prelude.{
  ℕ, ◌-◌, Bool, true, false, not, ◌||◌, List, [], ◌∷◌, ◌++◌, Option, none, some, Error, Result, ok,
  err, length, replicate, contains, ltb, nat_beq, nat_eq, if◌then◌else◌,
}
use matrix_meshtastic.Prelude.Int.{ℤ, pos, min_int8}
use matrix_meshtastic.External.{
  MeshPacket, RouteDiscovery, traceroute_app, route_discovery_message, Libraries,
}
use matrix_meshtastic.MeshId.Ids.{NodeId, broadcast_id}
use matrix_meshtastic.MeshId.Channel.{ChannelDef, new_channel_def}
use matrix_meshtastic.Mesh.Events.{NetworkMeshPacket}
use matrix_meshtastic.Mesh.World.{MeshtasticClient, Action, ◌>>=◌, ◌>>◌, return, skip, the_client}
use matrix_meshtastic.Mesh.Send.{psk_encryption, send_proto_message}
use matrix_meshtastic.Mesh.Reports.{send_ack}

abbrev pub route_of : Bool → RouteDiscovery → List ℕ
route_of true disco = disco.route
route_of false disco = disco.route_back

abbrev pub snr_of : Bool → RouteDiscovery → List ℤ
snr_of true disco = disco.snr_towards
snr_of false disco = disco.snr_back

with_route : Bool → List ℕ → List ℤ → RouteDiscovery → RouteDiscovery
with_route true route snr disco = record disco { route = route; snr_towards = snr }
with_route false route snr disco = record disco { route_back = route; snr_back = snr }

pad_route : ℕ → List ℕ → List ℕ
pad_route hops route = route ++ replicate (hops - length route) broadcast_id

pad_snr : List ℤ → List ℕ → List ℤ
pad_snr snr route = snr ++ replicate (length route - length snr) min_int8

-- The hops that did not write themselves down get a placeholder, and the list of signal strengths is
-- made as long as the route.
insert_unknown_hops : MeshPacket → Bool → RouteDiscovery → RouteDiscovery
unfolding with_route pad_route pad_snr
insert_unknown_hops packet forward disco =
    if nat_beq packet.hop_start 0 || ltb packet.hop_start packet.hop_limit
    then disco
    else let route = pad_route (packet.hop_start - packet.hop_limit) (route_of forward disco) in
      with_route forward route (pad_snr (snr_of forward disco) route) disco

add_node_to_route_if_missing : NodeId → ℤ → Bool → RouteDiscovery → RouteDiscovery
unfolding with_route
add_node_to_route_if_missing node snr forward disco =
    if contains (route_of forward disco) node
    then disco
    else with_route forward (route_of forward disco ++ node ∷ []) (snr_of forward disco ++ snr ∷ [])
        disco

-- `int32(packet.RxSnr*4)` is the number of quarters.
add_gateway_to_route : NetworkMeshPacket → Bool → RouteDiscovery → RouteDiscovery
unfolding add_node_to_route_if_missing
add_gateway_to_route packet forward disco =
    if nat_beq packet.gateway_node 0 || nat_beq packet.gateway_node packet.from
    then disco
    else add_node_to_route_if_missing packet.gateway_node packet.rx_snr forward disco

-- The route that is sent back: the unknown hops, the gateway, the bridge on behalf of another node,
-- and a last signal strength for the destination.
pub request_route : NodeId → NetworkMeshPacket → RouteDiscovery → RouteDiscovery
unfolding insert_unknown_hops add_gateway_to_route
request_route bridge packet disco =
    let known =
      add_gateway_to_route packet true (insert_unknown_hops packet.mesh_packet true disco) in
    let whole =
      if nat_beq packet.to bridge
      then known
      else add_node_to_route_if_missing bridge (pos 0) false
          (add_node_to_route_if_missing bridge (pos 0) true known) in
    record whole { snr_towards = whole.snr_towards ++ pos 0 ∷ [] }

-- The same of the way back, when the answer arrives.
pub response_route : NodeId → NetworkMeshPacket → RouteDiscovery → RouteDiscovery
unfolding insert_unknown_hops add_gateway_to_route
response_route bridge packet disco =
    let known =
      add_gateway_to_route packet false (insert_unknown_hops packet.mesh_packet false disco) in
    let whole =
      if nat_beq packet.to bridge
      then known
      else add_node_to_route_if_missing bridge (pos 0) false known in
    record whole { snr_back = whole.snr_back ++ pos 0 ∷ [] }

-- A channel definition whose error is dropped.
abbrev pub or_nil : Result ChannelDef → Option ChannelDef
or_nil (ok channel) = some channel
or_nil (err e) = none

module _ (lib : Libraries) where
  acknowledge : NetworkMeshPacket → Action (Unit {0})
  acknowledge packet w =
      if packet.want_ack then (tt, (send_ack lib packet.to packet.from packet.id w).1) else (tt, w)

  answer_traceroute : NetworkMeshPacket → RouteDiscovery → Action (Unit {0})
  unfolding request_route acknowledge
  answer_traceroute packet disco = do
    c ← the_client
    acknowledge packet
    r ←
        send_proto_message lib
          (or_nil (new_channel_def lib.radio packet.channel_name packet.channel_key))
          (route_discovery_message (request_route c.node_id packet disco))
          (record {
            port_num = traceroute_app;
            encryption = psk_encryption;
            from = packet.to;
            to = packet.from;
            request_id = packet.id;
            reply_id = 0;
            want_response = false;
            emoji = false;
          })
    skip

  pub handle_traceroute_request : NetworkMeshPacket → RouteDiscovery → Action (Unit {0})
  unfolding answer_traceroute
  handle_traceroute_request packet disco = do
    c ← the_client
    if c.managed_node_func packet.to then answer_traceroute packet disco else skip

-- The route as the event carries it: an answer to a node of another bridge is left as it came.
unfoldable pub handle_traceroute_response :
    MeshtasticClient → NetworkMeshPacket → RouteDiscovery → RouteDiscovery
unfolding response_route
handle_traceroute_response c packet disco =
    if c.managed_node_func packet.to then response_route c.node_id packet disco else disco
