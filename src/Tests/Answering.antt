-- ===== src/Tests/Answering.antt =====
-- Traceroutes and requests at concrete values (pkg/mesh/traceroute.go, pkg/mesh/data_requests.go).
use matrix_meshtastic.Prelude.{◌+◌, ◌*◌, ◌≡◌, refl, true, [], ◌∷◌, length, nat_eq}
use matrix_meshtastic.Prelude.Int.{pos}
use matrix_meshtastic.External.{RouteDiscovery}
use matrix_meshtastic.Mesh.World.{minute}
use matrix_meshtastic.Mesh.Requests.{new_request_throttle}
use matrix_meshtastic.Mesh.Requests.Laws.{IsSpaced, answered, answers-IsSpaced}
use matrix_meshtastic.Mesh.Traceroute.{request_route, response_route}
use matrix_meshtastic.Mesh.Traceroute.Laws.{request_route-IsAligned, response_route-IsAligned}
use matrix_meshtastic.Tests.Fixture.{bridge_node, text_packet}

abbrev one_hop : RouteDiscovery
one_hop = record { route = 7 ∷ []; snr_towards = pos 4 ∷ []; route_back = []; snr_back = [] }

request_route-IsAligned_example :
    let answer = request_route bridge_node text_packet one_hop in
    length answer.snr_towards ≡ length answer.route + 1
request_route-IsAligned_example = request_route-IsAligned bridge_node text_packet one_hop refl

response_route-IsAligned_example :
    let answer = response_route bridge_node text_packet one_hop in
    length answer.snr_back ≡ length answer.route_back + 1
response_route-IsAligned_example = response_route-IsAligned bridge_node text_packet one_hop refl

answers-IsSpaced_example : IsSpaced (3 * minute) (
    answered (new_request_throttle (3 * minute)) (
      record { for_telemetry = true; node = 9; at = 0 }
      ∷ record { for_telemetry = true; node = 9; at = minute }
      ∷ record { for_telemetry = true; node = 9; at = 4 * minute }
      ∷ []))
answers-IsSpaced_example = answers-IsSpaced (new_request_throttle (3 * minute)) (
    record { for_telemetry = true; node = 9; at = 0 }
    ∷ record { for_telemetry = true; node = 9; at = minute }
    ∷ record { for_telemetry = true; node = 9; at = 4 * minute }
    ∷ [])
