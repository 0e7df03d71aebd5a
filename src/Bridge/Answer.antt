-- ===== src/Bridge/Answer.antt =====
-- The answer to a traceroute as a notice in the room that asked (`handleMeshTraceroute`,
-- `formatTracerouteResponse` and `getNodeDisplayName` of pkg/connector/traceroute.go). Rendering of
-- markdown is the framework's.
use matrix_meshtastic.Prelude.{
  ℕ, ◌+◌, ◌*◌, ◌/◌, ◌%◌, List, [], ◌∷◌, ◌++◌, Option, none, some, Bytes, codes, Result, ok,
  bytes_beq, if◌then◌else◌,
}
use matrix_meshtastic.Prelude.Int.{ℤ, pos, negsuc, int_beq, min_int8}
use matrix_meshtastic.Golang.Strconv.{format_d}
use matrix_meshtastic.MeshId.Ids.{NodeId, node_string}
use matrix_meshtastic.Mesh.Events.{MeshTracerouteEvent}
use matrix_meshtastic.Bridge.Database.{MeshNodeInfo, get_by_node_id}
use matrix_meshtastic.Bridge.Tracker.{TracerouteRequest, get_and_remove_request}
use matrix_meshtastic.Bridge.Hub.{noticed, Task, ◌>>=◌, return, skip, query, tell}
use matrix_meshtastic.Bridge.Ghosts.{both_names}

abbrev two_digits : ℕ → Bytes
two_digits n = (b'0' + n / 10 % 10) ∷ (b'0' + n % 10) ∷ []

quarters : ℕ → Bytes
quarters n = format_d (n / 4) ++ (b'.' ∷ two_digits (n % 4 * 25))

-- `fmt.Sprintf("%.2f", float32(q)/4)`, exact for the values of a byte.
abbrev pub format_quarters : ℤ → Bytes
unfolding quarters
format_quarters (pos n) = quarters n
format_quarters (negsuc n) = b'-' ∷ quarters (n + 1)

-- The smallest byte stands for an unknown value.
abbrev pub snr_text : Option ℤ → Bytes
unfolding quarters
snr_text none = codes "?"
snr_text (some q) = if int_beq q min_int8 then codes "?" else format_quarters q

abbrev pub head : List ℤ → Option ℤ
head [] = none
head (q ∷ qs) = some q

abbrev pub last : List ℤ → Option ℤ
last [] = none
last (q ∷ []) = some q
last (q ∷ r ∷ qs) = last (r ∷ qs)

abbrev pub tail : List ℤ → List ℤ
tail [] = []
tail (q ∷ qs) = qs

abbrev pub spaces : Bytes
spaces = codes "&nbsp;&nbsp;"

-- The arrow in UTF-8.
abbrev pub arrow : Bytes
arrow = 0xe2 ∷ 0x86 ∷ 0x93 ∷ []

abbrev pub newline : Bytes
newline = 10 ∷ []

abbrev pub node_line : Bytes → Bytes
node_line name = spaces ++ (name ++ newline)

-- What stands before the arrow differs between the lines, in one semicolon.
abbrev pub hop_lines : Bytes → Bytes → Bytes → Bytes
hop_lines blank snr name =
    spaces ++ (blank ++ (arrow ++ (codes " " ++ (snr ++ (codes " dB\n" ++ node_line name)))))

abbrev pub display_name : NodeId → Result (Option MeshNodeInfo) → Bytes
display_name node (ok (some row)) =
    if bytes_beq row.long_name [] then node_string node else both_names row
display_name node _ = node_string node

unfoldable pub get_node_display_name : NodeId → Task Bytes
get_node_display_name node = do
  found ← query (get_by_node_id node)
  return (display_name node found)

-- The hops of a route, each with the value at its place.
unfoldable pub route_hops : Bytes → List NodeId → List ℤ → Task Bytes
unfolding get_node_display_name
route_hops blank [] snr = return []
route_hops blank (node ∷ route) snr = do
  name ← get_node_display_name node
  rest ← route_hops blank route (tail snr)
  return (hop_lines blank (snr_text (head snr)) name ++ rest)

unfoldable pub return_route : NodeId → NodeId → List NodeId → List ℤ → Task Bytes
unfolding route_hops
return_route target from [] snr = return []
return_route target from (node ∷ route) snr = do
  first ← get_node_display_name target
  middle ← route_hops (codes "&nbsp;") (node ∷ route) snr
  name ← get_node_display_name from
  return (
      codes "\n**Return Route:**\n"
      ++ (node_line first ++ (middle ++ hop_lines (codes "&nbsp;") (snr_text (last snr)) name)))

unfoldable pub format_traceroute_response : MeshTracerouteEvent → TracerouteRequest → Task Bytes
unfolding return_route
format_traceroute_response evt req = do
  first ← get_node_display_name req.from_node
  middle ← route_hops (codes "&nbsp") evt.route evt.snr_towards
  name ← get_node_display_name req.target_node
  back ← return_route req.target_node req.from_node evt.route_back evt.snr_back
  return (
      codes "**Traceroute to "
      ++ (node_string req.target_node
          ++ (codes "**\n**Route:**\n"
              ++ (node_line first
                  ++ (middle
                      ++ (hop_lines (codes "&nbsp;") (snr_text (last evt.snr_towards)) name
                          ++ back))))))

abbrev pub take_request : ℕ → Task (Option TracerouteRequest)
take_request id h =
    let (found, tracker) = get_and_remove_request id h.tracker in
    (some found, record h { tracker = tracker })

abbrev pub answer : MeshTracerouteEvent → Option TracerouteRequest → Task (Unit {0})
answer evt none = skip
answer evt (some req) = do
  text ← format_traceroute_response evt req
  tell (noticed req.room_id text)

unfoldable pub handle_mesh_traceroute : MeshTracerouteEvent → Task (Unit {0})
unfolding format_traceroute_response
handle_mesh_traceroute evt = do found ← take_request evt.request_id; answer evt found
