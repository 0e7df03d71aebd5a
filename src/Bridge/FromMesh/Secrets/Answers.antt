-- ===== src/Bridge/FromMesh/Secrets/Answers.antt =====
-- The answer to a traceroute only reads the node table (pkg/connector/traceroute.go).
use matrix_meshtastic.Prelude.{refl, List, [], ◌∷◌, Option, none, some, Bytes, codes}
use matrix_meshtastic.Prelude.Int.{ℤ}
use matrix_meshtastic.MeshId.Ids.{NodeId}
use matrix_meshtastic.Mesh.Events.{MeshTracerouteEvent}
use matrix_meshtastic.Bridge.Tracker.{TracerouteRequest}
use matrix_meshtastic.Bridge.Answer.{
  get_node_display_name, route_hops, return_route, format_traceroute_response, take_request, answer,
  tail, handle_mesh_traceroute,
}
use matrix_meshtastic.Bridge.FromMesh.Secrets.{IsDiscreet}
use matrix_meshtastic.Bridge.FromMesh.Secrets.Tasks.{free_task, bind-IsDiscreet, read-IsDiscreet}

name-IsDiscreet : (node : NodeId) → IsDiscreet (get_node_display_name node)
unfolding get_node_display_name
name-IsDiscreet node = bind-IsDiscreet _ _ (read-IsDiscreet node) (λ found. free_task _ (λ h. refl))

hops-IsDiscreet :
    (blank : Bytes) (route : List NodeId) (snr : List ℤ) → IsDiscreet (route_hops blank route snr)
unfolding route_hops
hops-IsDiscreet blank [] snr = free_task _ (λ h. refl)
hops-IsDiscreet blank (node ∷ route) snr = bind-IsDiscreet _ _ (name-IsDiscreet node) λ name.
    bind-IsDiscreet _ _ (hops-IsDiscreet blank route (tail snr)) (λ rest. free_task _ (λ h. refl))

back-IsDiscreet :
    (target from : NodeId) (route : List NodeId) (snr : List ℤ)
    → IsDiscreet (return_route target from route snr)
unfolding return_route
back-IsDiscreet target from [] snr = free_task _ (λ h. refl)
back-IsDiscreet target from (node ∷ route) snr =
    bind-IsDiscreet _ _ (name-IsDiscreet target) λ first.
      bind-IsDiscreet _ _ (hops-IsDiscreet (codes "&nbsp;") (node ∷ route) snr)
        λ middle. bind-IsDiscreet _ _ (name-IsDiscreet from) (λ name. free_task _ (λ h. refl))

text-IsDiscreet :
    (evt : MeshTracerouteEvent) (req : TracerouteRequest)
    → IsDiscreet (format_traceroute_response evt req)
unfolding format_traceroute_response
text-IsDiscreet evt req = bind-IsDiscreet _ _ (name-IsDiscreet req.from_node) λ first.
    bind-IsDiscreet _ _ (hops-IsDiscreet (codes "&nbsp") evt.route evt.snr_towards) λ middle.
      bind-IsDiscreet _ _ (name-IsDiscreet req.target_node) λ name.
        bind-IsDiscreet _ _
          (back-IsDiscreet req.target_node req.from_node evt.route_back evt.snr_back)
          (λ back. free_task _ (λ h. refl))

answer-IsDiscreet :
    (evt : MeshTracerouteEvent) (found : Option TracerouteRequest) → IsDiscreet (answer evt found)
answer-IsDiscreet evt none = free_task _ (λ h. refl)
answer-IsDiscreet evt (some req) =
    bind-IsDiscreet _ _ (text-IsDiscreet evt req) (λ text. free_task _ (λ h. refl))

pub traceroute-IsDiscreet : (evt : MeshTracerouteEvent) → IsDiscreet (handle_mesh_traceroute evt)
unfolding handle_mesh_traceroute
traceroute-IsDiscreet evt =
    bind-IsDiscreet (take_request evt.request_id) _ (free_task _ (λ h. refl))
      (answer-IsDiscreet evt)
