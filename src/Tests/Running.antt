-- ===== src/Tests/Running.antt =====
-- Runs of the UDP connector and of the traceroute tracker at concrete values.
use matrix_meshtastic.Prelude.{◌+◌, ◌*◌, ◌≤◌, ◌≡◌, refl, false, List, [], ◌∷◌, none, some, arith}
use matrix_meshtastic.Mesh.Events.{ListenerEvent, event_started}
use matrix_meshtastic.Mesh.World.{second}
use matrix_meshtastic.Mesh.Udp.{
  UdpMessageHandler, new_udp_message_handler, start, stop_begins, setup_done, Listens, setting_up,
  leaving, begins_setup, setup_succeeds, sees_stop, listens, starts, stops, Run, new, step,
}
use matrix_meshtastic.Mesh.Udp.Runs.{IsSound, Run-IsSound}
use matrix_meshtastic.Mesh.Udp.Stopping.{
  steps_left, is_idle, none_yet, one_more, stopped_goroutine_ends,
}
use matrix_meshtastic.Bridge.Tracker.{
  TracerouteRequest, new_traceroute_tracker, add_request, get_and_remove_request,
}
use matrix_meshtastic.Bridge.Tracker.Laws.{takes, cleans, use_all, answer_finds_request}
use matrix_meshtastic.Tests.Fixture.{long_fast}

abbrev setting_socket : UdpMessageHandler
setting_socket = record (start new_udp_message_handler) { phase = setting_up }

abbrev listening : UdpMessageHandler
listening = setup_done setting_socket

deciding-Run : Run [] (start new_udp_message_handler)
deciding-Run =
    step [] [] new_udp_message_handler (start new_udp_message_handler) new
      (starts new_udp_message_handler refl)

setting-Run : Run [] setting_socket
setting-Run =
    step [] [] (start new_udp_message_handler) setting_socket deciding-Run
      (listens _ _ [] (begins_setup (start new_udp_message_handler) refl refl))

up : Run (event_started ∷ []) listening
up =
    step [] (event_started ∷ []) setting_socket listening setting-Run
      (listens _ _ _ (setup_succeeds setting_socket refl))

Run-IsSound_example : IsSound (event_started ∷ []) listening
Run-IsSound_example = Run-IsSound up

stopped : Run (event_started ∷ []) (stop_begins listening)
stopped = step (event_started ∷ []) [] listening (stop_begins listening) up (stops listening refl)

abbrev told : UdpMessageHandler
told = stop_begins listening

stopped_goroutine_ends_example :
    (1 + steps_left leaving ≤ 4)
    × (is_idle told.phase ≡ false
        → (fs : List ListenerEvent) × (k : UdpMessageHandler) × Listens told fs k)
stopped_goroutine_ends_example =
    stopped_goroutine_ends {h = told} stopped refl (
      one_more 0 told (record told { phase = leaving }) _ [] (sees_stop told refl refl)
        (none_yet _))

abbrev the_request : TracerouteRequest
the_request = record {
  packet_id = 9;
  from_node = 1;
  target_node = 2;
  room_id = [];
  timestamp = 100 * second;
  channel = long_fast;
}

answer_finds_request_example :
    let r = get_and_remove_request 9 (
      use_all
        (takes 8 ∷ cleans (130 * second) ∷ [])
        (add_request the_request new_traceroute_tracker)) in
    (r.0 ≡ some the_request) × ((get_and_remove_request 9 r.1).0 ≡ none)
answer_finds_request_example =
    answer_finds_request the_request (takes 8 ∷ cleans (130 * second) ∷ []) new_traceroute_tracker
      ((λ e. absurd (omega arith)), (omega arith, tt))
