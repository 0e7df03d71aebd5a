-- ===== src/Mesh/Udp.antt =====
-- The UDP connector (pkg/mesh/connectors/udp_handler.go) as a state machine: its flags, and where its
-- listening goroutine is. What a socket call returns chooses the step. Sending is left out: it opens
-- a socket of its own and keeps no state.
pub mod Runs
pub mod Stopping
use matrix_meshtastic.Prelude.{
  ℕ, ◌*◌, ◌≡◌, Bool, true, false, List, [], ◌∷◌, ◌++◌, ltb, if◌then◌else◌,
}
use matrix_meshtastic.Mesh.Events.{
  ListenerEvent, event_started, event_restarted, event_connection_lost,
}
use matrix_meshtastic.Mesh.World.{second}

abbrev pub max_reconnect_delay : ℕ
max_reconnect_delay = 30 * second

abbrev pub min_duration : ℕ → ℕ → ℕ
min_duration a b = if ltb a b then a else b

-- No goroutine; the test at the head of the loop of `listenWithReconnect`; setting the socket up; its
-- `time.Sleep`; in `listenLoop` the `select` and the blocking read; and behind `listenLoop`, before the
-- flag of `IsConnected` is cleared, with a closed socket after a failed read, or at the end.
pub data Phase : Type 0 where
  idle deciding setting_up sleeping selecting receiving lost leaving : Phase

pub record UdpMessageHandler : Type 0 where
  pub running : Bool
  pub listening : Bool
  pub stop_closed : Bool
  pub is_restart : Bool
  pub has_conn : Bool
  pub delay : ℕ
  pub phase : Phase

abbrev pub new_udp_message_handler : UdpMessageHandler
new_udp_message_handler = record {
  running = false;
  listening = false;
  stop_closed = false;
  is_restart = false;
  has_conn = false;
  delay = second;
  phase = idle;
}

abbrev pub start : UdpMessageHandler → UdpMessageHandler
start h =
    if h.running
    then h
    else record h { running = true; stop_closed = false; delay = second; phase = deciding }

-- `Stop` up to its wait for the goroutine, and after it. Its three stores count as one step.
abbrev pub stop_begins : UdpMessageHandler → UdpMessageHandler
stop_begins h = record h { running = false; listening = false; stop_closed = true }

abbrev pub close_conn : UdpMessageHandler → UdpMessageHandler
close_conn h = record h { has_conn = false }

-- The socket cannot be set up.
abbrev pub setup_failed : UdpMessageHandler → UdpMessageHandler
setup_failed h = record h { listening = false; phase = sleeping }

abbrev pub setup_done : UdpMessageHandler → UdpMessageHandler
setup_done h = record h { has_conn = true; listening = true; is_restart = true; phase = selecting }

abbrev pub started_event : Bool → ListenerEvent
started_event is_restart = if is_restart then event_restarted else event_started

-- `listenLoop` returns the error of the read and the socket is closed; the flag is still set.
abbrev pub read_failed : UdpMessageHandler → UdpMessageHandler
read_failed h = record h { has_conn = false; phase = lost }

abbrev pub loss_told : UdpMessageHandler → UdpMessageHandler
loss_told h = record h { listening = false; phase = sleeping }

abbrev pub woken : UdpMessageHandler → UdpMessageHandler
woken h = record h { delay = min_duration (h.delay * 2) max_reconnect_delay; phase = deciding }

abbrev pub ended : UdpMessageHandler → UdpMessageHandler
ended h = record h { listening = false; phase = idle }

-- A step of the goroutine, with the state events that it emits.
pub data Listens : UdpMessageHandler → List ListenerEvent → UdpMessageHandler → Type 0 where
  begins_setup :
      (h : UdpMessageHandler)
      → h.phase ≡ deciding
      → h.running ≡ true
      → Listens h [] (record h { phase = setting_up })
  setup_fails :
      (h : UdpMessageHandler)
      → h.phase ≡ setting_up
      → Listens h (event_connection_lost ∷ []) (setup_failed h)
  setup_succeeds :
      (h : UdpMessageHandler)
      → h.phase ≡ setting_up
      → Listens h (started_event h.is_restart ∷ []) (setup_done h)
  loop_ends :
      (h : UdpMessageHandler) → h.phase ≡ deciding → h.running ≡ false → Listens h [] (ended h)
  sees_stop :
      (h : UdpMessageHandler)
      → h.phase ≡ selecting
      → h.stop_closed ≡ true
      → Listens h [] (record h { phase = leaving })
  leaves : (h : UdpMessageHandler) → h.phase ≡ leaving → Listens h [] (ended h)
  goes_on :
      (h : UdpMessageHandler)
      → h.phase ≡ selecting
      → h.stop_closed ≡ false
      → Listens h [] (record h { phase = receiving })
  reads :
      (h : UdpMessageHandler) → h.phase ≡ receiving → Listens h [] (record h { phase = selecting })
  read_fails : (h : UdpMessageHandler) → h.phase ≡ receiving → Listens h [] (read_failed h)
  tells_loss :
      (h : UdpMessageHandler)
      → h.phase ≡ lost
      → Listens h (event_connection_lost ∷ []) (loss_told h)
  wakes : (h : UdpMessageHandler) → h.phase ≡ sleeping → Listens h [] (woken h)

-- A step of the goroutine or of a call. `Start` comes only when no goroutine is left, since `Stop`
-- waits for it.
pub data Step : UdpMessageHandler → List ListenerEvent → UdpMessageHandler → Type 0 where
  listens : (h k : UdpMessageHandler) (es : List ListenerEvent) → Listens h es k → Step h es k
  starts : (h : UdpMessageHandler) → h.phase ≡ idle → Step h [] (start h)
  stops : (h : UdpMessageHandler) → h.running ≡ true → Step h [] (stop_begins h)
  stop_returns :
      (h : UdpMessageHandler) → h.phase ≡ idle → h.stop_closed ≡ true → Step h [] (close_conn h)

-- The runs of a new handler, with all events so far.
pub data Run : List ListenerEvent → UdpMessageHandler → Type 0 where
  new : Run [] new_udp_message_handler
  step :
      (es fs : List ListenerEvent) (h k : UdpMessageHandler)
      → Run es h
      → Step h fs k
      → Run (es ++ fs) k
