-- ===== src/Mesh/Udp/Runs.antt =====
-- What holds on every run of the UDP connector (pkg/mesh/connectors/udp_handler.go).
use matrix_meshtastic.Prelude.{
  ℕ, suc, ◌+◌, ◌≤◌, ◌≡◌, ◌⊎◌, refl, append-nil, Bool, true, false, List, [], ◌∷◌, ◌++◌, arith,
  if◌then◌else◌,
}
use matrix_meshtastic.Mesh.Events.{
  ListenerEvent, event_started, event_restarted, event_connection_lost,
}
use matrix_meshtastic.Mesh.World.{second}
use matrix_meshtastic.Mesh.Udp.{
  max_reconnect_delay, started_event, Phase, idle, deciding, setting_up, sleeping, selecting,
  receiving, lost, leaving, UdpMessageHandler, Listens, begins_setup, setup_fails, setup_succeeds,
  loop_ends, sees_stop, leaves, goes_on, reads, read_fails, tells_loss, wakes, Step, listens,
  starts, stops, stop_returns, Run, new, step,
}

abbrev pub count_started : List ListenerEvent → ℕ
count_started [] = 0
count_started (event_started ∷ es) = suc (count_started es)
count_started (event_restarted ∷ es) = count_started es
count_started (event_connection_lost ∷ es) = count_started es

abbrev pub count_restarted : List ListenerEvent → ℕ
count_restarted [] = 0
count_restarted (event_started ∷ es) = count_restarted es
count_restarted (event_restarted ∷ es) = suc (count_restarted es)
count_restarted (event_connection_lost ∷ es) = count_restarted es

abbrev pub is_in_loop : Phase → Bool
is_in_loop idle = false
is_in_loop deciding = false
is_in_loop sleeping = false
is_in_loop selecting = true
is_in_loop receiving = true
is_in_loop setting_up = false
is_in_loop lost = false
is_in_loop leaving = false

-- Behind the loop, where clearing the flag comes next.
abbrev pub is_behind_loop : Phase → Bool
is_behind_loop idle = false
is_behind_loop deciding = false
is_behind_loop sleeping = false
is_behind_loop selecting = false
is_behind_loop receiving = false
is_behind_loop setting_up = false
is_behind_loop lost = true
is_behind_loop leaving = true

-- The delay is from one to 30 seconds; the connector counts as connected only while its goroutine
-- reads from an open socket, or has stopped reading and clears the flag in its next step; and the first event that it is up is a start, all others are restarts.
pub record IsSound (es : List ListenerEvent) (h : UdpMessageHandler) : Type 0 where
  pub slow_enough : second ≤ h.delay
  pub fast_enough : h.delay ≤ max_reconnect_delay
  pub reading :
      h.listening ≡ true
      → ((is_in_loop h.phase ≡ true) × (h.has_conn ≡ true)) ⊎ (is_behind_loop h.phase ≡ true)
  pub open_socket : is_in_loop h.phase ≡ true → h.has_conn ≡ true
  pub one_start : count_started es ≡ (if h.is_restart then 1 else 0)
  pub restarts_later : h.is_restart ≡ false → count_restarted es ≡ 0

count_started-append :
    (es fs : List ListenerEvent) → count_started (es ++ fs) ≡ count_started es + count_started fs
count_started-append [] fs = omega arith
count_started-append (event_started ∷ es) fs = omega (arith, count_started-append es fs)
count_started-append (event_restarted ∷ es) fs = omega (arith, count_started-append es fs)
count_started-append (event_connection_lost ∷ es) fs = omega (arith, count_started-append es fs)

count_restarted-append :
    (es fs : List ListenerEvent)
    → count_restarted (es ++ fs) ≡ count_restarted es + count_restarted fs
count_restarted-append [] fs = omega arith
count_restarted-append (event_started ∷ es) fs = omega (arith, count_restarted-append es fs)
count_restarted-append (event_restarted ∷ es) fs = omega (arith, count_restarted-append es fs)
count_restarted-append (event_connection_lost ∷ es) fs = omega (arith, count_restarted-append es fs)

Listens-IsSound :
    {es fs : List ListenerEvent} {h k : UdpMessageHandler}
    → IsSound es h
    → Listens h fs k
    → IsSound (es ++ fs) k
Listens-IsSound {es} s (begins_setup h at on) = rw append-nil (ground (arith, s))
Listens-IsSound {es} s (setup_fails h at) = ground (
  arith,
  s,
  count_started-append es (event_connection_lost ∷ []),
  count_restarted-append es (event_connection_lost ∷ []),
)
Listens-IsSound {es} s (setup_succeeds h at) = ground (
  arith,
  s,
  count_started-append es (started_event h.is_restart ∷ []),
  count_restarted-append es (started_event h.is_restart ∷ []),
)
Listens-IsSound {es} s (loop_ends h at off) = rw append-nil (ground (arith, s))
Listens-IsSound {es} s (sees_stop h at closed) = rw append-nil (ground (arith, s))
Listens-IsSound {es} s (goes_on h at unclosed) = rw append-nil (ground (arith, s))
Listens-IsSound {es} s (reads h at) = rw append-nil (ground (arith, s))
Listens-IsSound {es} s (leaves h at) = rw append-nil (ground (arith, s))
Listens-IsSound {es} s (read_fails h at) = rw append-nil (ground (arith, s))
Listens-IsSound {es} s (tells_loss h at) = ground (
  arith,
  s,
  count_started-append es (event_connection_lost ∷ []),
  count_restarted-append es (event_connection_lost ∷ []),
)
Listens-IsSound {es} s (wakes h at) = rw append-nil (ground (arith, s))

Step-IsSound :
    {es fs : List ListenerEvent} {h k : UdpMessageHandler}
    → IsSound es h
    → Step h fs k
    → IsSound (es ++ fs) k
Step-IsSound s (listens h k fs l) = Listens-IsSound s l
Step-IsSound s (starts h at) = rw append-nil (ground (arith, s))
Step-IsSound s (stops h on) = rw append-nil (ground (arith, s))
Step-IsSound s (stop_returns h at closed) = rw append-nil (ground (arith, s))

-- After every step of a run of the connector, where to set the flag of being connected, tell that it is
-- up and enter the loop is one step, the delay before it listens again is from one to 30 seconds, it
-- counts as connected only while its goroutine is in the loop that reads from an open socket or has
-- left it and clears the flag in its next step, and of the events that say it is up exactly the first
-- is a start and all others are restarts.
pub Run-IsSound : {es : List ListenerEvent} {h : UdpMessageHandler} → Run es h → IsSound es h
Run-IsSound new = record {
  slow_enough = omega arith;
  fast_enough = omega arith;
  reading = λ e. absurd cc;
  open_socket = λ e. absurd cc;
  one_start = refl;
  restarts_later = λ e. refl;
}
Run-IsSound (step es fs h k r s) = Step-IsSound (Run-IsSound r) s
