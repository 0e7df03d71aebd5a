-- ===== src/Mesh/Udp/Stopping.antt =====
-- How the listening goroutine ends after `Stop` (pkg/mesh/connectors/udp_handler.go).
use matrix_meshtastic.Prelude.{ℕ, suc, ◌+◌, ◌≤◌, ◌≡◌, refl, Bool, true, false, List, arith}
use matrix_meshtastic.Mesh.Events.{ListenerEvent}
use matrix_meshtastic.Mesh.Udp.{
  Phase, idle, deciding, setting_up, sleeping, selecting, receiving, lost, leaving,
  UdpMessageHandler, Listens, begins_setup, setup_fails, setup_succeeds, loop_ends, sees_stop,
  leaves, goes_on, reads, read_fails, tells_loss, wakes, Step, listens, starts, stops, stop_returns,
  Run, new, step,
}

-- How many steps the goroutine may still take.
abbrev pub steps_left : Phase → ℕ
steps_left idle = 0
steps_left deciding = 1
steps_left sleeping = 2
steps_left selecting = 2
steps_left receiving = 4
steps_left setting_up = 3
steps_left lost = 3
steps_left leaving = 1

at_most_four : (p : Phase) → steps_left p ≤ 4
at_most_four p = ground arith

abbrev pub is_idle : Phase → Bool
is_idle idle = true
is_idle deciding = false
is_idle sleeping = false
is_idle selecting = false
is_idle receiving = false
is_idle setting_up = false
is_idle lost = false
is_idle leaving = false

-- A goroutine that is there while the connector does not run has been told to stop.
abbrev IsTold : UdpMessageHandler → Type 0
IsTold h = h.running ≡ false → is_idle h.phase ≡ false → h.stop_closed ≡ true

Listens-IsTold :
    {es : List ListenerEvent} {h k : UdpMessageHandler} → IsTold h → Listens h es k → IsTold k
Listens-IsTold told (begins_setup h at on) off busy = ground arith
Listens-IsTold told (setup_fails h at) off busy = ground arith
Listens-IsTold told (setup_succeeds h at) off busy = ground arith
Listens-IsTold told (leaves h at) off busy = ground arith
Listens-IsTold told (tells_loss h at) off busy = ground arith
Listens-IsTold told (loop_ends h at on) off busy = ground arith
Listens-IsTold told (sees_stop h at closed) off busy = ground arith
Listens-IsTold told (goes_on h at unclosed) off busy = ground arith
Listens-IsTold told (reads h at) off busy = ground arith
Listens-IsTold told (read_fails h at) off busy = ground arith
Listens-IsTold told (wakes h at) off busy = ground arith

Step-IsTold :
    {es : List ListenerEvent} {h k : UdpMessageHandler} → IsTold h → Step h es k → IsTold k
Step-IsTold told (listens h k es l) off busy = Listens-IsTold told l off busy
Step-IsTold told (starts h at) off busy = ground arith
Step-IsTold told (stops h on) off busy = ground arith
Step-IsTold told (stop_returns h at closed) off busy = ground arith

Run-IsTold : {es : List ListenerEvent} {h : UdpMessageHandler} → Run es h → IsTold h
Run-IsTold new off busy = absurd cc
Run-IsTold (step es fs h k r s) off busy = Step-IsTold (Run-IsTold r) s off busy

comes_nearer :
    {es : List ListenerEvent} {h k : UdpMessageHandler}
    → IsTold h
    → h.running ≡ false
    → Listens h es k
    → (suc (steps_left k.phase) ≤ steps_left h.phase) × (k.running ≡ false)
comes_nearer told off (begins_setup h at on) = absurd (ground arith)
comes_nearer told off (setup_fails h at) = ground arith
comes_nearer told off (setup_succeeds h at) = ground arith
comes_nearer told off (leaves h at) = ground arith
comes_nearer told off (tells_loss h at) = ground arith
comes_nearer told off (loop_ends h at on) = ground arith
comes_nearer told off (sees_stop h at closed) = ground arith
comes_nearer told off (goes_on h at unclosed) = absurd (ground arith)
comes_nearer told off (reads h at) = ground arith
comes_nearer told off (read_fails h at) = ground arith
comes_nearer told off (wakes h at) = ground arith

-- Some number of steps of the goroutine alone.
pub data Listening : ℕ → UdpMessageHandler → UdpMessageHandler → Type 0 where
  none_yet : (h : UdpMessageHandler) → Listening 0 h h
  one_more :
      (n : ℕ) (h k l : UdpMessageHandler) (es : List ListenerEvent)
      → Listens h es k
      → Listening n k l
      → Listening (suc n) h l

few_steps :
    {n : ℕ} {h l : UdpMessageHandler}
    → IsTold h
    → h.running ≡ false
    → Listening n h l
    → n + steps_left l.phase ≤ steps_left h.phase
few_steps told off (none_yet h) = omega arith
few_steps told off (one_more n h k l es s rest) =
    let near = comes_nearer told off s in
    omega (arith, near.0, few_steps (Listens-IsTold told s) near.1 rest)

next_step :
    (h : UdpMessageHandler) (p : Phase)
    → h.phase ≡ p
    → h.running ≡ false
    → IsTold h
    → is_idle p ≡ false
    → (es : List ListenerEvent) × (k : UdpMessageHandler) × Listens h es k
next_step h idle at off told busy = absurd cc
next_step h deciding at off told busy = (_, _, loop_ends h at off)
next_step h setting_up at off told busy = (_, _, setup_fails h at)
next_step h lost at off told busy = (_, _, tells_loss h at)
next_step h leaving at off told busy = (_, _, leaves h at)
next_step h sleeping at off told busy = (_, _, wakes h at)
next_step h selecting at off told busy = (_, _, sees_stop h at (told off (ground arith)))
next_step h receiving at off told busy = (_, _, reads h at)

-- Once the connector is stopped, its goroutine takes at most four more steps, and while it is not
-- gone it can take one, if a pending read returns: no reconnection keeps it alive.
pub stopped_goroutine_ends :
    {es : List ListenerEvent} {n : ℕ} {h l : UdpMessageHandler}
    → Run es h
    → h.running ≡ false
    → Listening n h l
    → (n + steps_left l.phase ≤ 4)
      × (is_idle h.phase ≡ false
          → (fs : List ListenerEvent) × (k : UdpMessageHandler) × Listens h fs k)
stopped_goroutine_ends {h} r off steps = (
  omega (arith, few_steps (Run-IsTold r) off steps, at_most_four h.phase),
  next_step h h.phase refl off (Run-IsTold r),
)
