-- ===== src/Bridge/Startup/Background.antt =====
-- The background tasks of the connector over its connections (`onMeshConnected` and
-- `onMeshDisconnected` of pkg/connector/connector.go).
use matrix_meshtastic.Prelude.{
  ℕ, ◌≡◌, ◌<◌, refl, arith, drop, drop-append, Bool, true, false, ◌||◌, List, [], ◌∷◌, Option, none,
  some, nat_beq_iff, length, filter_by, nat_beq, not, nat_eq,
}
use matrix_meshtastic.Mesh.Events.{event_started}
use matrix_meshtastic.Mesh.World.{MeshConnector, Effect, on_connect, on_disconnect, World}
use matrix_meshtastic.Mesh.Connection.{connected_count, handle_connector_state_change}
use matrix_meshtastic.Mesh.Connection.Laws.{first_start_connects_twice}
use matrix_meshtastic.Bridge.Startup.{BackgroundTasks, cancel, run_tasks, on_mesh_disconnected}

-- What the mesh client tells the connector.
pub data Signal : Type 0 where
  connected disconnected : Signal

follow : Signal → BackgroundTasks → BackgroundTasks
unfolding run_tasks on_mesh_disconnected
follow connected b = run_tasks b
follow disconnected b = on_mesh_disconnected b

pub follow_all : List Signal → BackgroundTasks → BackgroundTasks
unfolding follow
follow_all [] b = b
follow_all (s ∷ ss) b = follow_all ss (follow s b)

pub runs : ℕ → List ℕ → Bool
runs context [] = false
runs context (c ∷ cs) = let rest = runs context cs in nat_beq c context || rest

runs-filter_by :
    (context ended : ℕ) (cs : List ℕ)
    → nat_beq context ended ≡ false
    → runs context cs ≡ true
    → runs context (filter_by (λ c. not (nat_beq c ended)) cs) ≡ true
unfolding runs
runs-filter_by context ended [] n h = h
runs-filter_by context ended (c ∷ cs) n h = ground (
  arith,
  nat_beq_iff c context,
  nat_beq_iff c ended,
  nat_beq_iff context ended,
  runs-filter_by context ended cs n,
)

-- A context that runs and is not the one that the connector could cancel.
record IsForgotten (context : ℕ) (b : BackgroundTasks) : Type 0 where
  pub old : context < b.made
  pub lost : (held : ℕ) → b.canceller ≡ some held → nat_beq context held ≡ false
  pub running_on : runs context b.running ≡ true

cancel-IsForgotten :
    (context : ℕ) (held : Option ℕ) (b : BackgroundTasks)
    → ((c : ℕ) → held ≡ some c → nat_beq context c ≡ false)
    → IsForgotten context b
    → IsForgotten context (cancel held b)
cancel-IsForgotten context none b other f = f
cancel-IsForgotten context (some held) b other f = record {
  old = f.old;
  lost = f.lost;
  running_on = runs-filter_by context held b.running (other held refl) f.running_on;
}

disconnected-IsForgotten :
    (context : ℕ) (b : BackgroundTasks)
    → IsForgotten context b
    → IsForgotten context (on_mesh_disconnected b)
unfolding on_mesh_disconnected
disconnected-IsForgotten context b f = cancel-IsForgotten context b.canceller b f.lost f

connected-IsForgotten :
    (context : ℕ) (b : BackgroundTasks) → IsForgotten context b → IsForgotten context (run_tasks b)
unfolding run_tasks runs
connected-IsForgotten context b f = record {
  old = omega (arith, f.old);
  lost = λ held e. ground (arith, f.old, nat_beq_iff context held);
  running_on = ground (arith, f.running_on);
}

follow_all-IsForgotten :
    (context : ℕ) (signals : List Signal) (b : BackgroundTasks)
    → IsForgotten context b
    → IsForgotten context (follow_all signals b)
unfolding follow_all follow
follow_all-IsForgotten context [] b f = f
follow_all-IsForgotten context (connected ∷ signals) b f =
    follow_all-IsForgotten context signals (run_tasks b) (connected-IsForgotten context b f)
follow_all-IsForgotten context (disconnected ∷ signals) b f =
    follow_all-IsForgotten context signals (on_mesh_disconnected b)
      (disconnected-IsForgotten context b f)

twice-IsForgotten : (b : BackgroundTasks) → IsForgotten b.made (run_tasks (run_tasks b))
unfolding run_tasks runs
twice-IsForgotten b = record {
  old = omega arith;
  lost = λ held e. ground (arith, nat_beq_iff b.made held);
  running_on = ground (arith, nat_beq_iff b.made b.made);
}

-- The calls of the two handlers among what the client did.
pub signals_of : List Effect → List Signal
signals_of [] = []
signals_of (on_connect again ∷ es) = connected ∷ signals_of es
signals_of (on_disconnect ∷ es) = disconnected ∷ signals_of es
signals_of (_ ∷ es) = signals_of es

-- The first start of a connector, of a client that was never connected and has no other connected
-- connector, starts background tasks that no later connection or loss of it ever stops.
pub first_start_leaves_tasks :
    (mh : MeshConnector) (w : World) (b : BackgroundTasks) (later : List Signal)
    → w.client.previously_connected ≡ false
    → w.client.has_connect_handler ≡ true
    → connected_count mh.ident w.client.mesh_connectors ≡ 0
    → let done = (handle_connector_state_change mh event_started w).1.effects in
      let signals = signals_of (drop (length w.effects) done) in
      runs b.made (follow_all later (follow_all signals b)).running ≡ true
unfolding signals_of follow_all follow
first_start_leaves_tasks mh w b later never handler alone =
    rw
      (
        first_start_connects_twice mh w never handler alone,
        drop-append w.effects (on_connect false ∷ on_connect false ∷ []),
      )
      (follow_all-IsForgotten b.made later (run_tasks (run_tasks b))
        (twice-IsForgotten b)).running_on
