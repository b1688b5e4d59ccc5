-- ===== src/Presence/Hub/Events.antt =====
-- The runs of the hub of backend/internal/presence/hub.go: what connections, workers and the shutdown
-- do, in some order.
use smusic.Prelude.{Option, ℕ, String, Bool, List, [], ◌∷◌}
use smusic.Effect.{Env, State, state_of}
use smusic.Presence.Domain.{Floats, GeoPosition}
use smusic.Presence.Nearby.{Profiles}
use smusic.Presence.Hub.{
  Conn, Frame, IngestJob, Served, Hubbed, register, unregister, enqueue, work, shutdown,
}

pub data Event : Type 0 where
  registers unregisters : Conn → Event
  enqueues : IngestJob → Event
  works : Event
  stops : String → Event

module _ (env : Env) (fl : Floats) (jitter : ℕ → GeoPosition → Option GeoPosition)
    (profile : ℕ → Profiles) (accepts : ℕ → Conn → Frame → Bool) (presence_ttl : ℕ) where
  unfoldable pub step : Event → Hubbed Unit
  step (registers c) = register c
  step (unregisters c) = unregister env fl jitter profile accepts presence_ttl c
  step (enqueues job) = enqueue job
  step works = work env fl jitter profile accepts presence_ttl
  step (stops reconnect_hint) = shutdown accepts reconnect_hint

  unfoldable pub run : State Served → List Event → State Served
  run s [] = s
  run s (e ∷ es) = run (state_of (step e s)) es
