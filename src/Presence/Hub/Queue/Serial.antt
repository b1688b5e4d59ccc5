-- ===== src/Presence/Hub/Queue/Serial.antt =====
-- The workers of backend/internal/presence/hub.go, and the order of their jobs.
use smusic.Prelude.{ℕ, ◌≡◌, Bool, Option, List, ◌++◌}
use smusic.Presence.Hub.{Conn, Frame, IngestJob, Served}
use smusic.Presence.Hub.Events.{run, Event}
use smusic.Presence.Hub.Queue.{Queue, effects, serial, all_added}
use smusic.Effect.{Env, State}
use smusic.Presence.Domain.{Floats, GeoPosition}
use smusic.Presence.Nearby.{Profiles}

module _ (env : Env) (fl : Floats) (jitter : ℕ → GeoPosition → Option GeoPosition)
    (profile : ℕ → Profiles) (accepts : ℕ → Conn → Frame → Bool) (presence_ttl : ℕ) where
  -- The workers have run `done`, the first of the jobs that were in the queue or came into it.
  abbrev pub Worked : State Served → List Event → List IngestJob → Type 0
  Worked s es done =
      (s.world.hub.ingest ++ all_added env fl jitter profile accepts presence_ttl s es
        ≡ done ++ (run env fl jitter profile accepts presence_ttl s es).world.hub.ingest)
      × (effects (run env fl jitter profile accepts presence_ttl s es)
          ≡ effects (serial env fl jitter profile accepts presence_ttl done s))
