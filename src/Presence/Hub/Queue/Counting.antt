-- ===== src/Presence/Hub/Queue/Counting.antt =====
-- What backend/internal/presence/hub.go counts of the jobs that it refuses.
use smusic.Prelude.{ℕ, Bool, Option}
use smusic.Presence.Hub.{Conn, Frame, Served}
use smusic.Presence.Hub.Queue.{Queue}
use smusic.Effect.{Env, State}
use smusic.Presence.Domain.{Floats, GeoPosition}
use smusic.Presence.Nearby.{Profiles}

module _ (env : Env) (fl : Floats) (jitter : ℕ → GeoPosition → Option GeoPosition)
    (profile : ℕ → Profiles) (accepts : ℕ → Conn → Frame → Bool) (presence_ttl : ℕ) where
  abbrev refused : State Served → ℕ
  refused s = s.world.hub.ingest_dropped
