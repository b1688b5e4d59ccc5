-- ===== src/Presence/Hub/Delivery.antt =====
-- What backend/internal/presence/hub.go sends, to whom, and which connections it ends.
use smusic.Prelude.{
  Bool-cases, ℕ, String, ◌≡◌, ◌⊎◌, inl, inr, refl, ◌∙◌, Bool, Option, List, [], ◌∷◌, ◌++◌, arith,
}
use smusic.Effect.{Env, State, Outcome, ok, err, ◌>>=◌, world_of}
use smusic.Presence.Domain.{
  Error, Floats, GeoPosition, NearbyResult, consent_required, consent_expired,
}
use smusic.Presence.World.{World}
use smusic.Presence.Nearby.{Profiles}
use smusic.Presence.Nearby.Feed.{UpdateFeed, HeartbeatFeed, apply_update-Feed, apply_heartbeat-Feed}
use smusic.Presence.Hub.{
  Conn, Frame, IngestJob, Hub, Served, outer, inner, deliver, evict, close, finish, process,
  run_job, conn_of, job_update, job_heartbeat, nearby_update, resync_full, drain,
}

module _ (env : Env) (fl : Floats) (jitter : ℕ → GeoPosition → Option GeoPosition)
    (profile : ℕ → Profiles) (accepts : ℕ → Conn → Frame → Bool) (presence_ttl : ℕ) where
  -- The results of a job that starts in `s`.
  abbrev pub JobFeed : IngestJob → State World → List NearbyResult → Type 0
  JobFeed (job_update c raw track_id) s rs = UpdateFeed env fl jitter c.user_id raw s rs
  JobFeed (job_heartbeat c) s rs = HeartbeatFeed env fl c.user_id s rs

  -- A frame that a job may lead to: a drain, or results that pass the gates of its query.
  abbrev pub Shows : IngestJob → State World → Frame → Type 0
  Shows job s (nearby_update rs) = JobFeed job s rs
  Shows job s (resync_full rs) = ⊥
  Shows job s (drain hint) = Unit

  -- What was sent, beyond what `h` had sent: nothing, or one frame to `c`.
  abbrev pub AtMostOne : (Frame → Type 0) → Conn → Hub → Hub → Type 0
  AtMostOne P c h k = (k.sent ≡ h.sent) ⊎ ((f : Frame) × (k.sent ≡ h.sent ++ (c, f) ∷ []) × P f)

  sent-deliver :
      (P : Frame → Type 0) (c : Conn) (f : Frame) (s : State Served)
      → P f
      → AtMostOne P c s.world.hub (world_of (deliver accepts c f s)).hub
  unfolding deliver
  sent-deliver P c f s p = elim (Bool-cases (accepts s.tick c f)) [
    | inl e ↦ inr (f, ground arith, p)
    | inr e ↦ inl (ground arith)
  ]

  sent-evict :
      (c : Conn) (hint : String) (s : State Served)
      → (world_of (evict env fl jitter profile accepts presence_ttl c hint s)).hub.sent
        ≡ (world_of (deliver accepts c (drain hint) s)).hub.sent
  unfolding evict deliver close ◌>>=◌
  sent-evict c hint s = ground arith

  run_job-Feed :
      (job : IngestJob) (s t : State World) (rs : List NearbyResult)
      → run_job env fl jitter profile accepts presence_ttl job s ≡ ok rs t
      → JobFeed job s rs
  unfolding run_job
  run_job-Feed (job_update c raw track_id) s t rs h =
      (apply_update-Feed env fl jitter profile c.user_id raw track_id presence_ttl s t rs h).1
  run_job-Feed (job_heartbeat c) s t rs h =
      (apply_heartbeat-Feed env fl jitter profile c.user_id presence_ttl s t rs h).1

  evict-AtMostOne :
      (P : Frame → Type 0) (c : Conn) (hint : String) (s : State Served)
      → P (drain hint)
      → AtMostOne P c s.world.hub
          (world_of (evict env fl jitter profile accepts presence_ttl c hint s)).hub
  evict-AtMostOne P c hint s p = elim (sent-deliver P c (drain hint) s p) [
    | inl e ↦ inl (sent-evict c hint s ∙ e)
    | inr (f, e, q) ↦ inr (f, sent-evict c hint s ∙ e, q)
  ]

  finish-AtMostOne :
      (job : IngestJob) (s : State World) (c : Conn) (h : Hub)
      (o : Outcome World Error (List NearbyResult))
      → ((rs : List NearbyResult) (t : State World) → o ≡ ok rs t → JobFeed job s rs)
      → AtMostOne
          (Shows job s)
          c
          h
          (world_of (finish env fl jitter profile accepts presence_ttl c h o)).hub
  unfolding finish
  finish-AtMostOne job s c h (ok rs t) feed =
      sent-deliver _ c (nearby_update rs) (outer h t) (feed rs t refl)
  finish-AtMostOne job s c h (err consent_required t) feed = evict-AtMostOne _ c _ (outer h t) tt
  finish-AtMostOne job s c h (err consent_expired t) feed = evict-AtMostOne _ c _ (outer h t) tt
  finish-AtMostOne job s c h (err e t) feed = inl refl

  -- A job leads to at most one frame, to the connection that it came from: a drain, or a nearby list
  -- for which the requester consents and in which every result passes the gates of the query, at the
  -- time that the clock gave in the job and by the tables and the index before it.
  pub process-AtMostOne :
      (job : IngestJob) (s : State Served)
      → AtMostOne
          (Shows job (inner s))
          (conn_of job)
          s.world.hub
          (world_of (process env fl jitter profile accepts presence_ttl job s)).hub
  unfolding process
  process-AtMostOne job s =
      finish-AtMostOne job (inner s) (conn_of job) s.world.hub _
        (λ rs t. run_job-Feed job (inner s) t rs)
