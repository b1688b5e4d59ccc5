-- ===== src/Presence/Hub.antt =====
-- backend/internal/presence/hub.go. A run of the hub is a sequence of events, in the order in which
-- the goroutines' channel operations and locked sections happen; what the jobs do to the presence
-- state is theirs in that order. Conn.Send's verdict, at each interaction, is the argument `accepts`.
-- The wait of Run and Shutdown for the workers is not modelled; the channel is buffered, with a
-- capacity of at least 1.
pub mod Events
pub mod Queue
pub mod Delivery
pub mod Eviction
use smusic.Presence.RateLimit.{allow, update_frame_key, update_frame_limit, update_frame_window}
use smusic.Effect.{bump, Env, State, Outcome, Act, ok, err, pure, ◌>>=◌, ◌>>◌, state_of}
use smusic.Prelude.{
  ℕ, suc, String, Bool, true, Option, none, some, List, [], ◌∷◌, ◌++◌, length, ltb, ◌==◌,
  if◌then◌else◌, str_eq,
}
use smusic.Presence.Domain.{
  Error, Floats, GeoPosition, NearbyResult, consent_required, consent_expired, ingest_saturated,
}
use smusic.Presence.World.{World, Presence}
use smusic.Presence.Nearby.{Profiles, apply_update, apply_heartbeat, disconnect}

-- A connection: its identity, and UserID.
pub record Conn : Type 0 where
  pub id : ℕ
  pub user_id : String

pub data Frame : Type 0 where
  nearby_update : List NearbyResult → Frame
  resync_full : List NearbyResult → Frame
  drain : String → Frame

pub data IngestJob : Type 0 where
  job_update : Conn → GeoPosition → String → IngestJob
  job_heartbeat : Conn → IngestJob

abbrev pub conn_of : IngestJob → Conn
conn_of (job_update c raw track_id) = c
conn_of (job_heartbeat c) = c

-- The channel, the metrics and the registry, which has one connection for a user. What the
-- connections were sent, and which the hub closed, stand beside them.
pub record Hub : Type 0 where
  pub ingest : List IngestJob
  pub capacity : ℕ
  pub closed : Bool
  pub conns : List Conn
  pub ingest_dropped : ℕ
  pub fanout_dropped : ℕ
  pub frames_sent : ℕ
  pub sent : List (Conn × Frame)
  pub evicted : List Conn

pub record Served : Type 0 where
  pub presence : World
  pub hub : Hub

-- An error that is returned, or a panic: a send on the closed channel, or closing it again.
pub data Failure : Type 0 where
  returned : Error → Failure
  panicked : Failure

abbrev pub Hubbed : Type 0 → Type 0
Hubbed A = Act Served Failure A

abbrev pub set_hub : (Hub → Hub) → Hubbed Unit
set_hub f s = ok tt (record s { world = record s.world { hub = f s.world.hub } })

abbrev pub put_conn : Conn → List Conn → List Conn
put_conn c [] = c ∷ []
put_conn c (d ∷ ds) = if str_eq d.user_id c.user_id then c ∷ ds else d ∷ put_conn c ds

-- h.conns[userID]
abbrev pub conn_for : String → List Conn → Option Conn
conn_for user_id [] = none
conn_for user_id (d ∷ ds) = if str_eq d.user_id user_id then some d else conn_for user_id ds

-- delete(h.conns, userID), if the entry is this connection.
abbrev pub drop_conn : Conn → List Conn → List Conn
drop_conn c [] = []
drop_conn c (d ∷ ds) =
    if str_eq d.user_id c.user_id then (if d.id == c.id then ds else d ∷ ds) else d ∷ drop_conn c ds

-- A presence action on its part of the state.
abbrev pub inner : State Served → State World
inner s = record { tick = s.tick; world = s.world.presence }

abbrev pub outer : Hub → State World → State Served
outer h t = record { tick = t.tick; world = record { presence = t.world; hub = h } }

abbrev pub lifted : {A : Type 0} → Hub → Outcome World Error A → Outcome Served Failure A
lifted h (ok a t) = ok a (outer h t)
lifted h (err e t) = err (returned e) (outer h t)

abbrev pub lift : {A : Type 0} → Presence A → Hubbed A
lift m s = lifted s.world.hub (m (inner s))

unfoldable pub register : Conn → Hubbed Unit
register c = set_hub (λ h. record h { conns = put_conn c h.conns })

unfoldable pub enqueue : IngestJob → Hubbed Unit
enqueue job s =
    let h = s.world.hub in
    if h.closed
    then err panicked s
    else if ltb (length h.ingest) h.capacity
    then set_hub (λ k. record k { ingest = k.ingest ++ job ∷ [] }) s
    else err (returned ingest_saturated) (record s {
      world = record s.world { hub = record h { ingest_dropped = suc h.ingest_dropped } };
    })

unfoldable pub enqueue_update : Conn → GeoPosition → String → Hubbed Unit
enqueue_update c raw track_id = enqueue (job_update c raw track_id)

unfoldable pub enqueue_heartbeat : Conn → Hubbed Unit
enqueue_heartbeat c = enqueue (job_heartbeat c)

unfoldable pub close : Conn → Hubbed Unit
close c = set_hub (λ h. record h { evicted = h.evicted ++ c ∷ [] })

module _ (accepts : ℕ → Conn → Frame → Bool) where
  unfoldable pub deliver : Conn → Frame → Hubbed Unit
  deliver c f s =
      if accepts s.tick c f
      then set_hub (λ h. record h { frames_sent = suc h.frames_sent; sent = h.sent ++ (c, f) ∷ [] })
          (bump s)
      else set_hub (λ h. record h { fanout_dropped = suc h.fanout_dropped }) (bump s)

  unfoldable pub broadcast : Frame → List Conn → Hubbed Unit
  broadcast f [] = pure tt
  broadcast f (c ∷ cs) = do deliver c f; broadcast f cs

  abbrev pub close_ingest : Hubbed Unit
  close_ingest s =
      if s.world.hub.closed then err panicked s else set_hub (λ h. record h { closed = true }) s

  -- Shutdown, up to its wait. A Go map is iterated in no fixed order.
  unfoldable pub shutdown : String → Hubbed Unit
  shutdown reconnect_hint s =
      (do broadcast (drain reconnect_hint) s.world.hub.conns; close_ingest) s

module _ (env : Env) (fl : Floats) (jitter : ℕ → GeoPosition → Option GeoPosition)
    (profile : ℕ → Profiles) (accepts : ℕ → Conn → Frame → Bool) (presence_ttl : ℕ) where
  unfoldable pub unregister : Conn → Hubbed Unit
  unregister c = do
    set_hub (λ h. record h { conns = drop_conn c h.conns })
    (λ s.
        ok tt (outer s.world.hub (state_of (disconnect env fl jitter profile c.user_id (inner s)))))

  -- AllowUpdateFrame; NewHubWithLimit takes the default for a limit or a window that is not positive.
  unfoldable pub allow_update_frame : Bool → ℕ → ℕ → String → Presence Bool
  allow_update_frame has_limiter limit window user_id =
      if has_limiter
      then allow env (update_frame_key user_id) (if limit == 0 then update_frame_limit else limit)
          (if window == 0 then update_frame_window else window)
      else pure true

  unfoldable pub run_job : IngestJob → Presence (List NearbyResult)
  run_job (job_update c raw track_id) =
      apply_update env fl jitter profile c.user_id raw track_id presence_ttl
  run_job (job_heartbeat c) = apply_heartbeat env fl jitter profile c.user_id presence_ttl

  unfoldable pub evict : Conn → String → Hubbed Unit
  evict c hint = do deliver accepts c (drain hint); close c

  -- What process does with the outcome of the job.
  unfoldable pub finish :
      Conn → Hub → Outcome World Error (List NearbyResult) → Outcome Served Failure Unit
  finish c h (ok rs t) = deliver accepts c (nearby_update rs) (outer h t)
  finish c h (err consent_required t) = evict c "consent_required" (outer h t)
  finish c h (err consent_expired t) = evict c "consent_expired" (outer h t)
  finish c h (err e t) = ok tt (outer h t)

  unfoldable pub process : IngestJob → Hubbed Unit
  process job s = finish (conn_of job) s.world.hub (run_job job (inner s))

  unfoldable pub send_resync : Conn → GeoPosition → String → Hubbed Unit
  send_resync c raw track_id = do
    rs ← lift (apply_update env fl jitter profile c.user_id raw track_id presence_ttl)
    deliver accepts c (resync_full rs)

  -- One receive of a worker from the channel. On an empty channel it waits, or returns if the channel
  -- is closed.
  abbrev pub take_job : List IngestJob → Hubbed Unit
  take_job [] = pure tt
  take_job (job ∷ jobs) = do set_hub (λ h. record h { ingest = jobs }); process job

  unfoldable pub work : Hubbed Unit
  work s = take_job s.world.hub.ingest s
