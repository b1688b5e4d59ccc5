-- ===== src/Presence/Hub/Queue.antt =====
-- The ingest queue and the workers of backend/internal/presence/hub.go, beside jobs that run at once
-- (`serial`).
pub mod Serial
pub mod Counting
use smusic.Prelude.{
  ap, sym, ◌∙◌, ℕ, zero, suc, ◌≡◌, refl, Bool, Option, List, [], ◌∷◌, ◌++◌, All, String, arith,
}
use smusic.Presence.Hub.{
  take_job, enqueue, unregister, conn_of, process, Conn, Frame, IngestJob, Hub, Served, Failure,
  outer, deliver, evict, close, finish,
}
use smusic.Presence.Hub.Events.{run, stops, Event, enqueues, works, step}
use smusic.Effect.{Env, State, Outcome, ok, err, ◌>>=◌, state_of}
use smusic.Presence.Domain.{
  Error, Floats, GeoPosition, NearbyResult, consent_required, consent_expired,
}
use smusic.Presence.World.{World}
use smusic.Presence.Nearby.{Profiles}

-- What only connections write: the queue, whether it is closed, and the count of refused jobs.
abbrev pub Queue : Type 0
Queue = List IngestJob × (Bool × ℕ)

abbrev pub queue_of : State Served → Queue
queue_of s = (s.world.hub.ingest, (s.world.hub.closed, s.world.hub.ingest_dropped))

-- All else: the presence state, the registry, what was sent and which connections were closed.
abbrev pub bare : Hub → Hub
bare h = record h { ingest = []; ingest_dropped = zero }

abbrev pub effects : State Served → State Served
effects s = record s { world = record s.world { hub = bare s.world.hub } }

-- A connection offers a job, or a worker receives one.
abbrev pub IsTraffic : Event → Type 0
IsTraffic (enqueues job) = Unit
IsTraffic works = Unit
IsTraffic e = ⊥

abbrev pub IsOpen : Event → Type 0
IsOpen (stops hint) = ⊥
IsOpen e = Unit

-- How many jobs the connections offer.
abbrev pub offered : List Event → ℕ
offered [] = zero
offered (enqueues job ∷ es) = suc (offered es)
offered (e ∷ es) = offered es

module _ (env : Env) (fl : Floats) (jitter : ℕ → GeoPosition → Option GeoPosition)
    (profile : ℕ → Profiles) (accepts : ℕ → Conn → Frame → Bool) (presence_ttl : ℕ) where
  queue_of-deliver :
      (c : Conn) (f : Frame) (s : State Served)
      → queue_of (state_of (deliver accepts c f s)) ≡ queue_of s
  unfolding deliver
  queue_of-deliver c f s = ground arith

  queue_of-evict :
      (c : Conn) (hint : String) (s : State Served)
      → queue_of (state_of (evict env fl jitter profile accepts presence_ttl c hint s)) ≡ queue_of s
  unfolding evict deliver close ◌>>=◌
  queue_of-evict c hint s = ground arith

  queue_of-finish :
      (c : Conn) (h : Hub) (o : Outcome World Error (List NearbyResult))
      → queue_of (state_of (finish env fl jitter profile accepts presence_ttl c h o))
        ≡ (h.ingest, (h.closed, h.ingest_dropped))
  unfolding finish
  queue_of-finish c h (ok rs t) = queue_of-deliver c _ (outer h t)
  queue_of-finish c h (err consent_required t) = queue_of-evict c _ (outer h t)
  queue_of-finish c h (err consent_expired t) = queue_of-evict c _ (outer h t)
  queue_of-finish c h (err e t) = refl

  effects-deliver :
      (c : Conn) (f : Frame) (h : Hub) (t : State World)
      → effects (state_of (deliver accepts c f (outer h t)))
        ≡ effects (state_of (deliver accepts c f (outer (bare h) t)))
  unfolding deliver
  effects-deliver c f h t = ground arith

  effects-evict :
      (c : Conn) (hint : String) (h : Hub) (t : State World)
      → effects (state_of (evict env fl jitter profile accepts presence_ttl c hint (outer h t)))
        ≡ effects
            (state_of (evict env fl jitter profile accepts presence_ttl c hint (outer (bare h) t)))
  unfolding evict deliver close ◌>>=◌
  effects-evict c hint h t = ground arith

  effects-finish :
      (c : Conn) (h : Hub) (o : Outcome World Error (List NearbyResult))
      → effects (state_of (finish env fl jitter profile accepts presence_ttl c h o))
        ≡ effects (state_of (finish env fl jitter profile accepts presence_ttl c (bare h) o))
  unfolding finish
  effects-finish c h (ok rs t) = effects-deliver c _ h t
  effects-finish c h (err consent_required t) = effects-evict c _ h t
  effects-finish c h (err consent_expired t) = effects-evict c _ h t
  effects-finish c h (err e t) = refl

  abbrev pub processed : IngestJob → State Served → State Served
  processed job s = state_of (process env fl jitter profile accepts presence_ttl job s)

  effects-processed :
      (job : IngestJob) (s t : State Served)
      → effects s ≡ effects t
      → effects (processed job s) ≡ effects (processed job t)
  effects-processed job s t same =
      alone s ∙ ap (λ x. effects (processed job x)) same ∙ sym (alone t)
    where
      alone : (s : State Served) → effects (processed job s) ≡ effects (processed job (effects s))
      alone s = unfold process in effects-finish (conn_of job) s.world.hub _

  -- The jobs run one after the other, without a queue.
  unfoldable pub serial : List IngestJob → State Served → State Served
  serial [] s = s
  serial (job ∷ jobs) s = serial jobs (processed job s)

  pub effects-serial :
      (jobs : List IngestJob) (s t : State Served)
      → effects s ≡ effects t
      → effects (serial jobs s) ≡ effects (serial jobs t)
  unfolding serial
  effects-serial [] s t same = same
  effects-serial (job ∷ jobs) s t same =
      effects-serial jobs (processed job s) (processed job t) (effects-processed job s t same)

  abbrev if_accepted : IngestJob → Outcome Served Failure Unit → List IngestJob
  if_accepted job (ok u s) = job ∷ []
  if_accepted job (err e s) = []

  -- The job that an event adds to the queue.
  unfoldable pub added : Event → State Served → List IngestJob
  added (enqueues job) s = if_accepted job (enqueue job s)
  added e s = []

  -- The same over a run.
  unfoldable pub all_added : State Served → List Event → List IngestJob
  all_added s [] = []
  all_added s (e ∷ es) =
      added e s ++ all_added (state_of (step env fl jitter profile accepts presence_ttl e s)) es

  pub queue_of-unregister :
      (c : Conn) (s : State Served)
      → queue_of (state_of (unregister env fl jitter profile accepts presence_ttl c s)) ≡ queue_of s
  unfolding unregister ◌>>=◌
  queue_of-unregister c s = refl

  abbrev pub next : Event → State Served → State Served
  next e s = state_of (step env fl jitter profile accepts presence_ttl e s)

  pub queue_of-take :
      (job : IngestJob) (jobs : List IngestJob) (s : State Served)
      → queue_of (state_of (take_job env fl jitter profile accepts presence_ttl (job ∷ jobs) s))
        ≡ (jobs, (s.world.hub.closed, s.world.hub.ingest_dropped))
  unfolding ◌>>=◌ process
  queue_of-take job jobs s = queue_of-finish (conn_of job) _ _

  pub effects-take :
      (job : IngestJob) (jobs : List IngestJob) (s : State Served)
      → effects (state_of (take_job env fl jitter profile accepts presence_ttl (job ∷ jobs) s))
        ≡ effects (processed job s)
  unfolding ◌>>=◌
  effects-take job jobs s = effects-processed job _ s refl

  pub queue_of-idle :
      (s : State Served) → state_of (take_job env fl jitter profile accepts presence_ttl [] s) ≡ s
  unfolding ◌>>=◌
  queue_of-idle s = refl
