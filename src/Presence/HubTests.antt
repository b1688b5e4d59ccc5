-- ===== src/Presence/HubTests.antt =====
-- Concrete runs of the hub, over the presence state of Presence.Tests.
use smusic.Prelude.{ℕ, ◌≡◌, refl, Bool, true, false, some, List, [], ◌∷◌, ◌++◌}
use smusic.Effect.{State, Outcome, ok, err, ◌>>=◌, state_of, world_of}
use smusic.Presence.Tests.{
  env, fl, at, start, jitter, profile, revoke_ana, ana_revoked, world-AllValid, ana-revokes,
}
use smusic.Presence.Settings.Consent.{IsAbsent}
use smusic.Presence.Hub
use smusic.Presence.Hub.{
  Conn, Frame, Hub, Served, Failure, job_update, job_heartbeat, inner, outer, conn_for, panicked,
  shutdown, conn_of,
}
use smusic.Presence.Hub.Events.{Event, registers, unregisters, enqueues, works}
use smusic.Presence.Hub.Delivery.{process-AtMostOne, AtMostOne, Shows}
use smusic.Presence.Hub.Eviction.{revoke_consent-process, unregister-IsAbsent, shutdown-enqueue}

abbrev accepts : ℕ → Conn → Frame → Bool
accepts n c f = true

abbrev phone : Conn
phone = record { id = 1; user_id = "ana" }

abbrev laptop : Conn
laptop = record { id = 2; user_id = "ana" }

abbrev hub : Hub
hub = record {
  ingest = [];
  capacity = 2;
  closed = false;
  conns = laptop ∷ [];
  ingest_dropped = 0;
  fanout_dropped = 0;
  frames_sent = 0;
  sent = [];
  evicted = [];
}

abbrev served : State Served
served = outer hub start

-- A job runs while another waits, and a third waits at the end.
abbrev traffic : List Event
traffic =
    enqueues (job_update phone (at 5) "song")
    ∷ enqueues (job_heartbeat phone)
    ∷ works
    ∷ enqueues (job_heartbeat phone)
    ∷ works
    ∷ []

abbrev crowd : List Event
crowd =
    registers phone
    ∷ enqueues (job_heartbeat phone)
    ∷ enqueues (job_update phone (at 5) "song")
    ∷ enqueues (job_heartbeat phone)
    ∷ works
    ∷ unregisters phone
    ∷ []

process-AtMostOne_example :
    AtMostOne env fl jitter profile accepts 60
      (Shows env fl jitter profile accepts 60 (job_update phone (at 5) "song") (inner served))
      phone
      hub
      (world_of
        (Hub.process env fl jitter profile accepts 60 (job_update phone (at 5) "song") served)).hub
process-AtMostOne_example =
    process-AtMostOne env fl jitter profile accepts 60 (job_update phone (at 5) "song") served

revoke_consent-process_example :
    (world_of (
      Hub.process env fl jitter profile accepts 60
        (job_heartbeat phone)
        (outer hub (state_of revoke_ana)))).hub.evicted
    ≡ hub.evicted ++ phone ∷ []
revoke_consent-process_example =
    revoke_consent-process env fl jitter profile accepts 60 true "ana" (job_heartbeat phone) hub
      start (state_of revoke_ana) ana_revoked (λ _. refl) world-AllValid refl ana-revokes

unregister-IsAbsent_example :
    (conn_for "ana"
        (world_of (Hub.unregister env fl jitter profile accepts 60 phone served)).hub.conns
      ≡ some laptop)
    × IsAbsent "ana"
        (world_of (Hub.unregister env fl jitter profile accepts 60 phone served)).presence
unregister-IsAbsent_example =
    unregister-IsAbsent env fl jitter profile accepts 60 phone laptop served (λ _. refl) refl refl

abbrev stopping : Outcome Served Failure Unit
stopping = shutdown accepts "soon" served

stops-once : stopping ≡ ok tt (state_of stopping)
unfolding Hub.shutdown Hub.broadcast Hub.deliver ◌>>=◌
stops-once = refl

shutdown-enqueue_example :
    Hub.enqueue (job_heartbeat laptop) (state_of stopping) ≡ err panicked (state_of stopping)
shutdown-enqueue_example =
    shutdown-enqueue env fl jitter profile accepts 60 "soon" (job_heartbeat laptop) served
      (state_of stopping) stops-once
