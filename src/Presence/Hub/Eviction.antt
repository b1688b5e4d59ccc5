-- ===== src/Presence/Hub/Eviction.antt =====
-- How backend/internal/presence/hub.go ends connections: eviction, Unregister and Shutdown.
use smusic.Effect.{
  bump, Env, State, Outcome, ok, err, ◌>>=◌, >>=-eq-ok, >>=-ok, state_of, world_of, now,
}
use smusic.Prelude.{
  ℕ, String, ◌≡◌, ◌⊎◌, inl, inr, refl, sym, subst, Bool, false, Option, some, List, [], ◌∷◌, ◌++◌,
  arith, str_eq, ◌==◌, eq_refl, Bool-cases,
}
use smusic.Presence.Domain.{
  Error, Floats, GeoPosition, NearbyResult, PrivacySettings, consent_required, consent_expired,
  has_active_consent,
}
use smusic.Presence.World.{World, Presence}
use smusic.Presence.Repo
use smusic.Presence.GeoIndex
use smusic.Presence.Nearby.{
  Profiles, apply_update, apply_heartbeat, settings_or_default, check_consent, disconnect,
}
use smusic.Presence.Nearby.Privacy.{settings_of}
use smusic.Presence.Nearby.Exclusion.{inactive_row}
use smusic.Presence.Settings.{revoke_consent}
use smusic.Presence.Settings.Validity.{AllValid}
use smusic.Presence.Settings.Consent.{IsAbsent, position_of-geo_remove, revoke_consent-settings}
use smusic.Presence.Hub.{
  Conn, Frame, IngestJob, Hub, Served, outer, unregister, enqueue, shutdown, deliver, evict, close,
  finish, process, run_job, conn_of, job_update, job_heartbeat, drain, panicked, conn_for,
  drop_conn, broadcast,
}

-- The two errors for which the hub evicts.
abbrev pub Refused : {A : Type 0} → Outcome World Error A → Type 0
Refused o = (u : State World) × ((o ≡ err consent_required u) ⊎ (o ≡ err consent_expired u))

module _ (env : Env) (fl : Floats) (jitter : ℕ → GeoPosition → Option GeoPosition)
    (profile : ℕ → Profiles) (accepts : ℕ → Conn → Frame → Bool) (presence_ttl : ℕ) where
  check_consent-Refused :
      (mine : PrivacySettings) (time : ℕ) (k : Unit → Presence (List NearbyResult))
      (s : State World)
      → has_active_consent mine time ≡ false
      → Refused ((check_consent mine time >>= k) s)
  unfolding check_consent ◌>>=◌
  check_consent-Refused mine time k s inactive = elim (Bool-cases mine.proximity_consent_enabled) [
    | inl e ↦ (s, inr (ground arith))
    | inr e ↦ (s, inl (ground arith))
  ]

  settings-ok :
      (u : String) (s : State World)
      → ((n : ℕ) → env.fault n ≡ false)
      → settings_or_default env fl jitter profile u s
        ≡ ok
            (settings_of u (s.world.settings u))
            (state_of (settings_or_default env fl jitter profile u s))
  unfolding settings_or_default Repo.get ◌>>=◌
  settings-ok u s up = ground (arith, up s.tick)

  now-ok : (s : State World) → now {E = Error} env s ≡ ok (env.clock s.tick) (bump s)
  unfolding now
  now-ok s = refl

  gated-Refused :
      (u : String) (k : PrivacySettings → ℕ → Unit → Presence (List NearbyResult)) (s : State World)
      → ((n : ℕ) → env.fault n ≡ false)
      → ((time : ℕ) → has_active_consent (settings_of u (s.world.settings u)) time ≡ false)
      → Refused (
          (settings_or_default env fl jitter profile u >>= λ mine.
          now env >>= λ time. check_consent mine time >>= k mine time)
            s)
  gated-Refused u k s up inactive =
      let t = state_of (settings_or_default env fl jitter profile u s) in
      let mine = settings_of u (s.world.settings u) in
      subst Refused
        (sym (>>=-ok (settings_or_default env fl jitter profile u) _ s (settings-ok u s up)))
        (subst Refused (sym (>>=-ok (now env) _ t (now-ok t))) (
          check_consent-Refused mine (env.clock t.tick) (k mine (env.clock t.tick)) _ (inactive _)))

  run_job-Refused :
      (job : IngestJob) (s : State World)
      → ((n : ℕ) → env.fault n ≡ false)
      → ((time : ℕ)
          → has_active_consent
              (settings_of (conn_of job).user_id (s.world.settings (conn_of job).user_id))
              time
            ≡ false)
      → Refused (run_job env fl jitter profile accepts presence_ttl job s)
  unfolding run_job apply_update apply_heartbeat
  run_job-Refused (job_update c raw track_id) s up inactive =
      gated-Refused c.user_id _ s up inactive
  run_job-Refused (job_heartbeat c) s up inactive = gated-Refused c.user_id _ s up inactive

  evicted-finish :
      (c : Conn) (h : Hub) (o : Outcome World Error (List NearbyResult))
      → Refused o
      → (world_of (finish env fl jitter profile accepts presence_ttl c h o)).hub.evicted
        ≡ h.evicted ++ c ∷ []
  unfolding finish evict deliver close ◌>>=◌
  evicted-finish c h o (u, inl e) = ground (arith, e)
  evicted-finish c h o (u, inr e) = ground (arith, e)

  -- From a table whose rows are valid: once a user's revocation has succeeded, a job of a
  -- connection of that user that follows it, an update or a heartbeat, closes the connection, if
  -- no interaction fails.
  pub revoke_consent-process :
      (has_index : Bool) (u : String) (job : IngestJob) (h : Hub) (s t : State World)
      (r : PrivacySettings)
      → ((n : ℕ) → env.fault n ≡ false)
      → AllValid s.world
      → (conn_of job).user_id ≡ u
      → revoke_consent env fl has_index u s ≡ ok r t
      → (world_of (process env fl jitter profile accepts presence_ttl job (outer h t))).hub.evicted
        ≡ h.evicted ++ conn_of job ∷ []
  unfolding process
  revoke_consent-process has_index u job h s t r up valid owner revoked =
      evicted-finish (conn_of job) h _ (
        run_job-Refused job t up (
          subst
            (λ v. (time : ℕ) → has_active_consent (settings_of v (t.world.settings v)) time ≡ false)
            (sym owner)
            (λ time.
              inactive_row u (t.world.settings u) time
                (revoke_consent-settings env fl u has_index s t r valid revoked))))

  conns-drop_conn :
      (c d : Conn) (cs : List Conn)
      → conn_for c.user_id cs ≡ some d
      → (d.id == c.id) ≡ false
      → drop_conn c cs ≡ cs
  conns-drop_conn c d [] e ne = refl
  conns-drop_conn c d (x ∷ cs) e ne = elim (Bool-cases (str_eq x.user_id c.user_id)) [
    | inl same ↦ ground arith
    | inr other ↦ ground (arith, conns-drop_conn c d cs (rw other at e) ne)
  ]

  -- Unregistering a connection that a newer one of the same user has replaced leaves the newer one
  -- registered, and, if no interaction fails, takes the user out of the geo index all the same.
  pub unregister-IsAbsent :
      (c d : Conn) (s : State Served)
      → ((n : ℕ) → env.fault n ≡ false)
      → conn_for c.user_id s.world.hub.conns ≡ some d
      → (d.id == c.id) ≡ false
      → (conn_for c.user_id
            (world_of (unregister env fl jitter profile accepts presence_ttl c s)).hub.conns
          ≡ some d)
        × IsAbsent c.user_id
            (world_of (unregister env fl jitter profile accepts presence_ttl c s)).presence
  unfolding unregister disconnect GeoIndex.remove ◌>>=◌
  unregister-IsAbsent c d s up found newer = (
    ground (arith, conns-drop_conn c d s.world.hub.conns found newer),
    (
      grind (arith, up, position_of-geo_remove, eq_refl),
      grind (arith, up, position_of-geo_remove, eq_refl),
    ),
  )

  -- After a shutdown has closed the queue, an update or heartbeat of a connection that is still open
  -- panics: the send is on a closed channel.
  pub shutdown-enqueue :
      (hint : String) (job : IngestJob) (s t : State Served)
      → shutdown accepts hint s ≡ ok tt t
      → enqueue job t ≡ err panicked t
  unfolding shutdown enqueue
  shutdown-enqueue hint job s t h =
      let (x, u, e, h1) = >>=-eq-ok (broadcast accepts (drain hint) s.world.hub.conns) _ s h in
      ground arith
