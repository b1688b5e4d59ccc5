-- ===== src/Presence/Nearby/Feed.antt =====
-- The two entry points of the feed, ApplyUpdate and ApplyHeartbeat of
-- backend/internal/presence/nearby_service.go: consent, what is written to the index, what comes back.
pub mod Others
use smusic.Prelude.{
  subst, ℕ, suc, String, ◌≡◌, refl, sym, ap, ◌∙◌, true, Option, none, some, List, [], arith, All,
  All-map, Option-cases, inl, inr,
}
use smusic.Effect.{Env, State, Outcome, ok, bump, ◌>>=◌, now, >>=-eq-ok, now-eq-ok, pure-eq-ok}
use smusic.Effect.Keeps.{Post}
use smusic.Presence.Domain.{
  Error, PrivacySettings, Floats, GeoPosition, NearbyResult, has_active_consent,
}
use smusic.Presence.World.{World, context}
use smusic.Presence.Repo
use smusic.Presence.GeoIndex
use smusic.Presence.GeoIndex.{position_of}
use smusic.Presence.Nearby.{
  Profiles, settings_or_default, check_consent, displace, publish, query, query_at, apply_update,
  apply_heartbeat,
}
use smusic.Presence.Nearby.Privacy.{
  settings_of, SameRows, SameTables, SameOthers, Permitted, Permitted-others,
}
use smusic.Presence.Nearby.Privacy.Gates.{query-Keeps}
use smusic.Presence.Nearby.Feed.Others.{publish-Others, touch-Others}

-- A nearby list that respects the tables and the index of `w`: the requester's settings consent at
-- `time`, and each result is permitted to them there, seen from a position that `from` describes.
pub record Feed (fl : Floats) (w : World) (requester_id : String) (time : ℕ)
    (from : GeoPosition → Type 0) (rs : List NearbyResult) : Type 0 where
  pub consented :
      has_active_consent (settings_of requester_id (w.settings requester_id)) time ≡ true
  pub permitted :
      All
        (λ r.
          (p : GeoPosition) × from p
          × Permitted fl w requester_id
              (settings_of requester_id (w.settings requester_id))
              p
              time
              r)
        rs

-- The feed of a call that starts in `s`, by the clock at its second interaction: an update is seen
-- from the raw position as the third one displaces it, a heartbeat from the stored position.
abbrev pub UpdateFeed :
    Env
    → Floats
    → (ℕ → GeoPosition → Option GeoPosition)
    → String
    → GeoPosition
    → State World
    → List NearbyResult
    → Type 0
UpdateFeed env fl jitter requester_id raw s rs =
    Feed fl s.world requester_id (env.clock (suc s.tick))
      (λ p. jitter (suc (suc s.tick)) raw ≡ some p) rs

abbrev pub HeartbeatFeed : Env → Floats → String → State World → List NearbyResult → Type 0
HeartbeatFeed env fl requester_id s rs =
    Feed fl s.world requester_id (env.clock (suc s.tick))
      (λ p. position_of requester_id s.world.members ≡ some p) rs

module _ (env : Env) (fl : Floats) (jitter : ℕ → GeoPosition → Option GeoPosition)
    (profile : ℕ → Profiles) where
  settings-eq-ok :
      (u : String) (s t : State World) (mine : PrivacySettings)
      → settings_or_default env fl jitter profile u s ≡ ok mine t
      → (mine ≡ settings_of u (s.world.settings u)) × (bump s ≡ t)
  unfolding settings_or_default Repo.get ◌>>=◌
  settings-eq-ok u s t mine h = elim (Option-cases (s.world.settings u)) [
    | inl e ↦ ground (arith, h, e)
    | inr (row, e) ↦ ground (arith, h, e)
  ]

  check_consent-eq-ok :
      (mine : PrivacySettings) (time : ℕ) (s t : State World) (u : Unit)
      → check_consent mine time s ≡ ok u t
      → (has_active_consent mine time ≡ true) × (s ≡ t)
  unfolding check_consent ◌>>=◌
  check_consent-eq-ok mine time s t u h = ground (arith, h)

  displace-eq-ok :
      (raw p : GeoPosition) (s t : State World)
      → displace env fl jitter profile raw s ≡ ok p t
      → (jitter s.tick raw ≡ some p) × (bump s ≡ t)
  unfolding displace
  displace-eq-ok raw p s t h = ground (arith, h)

  -- The beginning that both calls share.
  opening :
      (requester_id : String) (s t : State World) (rs : List NearbyResult)
      (rest : PrivacySettings → ℕ → State World → Outcome World Error (List NearbyResult))
      → (settings_or_default env fl jitter profile requester_id >>= λ mine.
            now env >>= λ time. check_consent mine time >>= λ _. rest mine time)
          s
        ≡ ok rs t
      → let mine = settings_of requester_id (s.world.settings requester_id) in
        let time = env.clock (suc s.tick) in
        (has_active_consent mine time ≡ true) × (rest mine time (bump (bump s)) ≡ ok rs t)
  opening requester_id s t rs rest h =
      let (mine, s1, e1, h1) = >>=-eq-ok _ _ s h in
      let (own, at1) = settings-eq-ok requester_id s s1 mine e1 in
      let (time, s2, e2, h2) = >>=-eq-ok (now env) _ s1 h1 in
      let (clock, at2) = now-eq-ok env s1 e2 in
      let (u, s3, e3, h3) = >>=-eq-ok (check_consent mine time) _ s2 h2 in
      let (active, at3) = check_consent-eq-ok mine time s2 s3 u e3 in
      let clock0 : env.clock (suc s.tick) ≡ time =
        ap (λ (x : State World). env.clock x.tick) at1 ∙ clock in
      let at0 : bump (bump s) ≡ s3 = ap (λ (x : State World). bump x) at1 ∙ at2 ∙ at3 in
      let stored = settings_of requester_id (s.world.settings requester_id) in
      (
        ap (λ n. has_active_consent stored n) clock0
            ∙ ap (λ m. has_active_consent m time) (sym own)
            ∙ active,
        ap (λ n. rest stored n (bump (bump s))) clock0
            ∙ ap (λ m. rest m time (bump (bump s))) (sym own)
            ∙ ap (λ x. rest mine time x) at0
            ∙ h3,
      )

  query-Feed :
      (requester_id : String) (s u t : State World) (time : ℕ) (from : GeoPosition → Type 0)
      (p : GeoPosition) (rs : List NearbyResult)
      → has_active_consent (settings_of requester_id (s.world.settings requester_id)) time ≡ true
      → from p
      → SameOthers requester_id s.world u.world
      → query env fl jitter profile requester_id
          (settings_of requester_id (s.world.settings requester_id))
          p
          time
          u
        ≡ ok rs t
      → SameRows s.world t.world × Feed fl s.world requester_id time from rs
  query-Feed requester_id s u t time from p rs consented there same h =
      let mine = settings_of requester_id (s.world.settings requester_id) in
      let (tables, permitted) =
        subst (Post (SameTables u.world) (All (Permitted fl u.world requester_id mine p time))) h (
          (query-Keeps env fl jitter profile u.world requester_id mine p time).at u (record {
            settings = refl;
            blocks = refl;
            follows = refl;
            members = refl;
            details = refl;
          })) in
      (
        record {
          settings = tables.settings ∙ same.rows.settings;
          blocks = tables.blocks ∙ same.rows.blocks;
          follows = tables.follows ∙ same.rows.follows;
        },
        record {
          consented = consented;
          permitted =
              All-map _ _
                (λ r k.
                  (p, there, Permitted-others fl s.world u.world requester_id mine p time same r k))
                rs permitted;
        },
      )

  answered :
      (requester_id : String) (s u t : State World) (time : ℕ) (rs : List NearbyResult)
      (o : Option GeoPosition)
      → has_active_consent (settings_of requester_id (s.world.settings requester_id)) time ≡ true
      → SameOthers requester_id s.world u.world
      → ((p : GeoPosition) → o ≡ some p → position_of requester_id s.world.members ≡ some p)
      → query_at env fl jitter profile requester_id
          (settings_of requester_id (s.world.settings requester_id))
          time
          o
          u
        ≡ ok rs t
      → SameRows s.world t.world
        × Feed fl s.world requester_id time
            (λ p. position_of requester_id s.world.members ≡ some p)
            rs
  answered requester_id s u t time rs none active same stored h =
      let (nothing, at_u) = pure-eq-ok [] u h in
      (
        subst (λ (x : State World). SameRows s.world x.world) at_u same.rows,
        record { consented = active; permitted = subst (All _) nothing tt },
      )
  answered requester_id s u t time rs (some p) active same stored h =
      query-Feed requester_id s u t time _ p rs active (stored p refl) same h

  -- An update that succeeds leaves the settings, blocks and follows as they were. By those tables
  -- before the call the requester consents at the time that the clock gave in the call, at its second
  -- interaction, and every result passes the gates of the query at that time, against the tables and
  -- the index before the call: not oneself, no block either way, the target not hidden and
  -- consenting, a mutual follow where the target asks for one, and a distance within both radii
  -- between the target's position in the index and the raw position as the third interaction
  -- displaced it; it carries the bucket of that distance, a name and an avatar only where they are
  -- revealed, and the track of the target's entry in the index exactly if that shares it, otherwise
  -- none.
  pub apply_update-Feed :
      (requester_id : String) (raw : GeoPosition) (track_id : String) (ttl : ℕ) (s t : State World)
      (rs : List NearbyResult)
      → apply_update env fl jitter profile requester_id raw track_id ttl s ≡ ok rs t
      → SameRows s.world t.world × UpdateFeed env fl jitter requester_id raw s rs
  unfolding apply_update
  apply_update-Feed requester_id raw track_id ttl s t rs h =
      let mine = settings_of requester_id (s.world.settings requester_id) in
      let time = env.clock (suc s.tick) in
      let (active, h1) = opening requester_id s t rs _ h in
      let (p, s2, e2, h2) = >>=-eq-ok (displace env fl jitter profile raw) _ (bump (bump s)) h1 in
      let (there, at2) = displace-eq-ok raw p (bump (bump s)) s2 e2 in
      let (done, s3, e3, h3) =
        >>=-eq-ok (publish env fl jitter profile requester_id mine p track_id ttl time) _ s2 h2 in
      let same =
        publish-Others env fl jitter profile requester_id mine p track_id ttl time s2 s3 done e3 in
      query-Feed requester_id s s3 t time _ p rs active there
        (subst (λ (x : State World). SameOthers requester_id x.world s3.world) (sym at2) same) h3

  -- A heartbeat that succeeds leaves the settings, blocks and follows as they were. By those tables
  -- before the call the requester consents at the time that the clock gave in the call, at its second
  -- interaction, and every result passes the same gates as in an update, at that time, with the
  -- distance from the requester's position that the index has before the call.
  pub apply_heartbeat-Feed :
      (requester_id : String) (ttl : ℕ) (s t : State World) (rs : List NearbyResult)
      → apply_heartbeat env fl jitter profile requester_id ttl s ≡ ok rs t
      → SameRows s.world t.world × HeartbeatFeed env fl requester_id s rs
  unfolding apply_heartbeat
  apply_heartbeat-Feed requester_id ttl s t rs h =
      let time = env.clock (suc s.tick) in
      let (active, h1) = opening requester_id s t rs _ h in
      let (o, s2, e2, h2) =
        >>=-eq-ok
          (context "presence: touch presence entry" (GeoIndex.touch env fl requester_id ttl)) _
          (bump (bump s)) h1 in
      let (same, stored) =
        touch-Others env fl jitter profile requester_id _ ttl (bump (bump s)) s2 o e2 in
      answered requester_id s s2 t time rs o active same stored h2
