-- ===== src/Presence/Nearby/Log.antt =====
-- The access log of a whole update or heartbeat of backend/internal/presence/nearby_service.go.
use smusic.Prelude.{
  subst, refl, ap, ◌∙◌, ◌++◌, map, Option, none, some, if◌then◌else◌, true, false, ℕ, String, ◌≡◌,
  Bool, List, [], ◌∷◌, arith,
}
use smusic.Effect.{State, now, pure, ok, >>=-eq-ok, pure-eq-ok, Env, ◌>>=◌}
use smusic.Effect.Keeps.{
  Keeps-now, Post, Keeps, Any, frame_rules, Keeps-catch, Keeps-raise, Keeps-done, Keeps-then,
}
use mathlib.Core.List.{append-nil}
use smusic.Presence.Domain.{
  NearbyResult, AuditLogEntry, PrivacySettings, Floats, GeoPosition, NearbyCandidate,
}
use smusic.Presence.Nearby.{
  hydrate, screen, query, apply_update, query_at, Profiles, Candidate, settings_or_default,
  check_consent, displace, judge_distance, judge_target, judge, survivors, resolve, publish,
}
use smusic.Presence.Nearby.Audit.{of_entry, of_result, audit-results}
use smusic.Presence.World.{World, Presence, context}
use smusic.Presence.Repo
use smusic.Presence.GeoIndex
use smusic.Presence.RateLimit.{allow, hit, arm}

module _ (env : Env) (fl : Floats) (jitter : ℕ → GeoPosition → Option GeoPosition)
    (profile : ℕ → Profiles) (log : List AuditLogEntry) where
  abbrev Same : World → Type 0
  Same w = w.audit ≡ log

  context-Same :
      {A : Type 0} (text : String) (m : Presence A)
      → Keeps Same Any m
      → Keeps Same Any (context text m)
  context-Same text m k = Keeps-catch m _ k (λ e. Keeps-raise _)

  settings_or_default-Same :
      (u : String) → Keeps Same Any (settings_or_default env fl jitter profile u)
  unfolding settings_or_default Repo.get ◌>>=◌
  settings_or_default-Same u = record { at = λ s h. ground arith }

  check_consent-Same : (st : PrivacySettings) (time : ℕ) → Keeps Same Any (check_consent st time)
  unfolding check_consent ◌>>=◌
  check_consent-Same st time = record { at = λ s h. ground arith }

  displace-Same : (raw : GeoPosition) → Keeps Same Any (displace env fl jitter profile raw)
  unfolding displace
  displace-Same raw = record { at = λ s h. ground arith }

  publish-Same :
      (u : String) (mine : PrivacySettings) (pos : GeoPosition) (track_id : String) (ttl time : ℕ)
      → Keeps Same Any (publish env fl jitter profile u mine pos track_id ttl time)
  unfolding publish GeoIndex.remove GeoIndex.upsert ◌>>=◌
  publish-Same u mine pos track_id ttl time = record { at = λ s h. ground arith }

  touch-Same : (u : String) (ttl : ℕ) → Keeps Same Any (GeoIndex.touch env fl u ttl)
  unfolding GeoIndex.touch ◌>>=◌
  touch-Same u ttl = record { at = λ s h. ground arith }

  search-Same :
      (pos : GeoPosition) (r : ℕ) (u : String) → Keeps Same Any (GeoIndex.search env fl pos r u)
  unfolding GeoIndex.search ◌>>=◌
  search-Same pos r u = record { at = λ s h. ground arith }

  detail-Same : (ids : List String) → Keeps Same Any (GeoIndex.detail env fl ids)
  unfolding GeoIndex.detail ◌>>=◌
  detail-Same [] = record { at = λ s h. ground arith }
  detail-Same (id ∷ ids) = record { at = λ s h. ground arith }

  allow-Same : (key : String) (limit window : ℕ) → Keeps Same Any (allow env key limit window)
  unfolding allow hit arm ◌>>=◌
  allow-Same key limit window = record { at = λ s h. ground arith }

  blocked-Same : (a b : String) → Keeps Same Any (Repo.is_blocked_either_way env a b)
  unfolding Repo.is_blocked_either_way ◌>>=◌
  blocked-Same a b = record { at = λ s h. ground arith }

  mutual-Same : (a b : String) → Keeps Same Any (Repo.is_mutual_follow env a b)
  unfolding Repo.is_mutual_follow ◌>>=◌
  mutual-Same a b = record { at = λ s h. ground arith }

  resolve-Same : (cs : List Candidate) → Keeps Same Any (resolve env fl jitter profile cs)
  unfolding resolve ◌>>=◌
  resolve-Same cs = record { at = λ s h. ground arith }

  judge_distance-Same :
      (u : String) (mine : PrivacySettings) (pos : GeoPosition) (c : NearbyCandidate)
      (target : PrivacySettings) (b : Bool)
      → Keeps Same Any (judge_distance env fl jitter profile u mine pos c target b)
  unfolding judge_distance
  judge_distance-Same u mine pos c target b =
      search (frame_rules, context-Same, allow-Same) depth 30

  judge_target-Same :
      (u : String) (mine : PrivacySettings) (pos : GeoPosition) (time : ℕ) (c : NearbyCandidate)
      → Keeps Same Any (judge_target env fl jitter profile u mine pos time c)
  unfolding judge_target
  judge_target-Same u mine pos time c =
      search (frame_rules, context-Same, settings_or_default-Same, mutual-Same, judge_distance-Same)
        depth 30

  judge-Same :
      (u : String) (mine : PrivacySettings) (pos : GeoPosition) (time : ℕ) (c : NearbyCandidate)
      → Keeps Same Any (judge env fl jitter profile u mine pos time c)
  unfolding judge
  judge-Same u mine pos time c =
      search (frame_rules, context-Same, blocked-Same, judge_target-Same) depth 30

  survivors-Same :
      (u : String) (mine : PrivacySettings) (pos : GeoPosition) (time : ℕ)
      (cs : List NearbyCandidate)
      → Keeps Same Any (survivors env fl jitter profile u mine pos time cs)
  unfolding survivors
  survivors-Same u mine pos time [] = Keeps-done []
  survivors-Same u mine pos time (c ∷ cs) =
      Keeps-then _ _ (judge-Same u mine pos time c)
        λ v. Keeps-then _ _ (survivors-Same u mine pos time cs) λ r. Keeps-done _

abbrev Quiet : {A : Type 0} → Presence A → Type 0
Quiet m = (log : List AuditLogEntry) → Keeps (λ w. w.audit ≡ log) Any m

-- An action that logs the results that it returns, as seen by the requester at `time`.
record Logs (requester_id : String) (time : ℕ) (m : Presence (List NearbyResult)) : Type 0 where
  at :
      (s t : State World) (rs : List NearbyResult)
      → m s ≡ ok rs t
      → map of_entry t.world.audit
        ≡ map of_entry s.world.audit ++ map (of_result requester_id time) rs

ok-Quiet :
    {A : Type 0} (m : Presence A) (s t : State World) (a : A)
    → Quiet m
    → m s ≡ ok a t
    → t.world.audit ≡ s.world.audit
ok-Quiet m s t a k h =
    (subst (Post (λ w. w.audit ≡ s.world.audit) Any) h ((k s.world.audit).at s refl)).0

module _ (requester_id : String) (time : ℕ) where
  Logs-after :
      {A : Type 0} (m : Presence A) (f : A → Presence (List NearbyResult))
      → Quiet m
      → ((a : A) → Logs requester_id time (f a))
      → Logs requester_id time (m >>= f)
  Logs-after m f quiet logs = record {
    at = λ s t rs h.
        let (a, u, e, h1) = >>=-eq-ok m f s h in
        (logs a).at u t rs h1
        ∙ ap (λ l. map of_entry l ++ map (of_result requester_id time) rs)
            (ok-Quiet m s u a quiet e);
  }

  Logs-nothing : Logs requester_id time (pure [])
  Logs-nothing = record {
    at = λ s t rs h. ground (arith, pure-eq-ok _ _ h, append-nil (map of_entry s.world.audit));
  }

  module _ (env : Env) (fl : Floats) (jitter : ℕ → GeoPosition → Option GeoPosition)
      (profile : ℕ → Profiles) where
    hydrate-Logs :
        (cs : List Candidate)
        → Logs requester_id time (hydrate env fl jitter profile requester_id time cs)
    unfolding hydrate
    hydrate-Logs [] = Logs-nothing
    hydrate-Logs (c ∷ cs) =
        Logs-after _ _
          (λ log.
            context-Same env fl jitter profile log _ _ (detail-Same env fl jitter profile log _))
          λ details.
            Logs-after _ _ (λ log. resolve-Same env fl jitter profile log (c ∷ cs))
              λ profiles. record {
                at = λ s t rs h.
                    audit-results env fl jitter profile requester_id time details profiles (c ∷ cs)
                      s t rs h;
              }

    Logs-if :
        (b : Bool) (m n : Presence (List NearbyResult))
        → Logs requester_id time m
        → Logs requester_id time n
        → Logs requester_id time (if b then m else n)
    Logs-if true m n lm ln = lm
    Logs-if false m n lm ln = ln

    screen-Logs :
        (mine : PrivacySettings) (pos : GeoPosition) (cs : List NearbyCandidate)
        → Logs requester_id time (screen env fl jitter profile requester_id mine pos time cs)
    unfolding screen
    screen-Logs mine pos [] = Logs-nothing
    screen-Logs mine pos (c ∷ cs) =
        Logs-after _ _
          (λ log.
            context-Same env fl jitter profile log _ _ (allow-Same env fl jitter profile log _ _ _))
          λ b.
            Logs-if b _ _
              (Logs-after _ _
                (λ log.
                  survivors-Same env fl jitter profile log requester_id mine pos time (c ∷ cs))
                hydrate-Logs)
              Logs-nothing

    query-Logs :
        (mine : PrivacySettings) (pos : GeoPosition)
        → Logs requester_id time (query env fl jitter profile requester_id mine pos time)
    unfolding query
    query-Logs mine pos =
        Logs-after _ _
          (λ log.
            context-Same env fl jitter profile log _ _
              (search-Same env fl jitter profile log _ _ _))
          (screen-Logs mine pos)

    query_at-Logs :
        (mine : PrivacySettings) (o : Option GeoPosition)
        → Logs requester_id time (query_at env fl jitter profile requester_id mine time o)
    query_at-Logs mine none = Logs-nothing
    query_at-Logs mine (some pos) = query-Logs mine pos

module _ (env : Env) (fl : Floats) (jitter : ℕ → GeoPosition → Option GeoPosition)
    (profile : ℕ → Profiles) where
  -- A position update that succeeds adds to the access log one entry for each user that it returns,
  -- in that order, with the requester, the bucket shown and one time for all, and nothing else.
  pub apply_update-audit :
      (requester_id : String) (raw : GeoPosition) (track_id : String) (ttl : ℕ) (s t : State World)
      (rs : List NearbyResult)
      → apply_update env fl jitter profile requester_id raw track_id ttl s ≡ ok rs t
      → (time : ℕ) × (map of_entry t.world.audit
          ≡ map of_entry s.world.audit ++ map (of_result requester_id time) rs)
  unfolding apply_update
  apply_update-audit requester_id raw track_id ttl s t rs h =
      let (mine, s1, e1, h1) =
        >>=-eq-ok (settings_or_default env fl jitter profile requester_id) _ s h in
      let (time, s2, e2, h2) = >>=-eq-ok (now env) _ s1 h1 in
      let rest =
        Logs-after requester_id time (check_consent mine time) _
          (λ log. check_consent-Same env fl jitter profile log mine time)
          λ _.
            Logs-after requester_id time (displace env fl jitter profile raw) _
              (λ log. displace-Same env fl jitter profile log raw)
              λ pos.
                Logs-after requester_id time _ _
                  (λ log.
                    publish-Same env fl jitter profile log requester_id mine pos track_id ttl time)
                  λ _. query-Logs requester_id time env fl jitter profile mine pos in
      (
        time,
        rest.at s2 t rs h2
            ∙ ap (λ l. map of_entry l ++ map (of_result requester_id time) rs)
                (ok-Quiet (now env) s1 s2 time (λ log. Keeps-now env) e2
                  ∙ ok-Quiet _ s s1 mine
                      (λ log. settings_or_default-Same env fl jitter profile log requester_id) e1),
      )
