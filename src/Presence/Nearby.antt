-- ===== src/Presence/Nearby.antt =====
-- backend/internal/presence/nearby_service.go: the query engine behind the WebSocket feed. Jitter
-- (RandJitterer of bucket.go) is the argument `jitter`: the displacement at each interaction, or a
-- failure of the system's random source. Profiles (ProfileResolver) are the argument `profile`.
pub mod Privacy
pub mod Feed
pub mod Exclusion
pub mod Audit
pub mod RawPosition
pub mod Log
use smusic.Prelude.{
  any, ℕ, ◌+◌, String, Bool, ◌&&◌, ◌||◌, not, Option, none, some, List, [], ◌∷◌, min, map, ◌==◌,
  if◌then◌else◌, str_eq,
}
use smusic.Effect.{
  Env, ok, err, bump, pure, raise, catch, ◌>>=◌, ◌>>◌, now, new_id, fetch, best_effort,
}
use smusic.Presence.Domain.{
  PrivacySettings, Error, Floats, GeoPosition, PresenceEntry, NearbyCandidate, NearbyResult,
  Profile, DistanceBucket, bucket_none, Float64, default_privacy_settings, settings_not_found,
  consent_required, consent_expired, failed, has_active_consent, bucket_for, visibility_invisible,
  visibility_friends_only, reveal_level_open_discovery,
}
use smusic.Presence.World.{Presence, context}
use smusic.Presence.Repo
use smusic.Presence.GeoIndex
use smusic.Presence.GeoIndex.{Details}
use smusic.Presence.RateLimit.{
  allow, pair_key, daily_key, pair_query_limit, pair_query_window, daily_query_limit,
  daily_query_window,
}

-- 2 * JitterRadiusM, a whole number of metres.
abbrev search_padding : ℕ
search_padding = 150

abbrev or_default : String → Error → Presence PrivacySettings
or_default user_id settings_not_found = pure (default_privacy_settings user_id)
or_default user_id e = raise e

unfoldable pub check_consent : PrivacySettings → ℕ → Presence Unit
check_consent st time =
    if not st.proximity_consent_enabled
    then raise consent_required
    else if not (has_active_consent st time)
    then raise consent_expired
    else pure tt

pub record Candidate : Type 0 where
  pub user_id : String
  pub dist : Float64
  pub is_mutual : Bool
  pub target : PrivacySettings

abbrev pub is_hidden : PrivacySettings → Bool
is_hidden s = s.paused || str_eq s.presence_visibility visibility_invisible

-- Whether a survivor's name and avatar are shown.
abbrev pub is_revealed : Candidate → Bool
is_revealed c = c.is_mutual || c.target.reveal_level == reveal_level_open_discovery

-- `append` of a round's result, if it has one.
abbrev pub keep {ℓ} : {A : Type ℓ} → Option A → List A → List A
keep none cs = cs
keep (some c) cs = c ∷ cs

-- What the requester sees of a survivor: identity only where it is revealed, and the track only
-- where its owner shares it.
unfoldable pub shown : Option Profile → PresenceEntry → DistanceBucket → Candidate → NearbyResult
shown profile detail bucket c = record {
  user_id = c.user_id;
  display_name = if is_revealed c then elim profile [ none ↦ "" | some p ↦ p.display_name ] else "";
  avatar_url = if is_revealed c then elim profile [ none ↦ "" | some p ↦ p.avatar_url ] else "";
  bucket = bucket;
  track_id = if detail.share_track then detail.track_id else "";
}

abbrev pub Profiles : Type 0
Profiles = String → Option Profile

module _ (env : Env) (fl : Floats) (jitter : ℕ → GeoPosition → Option GeoPosition)
    (profile : ℕ → Profiles) where
  unfoldable pub settings_or_default : String → Presence PrivacySettings
  settings_or_default user_id =
      catch (context "presence: get settings" (Repo.get env user_id)) (or_default user_id)

  unfoldable pub consent_of : String → Presence Unit
  consent_of user_id = do st ← settings_or_default user_id; time ← now env; check_consent st time

  unfoldable pub displace : GeoPosition → Presence GeoPosition
  displace raw s = elim (jitter s.tick raw) [
    | none ↦ err (failed "presence: jitter") (bump s)
    | some p ↦ ok p (bump s)
  ]

  -- The last two tests on a candidate, mutual radius and pair limit.
  unfoldable pub judge_distance :
      String
      → PrivacySettings
      → GeoPosition
      → NearbyCandidate
      → PrivacySettings
      → Bool
      → Presence (Option Candidate)
  judge_distance requester_id mine my_pos c target is_mutual =
      let dist = fl.distance_meters my_pos c.position in
      if fl.exceeds dist (min mine.visibility_radius_m target.visibility_radius_m)
      then pure none
      else do
        allowed ←
            context "presence: pair rate limit"
              (allow env (pair_key requester_id c.user_id) pair_query_limit pair_query_window)
        pure (
            if allowed
            then some (record {
              user_id = c.user_id;
              dist = dist;
              is_mutual = is_mutual;
              target = target;
            })
            else none)

  unfoldable pub judge_target :
      String → PrivacySettings → GeoPosition → ℕ → NearbyCandidate → Presence (Option Candidate)
  judge_target requester_id mine my_pos time c = do
    target ← settings_or_default c.user_id
    if is_hidden target || not (has_active_consent target time) then pure none else do
      is_mutual ←
          context "presence: follow check" (Repo.is_mutual_follow env requester_id c.user_id)
      if str_eq target.presence_visibility visibility_friends_only && not is_mutual
          then pure none
          else judge_distance requester_id mine my_pos c target is_mutual

  -- One round of the loop over the candidates: `none` is its `continue`.
  unfoldable pub judge :
      String → PrivacySettings → GeoPosition → ℕ → NearbyCandidate → Presence (Option Candidate)
  judge requester_id mine my_pos time c = if str_eq c.user_id requester_id then pure none else do
    blocked ←
        context "presence: block check" (Repo.is_blocked_either_way env requester_id c.user_id)
    if blocked then pure none else judge_target requester_id mine my_pos time c

  unfoldable pub survivors :
      String → PrivacySettings → GeoPosition → ℕ → List NearbyCandidate → Presence (List Candidate)
  survivors requester_id mine my_pos time [] = pure []
  survivors requester_id mine my_pos time (c ∷ cs) = do
    verdict ← judge requester_id mine my_pos time c
    rest ← survivors requester_id mine my_pos time cs
    pure (keep verdict rest)

  unfoldable pub present_bucket :
      String
      → ℕ
      → PresenceEntry
      → Profiles
      → Candidate
      → DistanceBucket
      → Presence (Option NearbyResult)
  present_bucket requester_id time detail profiles c bucket_none = pure none
  present_bucket requester_id time detail profiles c bucket = do
    id ← new_id env
    context "presence: append audit log" (
        Repo.append env (record {
          id = id;
          requester_id = requester_id;
          target_id = c.user_id;
          occurred_at = time;
          bucket = bucket;
          endpoint = "ws:/v1/presence/connect";
        }))
    pure (some (shown (profiles c.user_id) detail bucket c))

  -- One round of the loop over the survivors: `none` is its `continue`.
  unfoldable pub present :
      String → ℕ → Details → Profiles → Candidate → Presence (Option NearbyResult)
  present requester_id time details profiles c = elim (details c.user_id) [
    | none ↦ pure none
    | some detail ↦ present_bucket requester_id time detail profiles c (bucket_for fl c.dist)
  ]

  unfoldable pub results :
      String → ℕ → Details → Profiles → List Candidate → Presence (List NearbyResult)
  results requester_id time details profiles [] = pure []
  results requester_id time details profiles (c ∷ cs) = do
    shown ← present requester_id time details profiles c
    rest ← results requester_id time details profiles cs
    pure (keep shown rest)

  -- Resolve is called only if some survivor's identity may be shown.
  unfoldable pub resolve : List Candidate → Presence Profiles
  resolve cs =
      if any is_revealed cs
      then fetch env (failed "presence: resolve profiles") (λ time _. profile time)
      else pure (λ _. none)

  unfoldable pub hydrate : String → ℕ → List Candidate → Presence (List NearbyResult)
  hydrate requester_id time [] = pure []
  hydrate requester_id time (c ∷ cs) = do
    details ← context "presence: detail" (GeoIndex.detail env fl (map (λ d. d.user_id) (c ∷ cs)))
    profiles ← resolve (c ∷ cs)
    results requester_id time details profiles (c ∷ cs)

  unfoldable pub screen :
      String
      → PrivacySettings
      → GeoPosition
      → ℕ
      → List NearbyCandidate
      → Presence (List NearbyResult)
  screen requester_id mine my_pos time [] = pure []
  screen requester_id mine my_pos time (c ∷ cs) = do
    daily_allowed ←
        context "presence: daily rate limit"
          (allow env (daily_key requester_id) daily_query_limit daily_query_window)
    if daily_allowed
        then (do
          passed ← survivors requester_id mine my_pos time (c ∷ cs)
          hydrate requester_id time passed)
        else pure []

  unfoldable pub query : String → PrivacySettings → GeoPosition → ℕ → Presence (List NearbyResult)
  query requester_id mine my_pos time = do
    raw ←
        context "presence: search"
          (GeoIndex.search env fl my_pos (mine.visibility_radius_m + search_padding) requester_id)
    screen requester_id mine my_pos time raw

  -- The raw position is displaced once, and nothing after that sees it.
  unfoldable pub publish : String → PrivacySettings → GeoPosition → String → ℕ → ℕ → Presence Unit
  publish requester_id mine jittered track_id ttl time =
      if is_hidden mine
      then best_effort (GeoIndex.remove env fl requester_id)
      else context "presence: upsert presence entry" (
          GeoIndex.upsert env fl
            (record {
              user_id = requester_id;
              position = jittered;
              track_id = track_id;
              share_track = mine.presence_share_track;
              visibility = mine.presence_visibility;
              updated_at = time;
            })
            ttl)

  unfoldable pub apply_update : String → GeoPosition → String → ℕ → Presence (List NearbyResult)
  apply_update requester_id raw track_id ttl = do
    mine ← settings_or_default requester_id
    time ← now env
    check_consent mine time
    jittered ← displace raw
    publish requester_id mine jittered track_id ttl time
    query requester_id mine jittered time

  abbrev query_at : String → PrivacySettings → ℕ → Option GeoPosition → Presence (List NearbyResult)
  query_at requester_id mine time none = pure []
  query_at requester_id mine time (some pos) = query requester_id mine pos time

  unfoldable pub apply_heartbeat : String → ℕ → Presence (List NearbyResult)
  apply_heartbeat requester_id ttl = do
    mine ← settings_or_default requester_id
    time ← now env
    check_consent mine time
    pos ← context "presence: touch presence entry" (GeoIndex.touch env fl requester_id ttl)
    query_at requester_id mine time pos

  unfoldable pub set_visibility : String → String → Presence Unit
  set_visibility user_id mode =
      if str_eq mode visibility_invisible then GeoIndex.remove env fl user_id else pure tt

  unfoldable pub disconnect : String → Presence Unit
  disconnect user_id = GeoIndex.remove env fl user_id
