-- ===== src/Presence/Tests.antt =====
-- Concrete runs of the presence services: two users near each other, on a network without failures.
use smusic.Presence.Nearby.RawPosition.{apply_update-displace}
use smusic.Prelude.{
  ◌/◌, ◌*◌, ◌==◌, ◌++◌, map, eq_iff, subst, inl, Bool-cases, inr, ◌≢◌, All, ℕ, ◌+◌, ◌-◌, ◌≤◌,
  String, ◌≡◌, refl, true, false, Option, none, some, List, [], ◌∷◌, ltb, leb, if◌then◌else◌,
  str_eq, arith,
}
use smusic.Presence.RateLimit.Windows.{grants-calls_forever, calls, grants, grants-calls}
use smusic.Presence.Nearby.Log.{apply_update-audit}
use smusic.Presence.Nearby.Audit.{of_entry, of_result}
use smusic.Presence.Settings.Validity.Calls.{run-AllValid}
use smusic.Presence.Settings.Consent.{
  Stored, IsAbsent, revoke_consent-settings, revoke_consent-IsAbsent, grant_consent-mfa,
  grant_consent-settings,
}
use smusic.Presence.Settings.{run, updates, revokes, grants as consents, UpdateSettingsInput}
use smusic.Presence.Nearby.Exclusion.{revoke_consent-apply_update, block-apply_update}
use smusic.Presence.Settings.Validity.{AllValid, IsValid}
use smusic.Presence.Settings
use smusic.Prelude.Int.{pos}
use smusic.Effect.{world_of, IsErr, Outcome, Env, State, state_of, ok, ◌>>=◌}
use smusic.Presence.Domain.{
  consent_validity_period, is_valid_reveal_level, is_valid_radius, is_valid_visibility, bucket1,
  Error, Profile, NearbyResult, Floats, GeoPosition, PrivacySettings, has_active_consent,
  bucket_for,
}
use smusic.Presence.World.{World}
use smusic.Presence.Repo
use smusic.Presence.GeoIndex
use smusic.Presence.Nearby.Feed.{apply_heartbeat-Feed, UpdateFeed, HeartbeatFeed, apply_update-Feed}
use smusic.Presence.Nearby.Privacy.{SameRows}
use smusic.Presence.Nearby
use smusic.Presence.RateLimit

abbrev pub env : Env
env = record { clock = λ _. 1000; fault = λ _. false; fresh_id = λ _. "id" }

abbrev gap : GeoPosition → GeoPosition → ℕ
gap p q = (p.lat - q.lat) + (q.lat - p.lat)

pub exceeds_mono : (d m n : ℕ) → m ≤ n → ltb n d ≡ true → ltb m d ≡ true
exceeds_mono d m n h e = ground arith

pub below_mono : (d m n : ℕ) → m ≤ n → ltb d m ≡ true → ltb d n ≡ true
below_mono d m n h e = ground arith

abbrev pub fl : Floats
fl = record {
  distance_meters = gap;
  exceeds = λ d m. ltb m d;
  below = λ d m. ltb d m;
  within_search = λ p m q. leb (gap p q) m;
  geohash_cell = λ p. p;
  exceeds_mono = exceeds_mono;
  below_mono = below_mono;
}

abbrev pub row : String → PrivacySettings
row u = record {
  user_id = u;
  presence_visibility = "everyone";
  presence_share_track = true;
  proximity_consent_enabled = true;
  proximity_consent_ts = some 0;
  proximity_consent_renew_due = some 5000;
  visibility_radius_m = 1000;
  reveal_level = 2;
  paused = false;
  created_at = 0;
  updated_at = 0;
}

abbrev pub at : ℕ → GeoPosition
at m = record { lat = m; lon = 0 }

abbrev settings : String → Option PrivacySettings
settings u =
    if str_eq u "ana" then some (row "ana") else if str_eq u "bia" then some (row "bia") else none

abbrev pub world : World
world = record {
  settings = settings;
  blocks = λ _ _. false;
  follows = λ _ _. false;
  audit = [];
  members = ("ana", at 100) ∷ [];
  details = λ u.
      if str_eq u "ana"
      then some (record {
        value = record {
          track_id = "song";
          share_track = true;
          visibility = "everyone";
          updated_at = 0;
        };
        expires = 5000;
      })
      else none;
  counters = λ _. record { count = 0; expires = none };
  mfa_verified = λ u. str_eq u "ana";
}

abbrev pub start : State World
start = record { tick = 0; world = world }

grants-calls_example : grants (calls env "k" 2 60 5 start) ≡ 2
unfolding RateLimit.current
grants-calls_example = grants-calls env "k" 2 60 5 start refl (λ _. refl) (λ _. omega arith)

abbrev pub jitter : ℕ → GeoPosition → Option GeoPosition
jitter n p = some p

abbrev pub profile : ℕ → String → Option Profile
profile n u = some (record { display_name = u; avatar_url = "" })

abbrev update_bia : Outcome World Error (List NearbyResult)
update_bia = Nearby.apply_update env fl jitter profile "bia" (at 0) "tune" 60 start

abbrev ana_nearby : List NearbyResult
ana_nearby =
    record {
      user_id = "ana";
      display_name = "ana";
      avatar_url = "";
      bucket = bucket1;
      track_id = "song";
    }
    ∷ []

bia-sees : update_bia ≡ ok ana_nearby (state_of update_bia)
unfolding Nearby.apply_update Nearby.query Nearby.screen Nearby.survivors Nearby.judge
    Nearby.judge_target Nearby.judge_distance Nearby.hydrate Nearby.resolve Nearby.results
    Nearby.present Nearby.present_bucket Nearby.publish Nearby.displace Nearby.check_consent
    Nearby.settings_or_default Nearby.shown Repo.get Repo.is_blocked_either_way
    Repo.is_mutual_follow Repo.append GeoIndex.upsert GeoIndex.search GeoIndex.detail
    GeoIndex.remove RateLimit.allow RateLimit.hit RateLimit.arm RateLimit.incr RateLimit.current
    RateLimit.pair_key RateLimit.daily_key bucket_for has_active_consent ◌>>=◌
bia-sees = refl

apply_update-Feed_example :
    SameRows world (state_of update_bia).world
    × UpdateFeed env fl jitter "bia" (at 0) start ana_nearby
apply_update-Feed_example =
    apply_update-Feed env fl jitter profile "bia" (at 0) "tune" 60 start (state_of update_bia)
      ana_nearby bia-sees

abbrev beat : Outcome World Error (List NearbyResult)
beat = Nearby.apply_heartbeat env fl jitter profile "ana" 60 (state_of update_bia)

abbrev bia_nearby : List NearbyResult
bia_nearby =
    record {
      user_id = "bia";
      display_name = "bia";
      avatar_url = "";
      bucket = bucket1;
      track_id = "tune";
    }
    ∷ []

ana-sees : beat ≡ ok bia_nearby (state_of beat)
unfolding Nearby.apply_heartbeat Nearby.apply_update Nearby.query Nearby.screen Nearby.survivors
    Nearby.judge Nearby.judge_target Nearby.judge_distance Nearby.hydrate Nearby.resolve
    Nearby.results Nearby.present Nearby.present_bucket Nearby.publish Nearby.displace
    Nearby.check_consent Nearby.settings_or_default Nearby.shown Repo.get Repo.is_blocked_either_way
    Repo.is_mutual_follow Repo.append GeoIndex.upsert GeoIndex.search GeoIndex.detail
    GeoIndex.remove GeoIndex.touch RateLimit.allow RateLimit.hit RateLimit.arm RateLimit.incr
    RateLimit.current RateLimit.pair_key RateLimit.daily_key bucket_for has_active_consent ◌>>=◌
ana-sees = refl

apply_heartbeat-Feed_example :
    SameRows (state_of update_bia).world (state_of beat).world
    × HeartbeatFeed env fl "ana" (state_of update_bia) bia_nearby
apply_heartbeat-Feed_example =
    apply_heartbeat-Feed env fl jitter profile "ana" 60 (state_of update_bia) (state_of beat)
      bia_nearby ana-sees

row-IsValid : (u : String) → IsValid u (row u)
unfolding is_valid_visibility is_valid_radius is_valid_reveal_level
row-IsValid u = record {
  owner = refl;
  visibility = refl;
  radius = refl;
  level = refl;
  due = λ _. (5000, refl);
}

settings-IsValid : (u : String) (s : PrivacySettings) → settings u ≡ some s → IsValid u s
settings-IsValid u s h = elim (Bool-cases (str_eq u "ana")) [
  | inl same ↦ subst (IsValid u) (ground (arith, (eq_iff u "ana").0 same)) (row-IsValid u)
  | inr other ↦ elim (Bool-cases (str_eq u "bia")) [
    | inl same ↦ subst (IsValid u) (ground (arith, (eq_iff u "bia").0 same)) (row-IsValid u)
    | inr neither ↦ absurd (ground arith)
  ]
]

pub world-AllValid : AllValid world
world-AllValid = record { row = settings-IsValid }

abbrev pub revoke_ana : Outcome World Error PrivacySettings
revoke_ana = Settings.revoke_consent env fl true "ana" start

abbrev pub ana_revoked : PrivacySettings
ana_revoked = record (row "ana") {
  proximity_consent_enabled = false;
  paused = true;
  updated_at = 1000;
}

pub ana-revokes : revoke_ana ≡ ok ana_revoked (state_of revoke_ana)
unfolding Settings.revoke_consent Settings.get Repo.get Repo.upsert Settings.remove_from_index
    GeoIndex.remove ◌>>=◌
ana-revokes = refl

abbrev update_after : State World → Outcome World Error (List NearbyResult)
update_after s = Nearby.apply_update env fl jitter profile "bia" (at 0) "tune" 60 s

bia-sees-nobody :
    update_after (state_of revoke_ana) ≡ ok [] (state_of (update_after (state_of revoke_ana)))
unfolding Settings.revoke_consent Settings.get Settings.remove_from_index Repo.upsert
    Nearby.apply_update Nearby.query Nearby.screen Nearby.publish Nearby.displace
    Nearby.check_consent Nearby.settings_or_default Repo.get GeoIndex.upsert GeoIndex.search
    GeoIndex.remove has_active_consent ◌>>=◌
bia-sees-nobody = refl

revoke_consent-apply_update_example : All (λ (r : NearbyResult). r.user_id ≢ "ana") []
revoke_consent-apply_update_example =
    revoke_consent-apply_update env fl jitter profile true "ana" "bia" "tune" (at 0) 60 start
      (state_of revoke_ana) (state_of (update_after (state_of revoke_ana))) ana_revoked []
      world-AllValid ana-revokes bia-sees-nobody

abbrev block_bia : Outcome World Error Unit
block_bia = Settings.block env fl true "ana" "bia" start

ana-blocks : block_bia ≡ ok tt (state_of block_bia)
unfolding Settings.block Repo.block ◌>>=◌
ana-blocks = refl

bia-blocked :
    update_after (state_of block_bia) ≡ ok [] (state_of (update_after (state_of block_bia)))
unfolding Settings.block Repo.block Nearby.apply_update Nearby.query Nearby.screen Nearby.survivors
    Nearby.judge Nearby.hydrate Nearby.publish Nearby.displace Nearby.check_consent
    Nearby.settings_or_default Repo.get Repo.is_blocked_either_way GeoIndex.upsert GeoIndex.search
    GeoIndex.remove RateLimit.allow RateLimit.hit RateLimit.arm RateLimit.incr RateLimit.current
    RateLimit.daily_key has_active_consent ◌>>=◌
bia-blocked = refl

block-apply_update_example : All (λ (r : NearbyResult). r.user_id ≢ "ana") []
block-apply_update_example =
    block-apply_update env fl jitter profile true "ana" "bia" "bia" "ana" "tune" (at 0) 60 start
      (state_of block_bia) (state_of (update_after (state_of block_bia))) [] ana-blocks
      (inr (refl, refl)) bia-blocked

abbrev moves : UpdateSettingsInput
moves = record {
  presence_visibility = some "friends_only";
  presence_share_track = none;
  visibility_radius_m = some (pos 5000);
  reveal_level = none;
  paused = none;
}

run-AllValid_example :
    AllValid
      (run env fl true start (updates "ana" moves ∷ revokes "bia" ∷ consents "ana" ∷ [])).world
run-AllValid_example =
    run-AllValid env fl true start (updates "ana" moves ∷ revokes "bia" ∷ consents "ana" ∷ [])
      world-AllValid

revoke_consent-settings_example :
    Stored
      (λ s. (s.paused ≡ true) × ((time : ℕ) → has_active_consent s time ≡ false))
      ((state_of revoke_ana).world.settings "ana")
revoke_consent-settings_example =
    revoke_consent-settings env fl "ana" true start (state_of revoke_ana) ana_revoked world-AllValid
      ana-revokes

revoke_consent-IsAbsent_example : IsAbsent "ana" (state_of revoke_ana).world
revoke_consent-IsAbsent_example =
    revoke_consent-IsAbsent env fl "ana" start (state_of revoke_ana) ana_revoked (λ _. refl)
      ana-revokes

grant_consent-mfa_example :
    IsErr (Settings.grant_consent env fl true "bia" start)
    × (world_of (Settings.grant_consent env fl true "bia" start) ≡ start.world)
grant_consent-mfa_example = grant_consent-mfa env fl "bia" true start refl

abbrev grant_ana : Outcome World Error PrivacySettings
grant_ana = Settings.grant_consent env fl true "ana" start

abbrev ana_granted : PrivacySettings
ana_granted = record (row "ana") {
  proximity_consent_ts = some 1000;
  proximity_consent_renew_due = some (1000 + consent_validity_period);
  updated_at = 1000;
}

ana-grants : grant_ana ≡ ok ana_granted (state_of grant_ana)
unfolding Settings.grant_consent Settings.get Repo.get Repo.upsert ◌>>=◌
ana-grants = refl

grant_consent-settings_example :
    Stored
      (λ s.
        ((time : ℕ) → has_active_consent s time ≡ ltb time (1000 + consent_validity_period))
        × (s.presence_visibility ≡ "everyone")
        × (s.paused ≡ false))
      ((state_of grant_ana).world.settings "ana")
grant_consent-settings_example =
    grant_consent-settings env fl "ana" true start (state_of grant_ana) (row "ana") ana_granted refl
      refl ana-grants

apply_update-audit_example :
    (time : ℕ) × (map of_entry (state_of update_bia).world.audit
      ≡ map of_entry start.world.audit ++ map (of_result "bia" time) ana_nearby)
apply_update-audit_example =
    apply_update-audit env fl jitter profile "bia" (at 0) "tune" 60 start (state_of update_bia)
      ana_nearby bia-sees

-- The second interaction fails, no other.
abbrev one_fault : Env
one_fault = record { clock = λ n. n * 1000000; fault = λ n. n == 1; fresh_id = λ _. "id" }

no_later_fault : (k : ℕ) → 2 ≤ k → one_fault.fault k ≡ false
no_later_fault k h = ground arith

grants-calls_forever_example :
    grants (calls one_fault "k" 2 60 100 (state_of (RateLimit.allow one_fault "k" 2 60 start))) ≡ 1
unfolding RateLimit.current
grants-calls_forever_example =
    grants-calls_forever one_fault "k" 2 60 100 start refl refl refl no_later_fault

-- Displacement onto a grid of 10 metres.
abbrev grid : ℕ → GeoPosition → Option GeoPosition
grid n p = some (record { lat = p.lat / 10 * 10; lon = p.lon / 10 * 10 })

apply_update-displace_example :
    Nearby.apply_update env fl grid profile "bia" (at 3) "tune" 60 start
    ≡ Nearby.apply_update env fl grid profile "bia" (at 7) "tune" 60 start
apply_update-displace_example =
    apply_update-displace env fl grid profile "bia" "tune" (at 3) (at 7) 60 start (λ _. refl)
