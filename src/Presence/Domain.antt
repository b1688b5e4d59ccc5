-- ===== src/Presence/Domain.antt =====
-- backend/internal/presence/domain.go, the values of repo.go and geo.go, and BucketFor of bucket.go.
-- Times and durations count nanoseconds. A float64 is its bit pattern: the program's arithmetic on
-- floats is a parameter (`Floats`), with what the pipeline relies on as laws.
use smusic.Prelude.{
  ℕ, ◌*◌, ◌≤◌, String, ◌≡◌, Bool, true, false, ◌||◌, Option, none, some, List, [], ◌∷◌, ltb, ◌==◌,
  any, if◌then◌else◌, str_eq,
}

abbrev pub visibility_invisible : String
visibility_invisible = "invisible"

abbrev pub visibility_friends_only : String
visibility_friends_only = "friends_only"

abbrev pub visibility_everyone : String
visibility_everyone = "everyone"

abbrev pub reveal_level_anonymous : ℕ
reveal_level_anonymous = 0

abbrev pub reveal_level_connections : ℕ
reveal_level_connections = 1

abbrev pub reveal_level_open_discovery : ℕ
reveal_level_open_discovery = 2

abbrev pub allowed_radii_m : List ℕ
allowed_radii_m = 150 ∷ 1000 ∷ 5000 ∷ 15000 ∷ []

abbrev pub default_radius_m : ℕ
default_radius_m = 1000

abbrev pub second : ℕ
second = 1000000000

abbrev pub hour : ℕ
hour = 3600 * second

abbrev pub consent_validity_period : ℕ
consent_validity_period = 6 * 30 * 24 * hour

pub data DistanceBucket : Type 0 where
  bucket_none bucket1 bucket2 bucket3 bucket4 : DistanceBucket

pub label : DistanceBucket → String
label bucket1 = "Bem pertinho"
label bucket2 = "No seu bairro"
label bucket3 = "Na sua região"
label bucket4 = "Na sua cidade"
label bucket_none = ""

pub record PrivacySettings : Type 0 where
  pub user_id : String
  pub presence_visibility : String
  pub presence_share_track : Bool
  pub proximity_consent_enabled : Bool
  pub proximity_consent_ts : Option ℕ
  pub proximity_consent_renew_due : Option ℕ
  pub visibility_radius_m : ℕ
  pub reveal_level : ℕ
  pub paused : Bool
  pub created_at : ℕ
  pub updated_at : ℕ

-- The zero time.Time is written 0.
unfoldable pub default_privacy_settings : String → PrivacySettings
default_privacy_settings user_id = record {
  user_id = user_id;
  presence_visibility = visibility_invisible;
  presence_share_track = false;
  proximity_consent_enabled = false;
  proximity_consent_ts = none;
  proximity_consent_renew_due = none;
  visibility_radius_m = default_radius_m;
  reveal_level = reveal_level_anonymous;
  paused = true;
  created_at = 0;
  updated_at = 0;
}

unfoldable pub has_active_consent : PrivacySettings → ℕ → Bool
has_active_consent s now =
    if s.proximity_consent_enabled
    then elim s.proximity_consent_renew_due [ none ↦ false | some due ↦ ltb now due ]
    else false

unfoldable pub is_valid_radius : ℕ → Bool
is_valid_radius m = any (λ r. r == m) allowed_radii_m

unfoldable pub is_valid_reveal_level : ℕ → Bool
is_valid_reveal_level l =
    l == reveal_level_anonymous || l == reveal_level_connections || l == reveal_level_open_discovery

unfoldable pub is_valid_visibility : String → Bool
is_valid_visibility v =
    str_eq v visibility_invisible
    || str_eq v visibility_friends_only
    || str_eq v visibility_everyone

-- The sentinel errors, and `failed` for an error of a dependency wrapped with its context.
pub data Error : Type 0 where
  invalid_input : String → Error
  settings_not_found consent_required consent_expired cannot_block_self block_not_found : Error
  invalid_radius invalid_reveal_level invalid_visibility ingest_saturated mfa_required : Error
  failed : String → Error

pub record AuditLogEntry : Type 0 where
  pub id : String
  pub requester_id : String
  pub target_id : String
  pub occurred_at : ℕ
  pub bucket : DistanceBucket
  pub endpoint : String

pub record Profile : Type 0 where
  pub display_name : String
  pub avatar_url : String

abbrev pub Float64 : Type 0
Float64 = ℕ

pub record GeoPosition : Type 0 where
  pub lat : Float64
  pub lon : Float64

-- The comparisons of a distance with a whole number of metres (`dist > float64(m)` and
-- `distanceM < m`), DistanceMeters, and GEOSEARCH's own radius test in Redis,
-- and the grid to which Redis rounds a stored position. NaN is allowed: all
-- its comparisons are false.
pub record Floats : Type 0 where
  pub distance_meters : GeoPosition → GeoPosition → Float64
  pub exceeds : Float64 → ℕ → Bool
  pub below : Float64 → ℕ → Bool
  pub within_search : GeoPosition → ℕ → GeoPosition → Bool
  pub geohash_cell : GeoPosition → GeoPosition
  pub exceeds_mono : (d : Float64) (m n : ℕ) → m ≤ n → exceeds d n ≡ true → exceeds d m ≡ true
  pub below_mono : (d : Float64) (m n : ℕ) → m ≤ n → below d m ≡ true → below d n ≡ true

unfoldable pub bucket_for : Floats → Float64 → DistanceBucket
bucket_for fl distance_m =
    if fl.below distance_m 150
    then bucket1
    else if fl.below distance_m 1000
    then bucket2
    else if fl.below distance_m 5000
    then bucket3
    else if fl.below distance_m 15000
    then bucket4
    else bucket_none

pub record PresenceEntry : Type 0 where
  pub user_id : String
  pub position : GeoPosition
  pub track_id : String
  pub share_track : Bool
  pub visibility : String
  pub updated_at : ℕ

pub record NearbyCandidate : Type 0 where
  pub user_id : String
  pub position : GeoPosition

pub record NearbyResult : Type 0 where
  pub user_id : String
  pub display_name : String
  pub avatar_url : String
  pub bucket : DistanceBucket
  pub track_id : String
