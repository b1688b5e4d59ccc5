-- ===== src/Presence/World.antt =====
-- What the presence services keep: the Postgres tables that
-- backend/internal/presence/postgres/repo.go reads and writes, and the Redis keys of
-- backend/internal/presence/redisstore/geoindex.go and backend/internal/platform/cache/ratelimiter.go.
use smusic.Prelude.{ℕ, String, Bool, Option, List}
use smusic.Effect.{Act, catch, raise}
use smusic.Presence.Domain.{PrivacySettings, AuditLogEntry, Error, failed, GeoPosition}

-- The detail hash's value, and the time at which the key expires.
pub record Detail : Type 0 where
  pub track_id : String
  pub share_track : Bool
  pub visibility : String
  pub updated_at : ℕ

pub record Expiring : Type 0 where
  pub value : Detail
  pub expires : ℕ

pub record Counter : Type 0 where
  pub count : ℕ
  pub expires : Option ℕ

-- The Postgres tables (`follows` is written by no code of the repository), the two Redis structures
-- of the geo index, the Redis keys of the rate limiters, and auth's answers about second factors.
pub record World : Type 0 where
  pub settings : String → Option PrivacySettings
  pub blocks : String → String → Bool
  pub follows : String → String → Bool
  pub audit : List AuditLogEntry
  pub members : List (String × GeoPosition)
  pub details : String → Option Expiring
  pub counters : String → Counter
  pub mfa_verified : String → Bool

abbrev pub Presence : Type 0 → Type 0
Presence A = Act World Error A

-- fmt.Errorf("context: %w", err): a sentinel is still recognised by errors.Is, any other error is
-- known by its outermost context.
abbrev pub wrapped : String → Error → Error
wrapped text (failed _) = failed text
wrapped text e = e

abbrev pub context : {A : Type 0} → String → Presence A → Presence A
context text m = catch m (λ e. raise (wrapped text e))
