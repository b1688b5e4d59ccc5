-- ===== src/Presence/RateLimit.antt =====
-- backend/internal/presence/ratelimit.go, and the limiter behind it, Allow of
-- backend/internal/platform/cache/ratelimiter.go: INCR, then EXPIRE on the first hit of a window.
-- The retry-after duration is not modelled: every caller here drops it.
pub mod Windows
use smusic.Prelude.{
  ℕ, suc, ◌+◌, ◌*◌, String, str_append, Bool, none, some, ltb, leb, ◌==◌, if◌then◌else◌, assign,
}
use smusic.Effect.{Env, pure, ◌>>=◌, ◌>>◌, store}
use smusic.Presence.Domain.{failed, second, hour}
use smusic.Presence.World.{Presence, Counter}

abbrev pub pair_query_limit : ℕ
pair_query_limit = 1

abbrev pub pair_query_window : ℕ
pair_query_window = 30 * second

abbrev pub daily_query_limit : ℕ
daily_query_limit = 200

abbrev pub daily_query_window : ℕ
daily_query_window = 24 * hour

abbrev pub update_frame_limit : ℕ
update_frame_limit = 12

abbrev pub update_frame_window : ℕ
update_frame_window = 60 * second

unfoldable pub pair_key : String → String → String
pair_key requester_id target_id =
    str_append "presence:rl:pair:" (str_append requester_id (str_append ":" target_id))

unfoldable pub daily_key : String → String
daily_key requester_id = str_append "presence:rl:daily:" requester_id

unfoldable pub update_frame_key : String → String
update_frame_key user_id = str_append "presence:rl:updates:" user_id

-- The value of a counter key at `time`: 0 where there is no key, or it has expired.
unfoldable pub current : ℕ → Counter → ℕ
current time c = elim c.expires [ none ↦ c.count | some e ↦ if ltb time e then c.count else 0 ]

-- INCR keeps the key's expiry; a key that is gone starts anew, with none.
unfoldable pub incr : ℕ → Counter → Counter
incr time c =
    if current time c == 0
    then record { count = 1; expires = none }
    else record c { count = suc c.count }

module _ (env : Env) where
  -- The reply of INCR.
  unfoldable pub hit : String → Presence ℕ
  hit key = do
    store env (failed "incr")
        (λ time w. record w { counters = assign w.counters key (incr time (w.counters key)) })
    (λ s. pure (s.world.counters key).count s)

  unfoldable pub arm : String → ℕ → Presence Unit
  arm key window = store env (failed "expire") λ time w. record w {
    counters = assign w.counters key (record (w.counters key) { expires = some (time + window) });
  }

  unfoldable pub allow : String → ℕ → ℕ → Presence Bool
  allow key limit window = do
    n ← hit key
    if n == 1 then arm key window else pure tt
    pure (leb n limit)
