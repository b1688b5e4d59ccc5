-- ===== src/Presence/Nearby/RawPosition.antt =====
-- The displacement of positions in ApplyUpdate of backend/internal/presence/nearby_service.go.
use mathlib.Core.Path.{fun_ext}
use smusic.Prelude.{ℕ, String, ◌≡◌, refl, ap, Option}
use smusic.Effect.{Env, State, now, ◌>>=◌}
use smusic.Presence.Domain.{Floats, GeoPosition}
use smusic.Presence.World.{World, Presence}
use smusic.Presence.Nearby.{
  Profiles, displace, apply_update, settings_or_default, check_consent, publish, query,
}

module _ (env : Env) (fl : Floats) (jitter : ℕ → GeoPosition → Option GeoPosition)
    (profile : ℕ → Profiles) where
  displaced-displace :
      (p q : GeoPosition)
      → ((n : ℕ) → jitter n p ≡ jitter n q)
      → (s : State World) → displace env fl jitter profile p s ≡ displace env fl jitter profile q s
  unfolding displace
  displaced-displace p q same s = rw (same s.tick, displace) refl

  -- An update depends on the position that the client sent only through its displacement: two
  -- positions that are displaced alike have the same answer, and leave the same tables, index and
  -- log.
  pub apply_update-displace :
      (requester_id track_id : String) (p q : GeoPosition) (ttl : ℕ) (s : State World)
      → ((n : ℕ) → jitter n p ≡ jitter n q)
      → apply_update env fl jitter profile requester_id p track_id ttl s
        ≡ apply_update env fl jitter profile requester_id q track_id ttl s
  unfolding apply_update
  apply_update-displace requester_id track_id p q ttl s same =
      ap
        (λ (d : Presence GeoPosition).
          (settings_or_default env fl jitter profile requester_id >>= λ mine. now env >>= λ time.
          check_consent mine time >>= λ _. d >>= λ jittered.
          publish env fl jitter profile requester_id mine jittered track_id ttl time >>= λ _.
          query env fl jitter profile requester_id mine jittered time)
            s)
        (fun_ext (displaced-displace p q same))
