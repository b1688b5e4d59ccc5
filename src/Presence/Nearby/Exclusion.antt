-- ===== src/Presence/Nearby/Exclusion.antt =====
-- The controls of settings_service.go as the other users meet them through the feed of
-- nearby_service.go.
use smusic.Prelude.{
  ◌⊎◌, ℕ, suc, String, ◌≡◌, ◌≢◌, ap, sym, ◌∙◌, Bool, true, false, ◌||◌, Option, none, some, List,
  arith, eq_refl, All, All-map,
}
use smusic.Effect.{Env, State, ok, ◌>>=◌}
use smusic.Presence.Domain.{PrivacySettings, Floats, GeoPosition, NearbyResult, has_active_consent}
use smusic.Presence.World.{World}
use smusic.Presence.Repo
use smusic.Presence.Repo.{set_pair}
use smusic.Presence.Settings.{revoke_consent, block}
use smusic.Presence.Settings.Validity.{AllValid}
use smusic.Presence.Settings.Consent.{Stored, revoke_consent-settings}
use smusic.Presence.Nearby.{Profiles, apply_update}
use smusic.Presence.Nearby.Privacy.{settings_of, Permitted}
use smusic.Presence.Nearby.Feed.{UpdateFeed, apply_update-Feed}

module _ (fl : Floats) (w : World) (requester_id u : String) (mine : PrivacySettings) (time : ℕ)
    (from : GeoPosition → Type 0) where
  -- A result of the feed.
  abbrev Seen : NearbyResult → Type 0
  Seen r = (p : GeoPosition) × from p × Permitted fl w requester_id mine p time r

  absent_without_consent :
      has_active_consent (settings_of u (w.settings u)) time ≡ false
      → (r : NearbyResult) → Seen r
      → r.user_id ≢ u
  absent_without_consent inactive r (pos, there, p) e = cc (
    sym p.may_see.consent,
    ap (λ s. has_active_consent s time) p.may_see.target,
    ap (λ v. has_active_consent (settings_of v (w.settings v)) time) (sym p.user ∙ e),
    inactive,
  )

  absent_when_blocked :
      (w.blocks requester_id u || w.blocks u requester_id) ≡ true
      → (r : NearbyResult) → Seen r
      → r.user_id ≢ u
  absent_when_blocked blocked r (pos, there, p) e = cc (
    p.may_see.unblocked,
    ap (λ v. w.blocks requester_id v || w.blocks v requester_id) (sym p.user ∙ e),
    blocked,
  )

pub inactive_row :
    (u : String) (o : Option PrivacySettings) (time : ℕ)
    → Stored (λ row. (row.paused ≡ true) × ((t : ℕ) → has_active_consent row t ≡ false)) o
    → has_active_consent (settings_of u o) time ≡ false
inactive_row u none time h = absurd h
inactive_row u (some row) time h = h.1 time

blocks-block :
    (env : Env) (fl : Floats) (has_index : Bool) (a b : String) (s t : State World)
    → block env fl has_index a b s ≡ ok tt t
    → t.world.blocks a b ≡ true
unfolding block Repo.block ◌>>=◌
blocks-block env fl has_index a b s t h = ground (arith, eq_refl a, eq_refl b)

module _ (env : Env) (fl : Floats) (jitter : ℕ → GeoPosition → Option GeoPosition)
    (profile : ℕ → Profiles) where
  -- From a table whose rows are valid: once a user's revocation has succeeded, no update of anyone
  -- that follows it returns that user, even if the removal from the geo index failed.
  pub revoke_consent-apply_update :
      (has_index : Bool) (u viewer track_id : String) (raw : GeoPosition) (ttl : ℕ)
      (s t v : State World) (r : PrivacySettings) (rs : List NearbyResult)
      → AllValid s.world
      → revoke_consent env fl has_index u s ≡ ok r t
      → apply_update env fl jitter profile viewer raw track_id ttl t ≡ ok rs v
      → All (λ x. x.user_id ≢ u) rs
  revoke_consent-apply_update has_index u viewer track_id raw ttl s t v r rs valid revoked shown =
      All-map _ _
        (absent_without_consent fl t.world viewer u _ (env.clock (suc t.tick)) _ (
          inactive_row u (t.world.settings u) (env.clock (suc t.tick))
            (revoke_consent-settings env fl u has_index s t r valid revoked)))
        rs feed.permitted
    where
      feed : UpdateFeed env fl jitter viewer raw t rs
      feed = (apply_update-Feed env fl jitter profile viewer raw track_id ttl t v rs shown).1

  -- Once a block has succeeded, an update of either of the two users that follows it does not
  -- return the other.
  pub block-apply_update :
      (has_index : Bool) (a b viewer other track_id : String) (raw : GeoPosition) (ttl : ℕ)
      (s t v : State World) (rs : List NearbyResult)
      → block env fl has_index a b s ≡ ok tt t
      → ((viewer ≡ a) × (other ≡ b)) ⊎ ((viewer ≡ b) × (other ≡ a))
      → apply_update env fl jitter profile viewer raw track_id ttl t ≡ ok rs v
      → All (λ x. x.user_id ≢ other) rs
  block-apply_update has_index a b viewer other track_id raw ttl s t v rs done pair shown =
      All-map _ _
        (absent_when_blocked fl t.world viewer other _ (env.clock (suc t.tick)) _ (stored pair)) rs
        feed.permitted
    where
      feed : UpdateFeed env fl jitter viewer raw t rs
      feed = (apply_update-Feed env fl jitter profile viewer raw track_id ttl t v rs shown).1

      stored :
          ((viewer ≡ a) × (other ≡ b)) ⊎ ((viewer ≡ b) × (other ≡ a))
          → (t.world.blocks viewer other || t.world.blocks other viewer) ≡ true
      stored p = ground (arith, blocks-block env fl has_index a b s t done)
