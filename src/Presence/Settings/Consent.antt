-- ===== src/Presence/Settings/Consent.antt =====
-- What granting, revoking and hiding do to the stored row and to the geo index.
use smusic.Prelude.{
  ltb, subst, ◌+◌, ℕ, String, ◌≡◌, refl, Bool, true, false, Option, none, some, [], ◌∷◌, arith,
  eq_refl,
}
use smusic.Effect.{IsErr, world_of, Env, State, ok, ◌>>=◌}
use smusic.Presence.Domain.{consent_validity_period, has_active_consent, PrivacySettings, Floats}
use smusic.Presence.World.{World}
use smusic.Presence.Repo
use smusic.Presence.GeoIndex
use smusic.Presence.GeoIndex.{position_of, geo_remove, Members}
use smusic.Effect.Keeps.{Post}
use smusic.Presence.Settings.Validity.{IsValid, AllValid}
use smusic.Presence.Settings.Validity.Calls.{revoke_consent-AllValid}
use smusic.Presence.Settings.{grant_consent, get, revoke_consent, remove_from_index}

pub position_of-geo_remove : (u : String) (m : Members) → position_of u (geo_remove u m) ≡ none
position_of-geo_remove u [] = refl
position_of-geo_remove u ((n, p) ∷ rest) = ground (arith, position_of-geo_remove u rest)

-- A user that a completed Remove left out of both structures.
abbrev pub IsAbsent : String → World → Type 0
IsAbsent user_id w = (position_of user_id w.members ≡ none) × (w.details user_id ≡ none)

abbrev pub Stored : (PrivacySettings → Type 0) → Option PrivacySettings → Type 0
Stored P none = ⊥
Stored P (some row) = P row

abbrev IsRevoked : PrivacySettings → Type 0
IsRevoked row = (row.paused ≡ true) × (row.proximity_consent_enabled ≡ false)

module _ (env : Env) (fl : Floats) (user_id : String) where
  revoke_consent-row :
      (has_index : Bool) (s t : State World) (r : PrivacySettings)
      → revoke_consent env fl has_index user_id s ≡ ok r t
      → Stored IsRevoked (t.world.settings r.user_id)
  unfolding revoke_consent get Repo.get Repo.upsert remove_from_index GeoIndex.remove ◌>>=◌
  revoke_consent-row has_index s t r h = ground (arith, eq_refl r.user_id)

  owner-revoke_consent :
      (has_index : Bool) (s t : State World) (r : PrivacySettings)
      → AllValid s.world
      → revoke_consent env fl has_index user_id s ≡ ok r t
      → r.user_id ≡ user_id
  owner-revoke_consent has_index s t r valid h =
      (subst (Post AllValid (IsValid user_id)) h
        ((revoke_consent-AllValid env fl has_index user_id).at s valid)).1.owner

  -- From a table whose rows are valid, a revocation that succeeded leaves a stored row that is
  -- paused and authorises nothing at any time.
  pub revoke_consent-settings :
      (has_index : Bool) (s t : State World) (r : PrivacySettings)
      → AllValid s.world
      → revoke_consent env fl has_index user_id s ≡ ok r t
      → Stored
          (λ row. (row.paused ≡ true) × ((time : ℕ) → has_active_consent row time ≡ false))
          (t.world.settings user_id)
  unfolding has_active_consent
  revoke_consent-settings has_index s t r valid h = inactive (t.world.settings user_id) (
      subst (λ u. Stored IsRevoked (t.world.settings u))
        (owner-revoke_consent has_index s t r valid h) (revoke_consent-row has_index s t r h))
    where
      inactive :
          (o : Option PrivacySettings)
          → Stored IsRevoked o
          → Stored
              (λ row. (row.paused ≡ true) × ((time : ℕ) → has_active_consent row time ≡ false))
              o
      inactive none h = h
      inactive (some row) h = (h.0, λ time. rw h.1)

  -- If no interaction fails, a revocation that succeeded leaves the user in neither structure of the
  -- geo index.
  pub revoke_consent-IsAbsent :
      (s t : State World) (r : PrivacySettings)
      → ((n : ℕ) → env.fault n ≡ false)
      → revoke_consent env fl true user_id s ≡ ok r t
      → IsAbsent user_id t.world
  unfolding revoke_consent get Repo.get Repo.upsert remove_from_index GeoIndex.remove ◌>>=◌
  revoke_consent-IsAbsent s t r up h = grind (arith, up, position_of-geo_remove, eq_refl)

  -- Without a verified second factor a grant fails and writes nothing.
  pub grant_consent-mfa :
      (has_index : Bool) (s : State World)
      → s.world.mfa_verified user_id ≡ false
      → IsErr (grant_consent env fl has_index user_id s)
        × (world_of (grant_consent env fl has_index user_id s) ≡ s.world)
  unfolding grant_consent ◌>>=◌
  grant_consent-mfa has_index s h = ground arith

  -- Where a row is stored under its owner's key, a grant that succeeds authorises the user until
  -- the renewal date, and no longer, and changes neither the visibility nor the pause of that row.
  pub grant_consent-settings :
      (has_index : Bool) (s t : State World) (old r : PrivacySettings)
      → s.world.settings user_id ≡ some old
      → old.user_id ≡ user_id
      → grant_consent env fl has_index user_id s ≡ ok r t
      → Stored
          (λ row.
            ((time : ℕ)
              → has_active_consent row time ≡ ltb time (r.updated_at + consent_validity_period))
            × (row.presence_visibility ≡ old.presence_visibility)
            × (row.paused ≡ old.paused))
          (t.world.settings user_id)
  unfolding grant_consent get Repo.get Repo.upsert has_active_consent ◌>>=◌
  grant_consent-settings has_index s t old r stored own h = ground (arith, eq_refl user_id)
